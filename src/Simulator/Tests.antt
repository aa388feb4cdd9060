-- ===== src/Simulator/Tests.antt =====
-- A simulator whose actions note their number and schedule themselves again.
use sim_kv.Prelude.{
  ℕ, suc, ◌-◌, add64, Bool-cases, inl, inr, ◌+◌, ◌≤◌, ◌≡◌, refl, ap, List, [], ◌∷◌, some, false,
  arith,
}
use sim_kv.EventQueue
use sim_kv.EventQueue.{Event, EventQueue, insert_event, peek_time}
use sim_kv.Simulator.{Simulator, created, schedule, schedule_at, fire, process_one, run_for}
use sim_kv.Simulator.Clock.{IsTimely, Uses, pop_min-time, process_one-IsTimely}
use sim_kv.Simulator.Runs.{NothingDue, Winds, run_for_lem}

abbrev note : ℕ → Simulator ℕ → List ℕ → Simulator ℕ × List ℕ
note a s w = ((schedule 5 a s).0, a ∷ w)

note-careful : (a : ℕ) (s : Simulator ℕ) (w : List ℕ) → s.clock ≤ 1000 → Uses s (note a s w).0
note-careful a s w early = Uses.schedules 5 a (omega arith) (Uses.uses_nothing refl)

-- Events at 5 and at 9.
abbrev two_events : Simulator ℕ
two_events = record (created {A = ℕ} 7) {
  next_seq = 2;
  queue = record {
    heap =
        record { time = 5; seq = 0; action = 8; cancelled = false }
        ∷ record { time = 9; seq = 1; action = 9; cancelled = false }
        ∷ [];
    cancelled = [];
  };
}

two_events-IsTimely : IsTimely two_events
unfolding created
two_events-IsTimely = record {
  valid = record { ordered = ((refl, tt), (tt, tt)); unflagged = (refl, (refl, tt)); sorted = tt };
  later = (omega arith, (omega arith, tt));
}

-- The time that each event has left to the deadline.
abbrev time_left : ℕ → List (Event ℕ) → ℕ
time_left deadline [] = 0
time_left deadline (e ∷ es) = suc deadline - e.time + time_left deadline es

abbrev all_left : ℕ → Simulator ℕ → List ℕ → ℕ
all_left deadline s w = time_left deadline s.queue.heap

time_left-insert_event :
    (deadline : ℕ) (e : Event ℕ) (es : List (Event ℕ))
    → time_left deadline (insert_event e es) ≡ suc deadline - e.time + time_left deadline es
unfolding insert_event
time_left-insert_event deadline e [] = omega arith
time_left-insert_event deadline e (f ∷ es) = ground (arith, time_left-insert_event deadline e es)

time_left-fire :
    (deadline : ℕ) (e : Event ℕ) (s : Simulator ℕ) (w : List ℕ)
    → s.clock ≤ 1000
    → time_left deadline (fire note e s w).0.queue.heap
      ≤ suc deadline - (s.clock + 5) + time_left deadline s.queue.heap
unfolding fire schedule schedule_at EventQueue.push
time_left-fire deadline e s w early = elim (Bool-cases e.cancelled) [
  | inl skip ↦ rw skip (omega arith)
  | inr live ↦ rw live (
      omega (
        arith,
        time_left-insert_event deadline
            (record {
              time = add64 s.clock 5;
              seq = s.next_seq;
              action = e.action;
              cancelled = false;
            })
            s.queue.heap,
      ))
]

note-Winds :
    (deadline : ℕ) → deadline ≤ 1000 → Winds note 1000 note-careful deadline (all_left deadline)
unfolding process_one
note-Winds deadline low s s' w w' t timely first due stepped =
    let (e, q, out, at_t, p) = pop_min-time s.queue t timely.valid first in
    let s1 : Simulator ℕ = record s { clock = e.time; queue = q } in
    let same : fire note e s1 w ≡ (s', w') = ground (arith, out) in
    omega (
      arith,
      at_t,
      ap (time_left deadline) p.taken,
      ap (λ (r : Simulator ℕ × List ℕ). time_left deadline r.0.queue.heap) same,
      time_left-fire deadline e s1 w (omega (arith, at_t)),
    )

process_one-IsTimely_example :
    (s' : Simulator ℕ) × (w' : List ℕ) × (process_one note two_events [] ≡ some (s', w'))
    × IsTimely s'
    × (s'.clock ≡ 5)
    × (two_events.clock ≤ s'.clock)
unfolding peek_time
process_one-IsTimely_example =
    process_one-IsTimely note 1000 note-careful two_events [] 5 two_events-IsTimely refl
      (omega arith)

run_for_lem_example :
    (s' : Simulator ℕ) × (w' : List ℕ) × (run_for note 40 17 two_events [] ≡ some (s', w'))
    × IsTimely s'
    × (s'.clock ≡ two_events.clock + 17)
    × NothingDue (two_events.clock + 17) s'
unfolding created
run_for_lem_example =
    run_for_lem note 1000 note-careful (all_left 17) 40 17 two_events []
      (note-Winds 17 (omega arith)) two_events-IsTimely (omega arith) (omega arith) (omega arith)
