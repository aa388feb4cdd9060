-- ===== src/Simulator/Clock.antt =====
-- The clock of the simulator never goes back.
use sim_kv.Prelude.{
  ℕ, ◌+◌, ◌^◌, ◌≤◌, ◌<◌, ◌≡◌, refl, sym, ap, ◌∙◌, subst, List, [], ◌∷◌, some, true, All, Bool-cases,
  inl, inr, arith, add64,
}
use sim_kv.OrdMap.{OrdMap, nat_ord}
use sim_kv.OrdMap.Laws.{put-IsSorted}
use sim_kv.Prng.{Prng}
use sim_kv.EventQueue
use sim_kv.EventQueue.{
  Event, EventQueue, goes_first, insert_event, pop_min, pop_heap, take_event, peek_time, peek_heap,
}
use sim_kv.EventQueue.Order
use sim_kv.EventQueue.Order.{insert_event-All, push-IsValid, take_event-IsPopped, IsPopped}
use sim_kv.Simulator.{Simulator, schedule_at, schedule, cancel, fold_bytes, fire, process_one}

some_inj : {x y : ℕ} → some x ≡ some y → x ≡ y
some_inj h = cc

module _ {ℓ} {A : Type ℓ} where
  -- The queue is in order, and no event in it lies before the clock.
  pub record IsTimely (s : Simulator A) : Type ℓ where
    pub valid : Order.IsValid s.queue
    pub later : All (λ (e : Event A). s.clock ≤ e.time) s.queue.heap

  -- What an action may do to the simulator: schedule behind the clock, with no overflow of the time,
  -- cancel, and draw numbers.
  pub data Uses : Simulator A → Simulator A → Type ℓ where
    uses_nothing : {s s' : Simulator A} → s ≡ s' → Uses s s'
    schedules :
        (delay : ℕ) (action : A) {s s' : Simulator A}
        → s.clock + delay < 2 ^ 64
        → Uses (schedule delay action s).0 s'
        → Uses s s'
    cancels : (id : ℕ) {s s' : Simulator A} → Uses (cancel id s) s' → Uses s s'
    draws : (p : Prng) {s s' : Simulator A} → Uses (record s { prng = p }) s' → Uses s s'

  schedule-IsTimely :
      (delay : ℕ) (action : A) (s : Simulator A)
      → s.clock + delay < 2 ^ 64
      → IsTimely s
      → IsTimely (schedule delay action s).0
  unfolding schedule schedule_at EventQueue.push
  schedule-IsTimely delay action s small t = record {
    valid = (push-IsValid (add64 s.clock delay) s.next_seq action s.queue t.valid).0;
    later = insert_event-All _ _ s.queue.heap (omega arith) t.later;
  }

  cancel-IsTimely : (id : ℕ) (s : Simulator A) → IsTimely s → IsTimely (cancel id s)
  unfolding cancel EventQueue.cancel
  cancel-IsTimely id s t = record {
    valid = record {
      ordered = t.valid.ordered;
      unflagged = t.valid.unflagged;
      sorted = put-IsSorted id tt s.queue.cancelled t.valid.sorted;
    };
    later = t.later;
  }

  pub Uses-IsTimely :
      {s s' : Simulator A} → Uses s s' → IsTimely s → IsTimely s' × (s'.clock ≡ s.clock)
  unfolding schedule schedule_at cancel
  Uses-IsTimely (Uses.uses_nothing same) t =
      (subst IsTimely same t, ap (λ (r : Simulator A). r.clock) (sym same))
  Uses-IsTimely (Uses.schedules delay action {s = s} small u) t =
      Uses-IsTimely u (schedule-IsTimely delay action s small t)
  Uses-IsTimely (Uses.cancels id {s = s} u) t = Uses-IsTimely u (cancel-IsTimely id s t)
  Uses-IsTimely (Uses.draws p u) t = Uses-IsTimely u (record { valid = t.valid; later = t.later })

  pub later_than_first :
      (e : Event A) (es : List (Event A))
      → All (λ f. goes_first e f ≡ true) es
      → All (λ (f : Event A). e.time ≤ f.time) es
  later_than_first e [] h = tt
  later_than_first e (f ∷ es) (h, hs) = (ground arith, later_than_first e es hs)

  first_later :
      (clock : ℕ) (es : List (Event A)) (t : ℕ)
      → All (λ (e : Event A). clock ≤ e.time) es
      → peek_heap es ≡ some t
      → clock ≤ t
  first_later clock [] t h e = cc
  first_later clock (x ∷ es) t (h, hs) e = ground arith

  take_event-time :
      (e : Event A) (es : List (Event A)) (ids : OrdMap ℕ (Unit {0}))
      → (take_event e es ids).0.time ≡ e.time
  unfolding take_event
  take_event-time e es ids = ground arith

  popped :
      (es : List (Event A)) (ids : OrdMap ℕ (Unit {0})) (t : ℕ)
      → Order.IsValid (record { heap = es; cancelled = ids })
      → peek_heap es ≡ some t
      → (e : Event A) × (q' : EventQueue A) × (pop_heap es ids ≡ some (e, q'))
        × (e.time ≡ t)
        × IsPopped (record { heap = es; cancelled = ids }) e q'
  unfolding pop_heap
  popped [] ids t v first = cc
  popped (e ∷ es) ids t v first = (
    (take_event e es ids).0,
    (take_event e es ids).1,
    refl,
    take_event-time e es ids ∙ some_inj first,
    take_event-IsPopped e es ids v,
  )

  -- What pop_min gives out of a queue whose first event is at a known time.
  pub pop_min-time :
      (q : EventQueue A) (t : ℕ)
      → Order.IsValid q
      → peek_time q ≡ some t
      → (e : Event A) × (q' : EventQueue A) × (pop_min q ≡ some (e, q'))
        × (e.time ≡ t)
        × IsPopped q e q'
  unfolding pop_min peek_time
  pop_min-time q t v first = popped q.heap q.cancelled t v first

  -- The first event lies at or behind the clock.
  pub peek_time-later :
      (s : Simulator A) (t : ℕ) → IsTimely s → peek_time s.queue ≡ some t → s.clock ≤ t
  unfolding peek_time
  peek_time-later s t v first = first_later s.clock s.queue.heap t v.later first

module _ {ℓ κ} {A : Type ℓ} {W : Type κ} (perform : A → Simulator A → W → Simulator A × W)
    (limit : ℕ)
    (careful : (a : A) (s : Simulator A) (w : W) → s.clock ≤ limit → Uses s (perform a s w).0) where
  fire-IsTimely :
      (e : Event A) (s : Simulator A) (w : W)
      → s.clock ≤ limit
      → IsTimely s
      → IsTimely (fire perform e s w).0 × ((fire perform e s w).0.clock ≡ s.clock)
  unfolding fire
  fire-IsTimely e s w early t =
      let s' = record s { trace_hash = fold_bytes 8 e.seq (fold_bytes 8 e.time s.trace_hash) } in
      elim (Bool-cases e.cancelled) [
        | inl skip ↦ rw skip (t, refl)
        | inr live ↦ rw live (
            Uses-IsTimely (careful e.action s' w early)
              (record { valid = t.valid; later = t.later }))
      ]

  -- process_one on a simulator with no event before the clock, whose actions, while the clock is no
  -- later than a limit, only schedule behind the clock, cancel and draw numbers: with a first event in
  -- the queue that is no later than the limit it returns, the clock moves to
  -- the time of that event and so not back, and again no event lies before the clock.
  pub process_one-IsTimely :
      (s : Simulator A) (w : W) (t : ℕ)
      → IsTimely s
      → peek_time s.queue ≡ some t
      → t ≤ limit
      → (s' : Simulator A) × (w' : W) × (process_one perform s w ≡ some (s', w'))
        × IsTimely s'
        × (s'.clock ≡ t)
        × (s.clock ≤ s'.clock)
  unfolding process_one
  process_one-IsTimely s w t timely first early =
      let (e, q, out, at_t, p) = pop_min-time s.queue t timely.valid first in
      let s' : Simulator A = record s { clock = e.time; queue = q } in
      let (good, still) =
        fire-IsTimely e s' w (omega (arith, at_t))
          (record { valid = p.valid; later = later_than_first e q.heap p.first }) in
      (
        (fire perform e s' w).0,
        (fire perform e s' w).1,
        rw (out, process_one) refl,
        good,
        still ∙ at_t,
        omega (arith, still ∙ at_t, peek_time-later s t timely first),
      )
