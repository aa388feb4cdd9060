-- ===== src/Simulator/Runs.antt =====
-- run_for: what it leaves behind.
use sim_kv.Prelude.{
  ℕ, zero, suc, ◌+◌, ◌^◌, ◌≤◌, ◌<◌, ◌≡◌, refl, List, [], ◌∷◌, none, some, All, leb, leb→le,
  Bool-cases, Option-cases, inl, inr, arith, add64,
}
use sim_kv.EventQueue.{Event, peek_time, peek_heap}
use sim_kv.EventQueue.Order.{IsOrdered}
use sim_kv.Simulator.{Simulator, process_one, run_to, run_for}
use sim_kv.Simulator.Clock.{IsTimely, Uses, process_one-IsTimely, later_than_first}

module _ {ℓ} {A : Type ℓ} where
  -- Every event that is left lies behind the deadline.
  abbrev pub NothingDue : ℕ → Simulator A → Type 0
  NothingDue deadline s = All (λ (e : Event A). deadline < e.time) s.queue.heap

  lt_of_later :
      (t n : ℕ) (es : List (Event A))
      → n < t
      → All (λ (e : Event A). t ≤ e.time) es
      → All (λ (e : Event A). n < e.time) es
  lt_of_later t n [] h a = tt
  lt_of_later t n (e ∷ es) h (a, as') = (omega arith, lt_of_later t n es h as')

  le_of_due :
      (n : ℕ) (es : List (Event A))
      → All (λ (e : Event A). n < e.time) es
      → All (λ (e : Event A). n ≤ e.time) es
  le_of_due n [] a = tt
  le_of_due n (e ∷ es) (a, as') = (omega arith, le_of_due n es as')

  due_of_first :
      (n t : ℕ) (es : List (Event A))
      → IsOrdered es
      → peek_heap es ≡ some t
      → n < t
      → All (λ (e : Event A). n < e.time) es
  due_of_first n t [] o first h = tt
  due_of_first n t (e ∷ es) (o, os) first h =
      let behind : n < e.time = ground arith in
      (behind, lt_of_later e.time n es behind (later_than_first e es o))

  nil_of_peek : (es : List (Event A)) → peek_heap es ≡ none → es ≡ []
  nil_of_peek [] h = refl
  nil_of_peek (e ∷ es) h = cc

  NothingDue-nil : (n : ℕ) (s : Simulator A) → s.queue.heap ≡ [] → NothingDue n s
  NothingDue-nil n s h = rw h tt

module _ {ℓ κ} {A : Type ℓ} {W : Type κ} (perform : A → Simulator A → W → Simulator A × W)
    (limit : ℕ)
    (careful : (a : A) (s : Simulator A) (w : W) → s.clock ≤ limit → Uses s (perform a s w).0) where
  -- Each event up to the deadline lowers a number.
  abbrev pub Winds : ℕ → (Simulator A → W → ℕ) → Type (ℓ ⊔ κ)
  Winds deadline left =
      (s s' : Simulator A) (w w' : W) (t : ℕ)
      → IsTimely s
      → peek_time s.queue ≡ some t
      → t ≤ deadline
      → process_one perform s w ≡ some (s', w')
      → left s' w' < left s w

  -- The loop of run_for ends with nothing due.
  run_to_lem :
      (left : Simulator A → W → ℕ) (fuel deadline : ℕ) (s : Simulator A) (w : W)
      → Winds deadline left
      → IsTimely s
      → deadline ≤ limit
      → left s w < fuel
      → (s' : Simulator A) × (w' : W) × (run_to perform fuel deadline s w ≡ some (s', w'))
        × IsTimely s'
        × NothingDue deadline s'
  unfolding run_to
  run_to_lem left zero deadline s w winds timely early enough = absurd (omega arith)
  run_to_lem left (suc fuel) deadline s w winds timely early enough =
      elim (Option-cases (peek_time s.queue)) [
        | inl idle ↦ (
          s,
          w,
          rw (idle, run_to) refl,
          timely,
          NothingDue-nil deadline s (unfold peek_time in nil_of_peek s.queue.heap idle),
        )
        | inr (t, first) ↦ elim (Bool-cases (leb t deadline)) [
          | inr later ↦ (
            s,
            w,
            rw (first, run_to, later) refl,
            timely,
            unfold peek_time in
                due_of_first deadline t s.queue.heap timely.valid.ordered first (ground arith),
          )
          | inl due ↦
              let (s1, w1, stepped, timely1, at_t, onward) =
                process_one-IsTimely perform limit careful s w t timely first
                  (omega (arith, leb→le _ _ due)) in
              let (s2, w2, ran, timely2, nothing) =
                run_to_lem left fuel deadline s1 w1 winds timely1 early
                  (omega (arith, winds s s1 w w1 t timely first (leb→le _ _ due) stepped)) in
              (s2, w2, rw (first, run_to, due, stepped) ran, timely2, nothing)
        ]
      ]

  -- run_for up to a deadline that is no later than a limit, on a simulator with no event before the
  -- clock, whose actions, while the clock is no later than the limit, only schedule behind the clock,
  -- cancel and draw numbers: where each event up to the deadline lowers a number and the fuel
  -- is above it, run_for returns, the clock is at the deadline, and every event left lies behind it.
  pub run_for_lem :
      (left : Simulator A → W → ℕ) (fuel duration : ℕ) (s : Simulator A) (w : W)
      → Winds (s.clock + duration) left
      → IsTimely s
      → s.clock + duration < 2 ^ 64
      → s.clock + duration ≤ limit
      → left s w < fuel
      → (s' : Simulator A) × (w' : W) × (run_for perform fuel duration s w ≡ some (s', w'))
        × IsTimely s'
        × (s'.clock ≡ s.clock + duration)
        × NothingDue (s.clock + duration) s'
  unfolding run_for
  run_for_lem left fuel duration s w winds timely small early enough =
      let deadline = s.clock + duration in
      let fits : add64 s.clock duration ≡ deadline = omega arith in
      let (s1, w1, ran, timely1, nothing) =
        run_to_lem left fuel deadline s w winds timely early enough in
      (
        record s1 { clock = deadline },
        w1,
        rw (fits, run_for, ran, fits) refl,
        record { valid = timely1.valid; later = le_of_due deadline s1.queue.heap nothing },
        refl,
        nothing,
      )
