-- ===== src/Simulator.antt =====
-- sim/simulator.cpp: the clock, the generator and the event queue of a simulation. An action is a
-- value of a type A, and `perform` says what a call of it does to the simulator and to the rest of
-- the program, W.
pub mod Clock
pub mod Runs
mod Tests
use Prim.Native.Nat.{bit_xor}
use sim_kv.Prelude.{[], ℕ, zero, suc, ◌/◌, ◌%◌, Option, none, some, leb, if◌then◌else◌, add64}
use sim_kv.Prng.{Prng, seeded, mul64, range}
use sim_kv.EventQueue
use sim_kv.EventQueue.{Event, EventQueue, pop_min, peek_time}

pub record Simulator {ℓ} (A : Type ℓ) : Type ℓ where
  pub clock : ℕ
  pub next_seq : ℕ
  pub trace_hash : ℕ
  pub prng : Prng
  pub queue : EventQueue A

abbrev pub fnv_offset : ℕ
fnv_offset = 14695981039346656037

abbrev pub fnv_prime : ℕ
fnv_prime = 1099511628211

module _ {ℓ} {A : Type ℓ} where
  -- the constructor
  unfoldable pub created : ℕ → Simulator A
  created seed = record {
    clock = 0;
    next_seq = 0;
    trace_hash = fnv_offset;
    prng = seeded seed;
    queue = record { heap = []; cancelled = [] };
  }

  unfoldable pub schedule_at : ℕ → A → Simulator A → Simulator A × ℕ
  schedule_at when action s =
      let (queue, id) = EventQueue.push when s.next_seq action s.queue in
      (record s { next_seq = add64 s.next_seq 1; queue = queue }, id)

  unfoldable pub schedule : ℕ → A → Simulator A → Simulator A × ℕ
  schedule delay action s = schedule_at (add64 s.clock delay) action s

  unfoldable pub cancel : ℕ → Simulator A → Simulator A
  cancel id s = record s { queue = EventQueue.cancel id s.queue }

  unfoldable pub random_range : (fuel lo hi : ℕ) → Simulator A → Option (ℕ × Simulator A)
  random_range fuel lo hi s = elim (range fuel lo hi s.prng) [
    | none ↦ none
    | some (r, p) ↦ some (r, record s { prng = p })
  ]

-- `fold`, the FNV-1a step on the eight bytes of a number, lowest first
unfoldable pub fold_bytes : ℕ → ℕ → ℕ → ℕ
fold_bytes zero v hash = hash
fold_bytes (suc rounds) v hash =
    fold_bytes rounds (v / 256) (mul64 (bit_xor hash (v % 256)) fnv_prime)

module _ {ℓ κ} {A : Type ℓ} {W : Type κ} (perform : A → Simulator A → W → Simulator A × W) where
  -- the rest of process_one, behind pop_min
  unfoldable pub fire : Event A → Simulator A → W → Simulator A × W
  fire e s w =
      if e.cancelled
      then (s, w)
      else perform e.action
          (record s { trace_hash = fold_bytes 8 e.seq (fold_bytes 8 e.time s.trace_hash) }) w

  -- `none` where pop_min throws
  unfoldable pub process_one : Simulator A → W → Option (Simulator A × W)
  process_one s w = elim (pop_min s.queue) [
    | none ↦ none
    | some (e, queue) ↦ some (fire e (record s { clock = e.time; queue = queue }) w)
  ]

  -- run_until_idle: `none` where the fuel runs out or an event throws
  unfoldable pub run_until_idle : ℕ → Simulator A → W → Option (Simulator A × W)
  run_until_idle zero s w = none
  run_until_idle (suc fuel) s w =
      let rest = λ (s' : Simulator A) (w' : W). run_until_idle fuel s' w' in
      elim (peek_time s.queue) [
        | none ↦ some (s, w)
        | some t ↦ elim (process_one s w) [ none ↦ none | some (s', w') ↦ rest s' w' ]
      ]

  -- the loop of run_for
  unfoldable pub run_to : (fuel deadline : ℕ) → Simulator A → W → Option (Simulator A × W)
  run_to zero deadline s w = none
  run_to (suc fuel) deadline s w =
      let rest = λ (s' : Simulator A) (w' : W). run_to fuel deadline s' w' in
      elim (peek_time s.queue) [
        | none ↦ some (s, w)
        | some t ↦
            if leb t deadline
            then elim (process_one s w) [ none ↦ none | some (s', w') ↦ rest s' w' ]
            else some (s, w)
      ]

  unfoldable pub run_for : (fuel duration : ℕ) → Simulator A → W → Option (Simulator A × W)
  run_for fuel duration s w =
      let deadline = add64 s.clock duration in
      elim (run_to fuel deadline s w) [
        | none ↦ none
        | some (s', w') ↦ some (record s' { clock = deadline }, w')
      ]
