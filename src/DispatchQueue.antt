-- ===== src/DispatchQueue.antt =====
-- server/dispatch_queue.cpp: closures posted by any thread, run in order by one. A closure is a
-- value of a type F. The calls that any thread, or the closure itself, makes while a closure runs
-- with the lock released are given as lists, one for each closure that is run.
pub mod Order
pub mod Once
mod Tests
use sim_kv.Prelude.{
  ℕ, zero, suc, List, [], ◌∷◌, ◌++◌, Bool, true, false, Option, none, some, if◌then◌else◌,
}

pub record DispatchQueue (F : Type 0) : Type 0 where
  pub q : List F
  pub stopped : Bool

-- A call of another thread on the queue.
pub data Call (F : Type 0) : Type 0 where
  posts : F → Call F
  stops : Call F

-- What a drain did: the closures it ran, and the lists of calls that it has not come to.
pub record Drained (F : Type 0) : Type 0 where
  pub ran : List F
  pub calls_left : List (List (Call F))
  pub queue : DispatchQueue F

module _ {F : Type 0} where
  unfoldable pub post : F → DispatchQueue F → DispatchQueue F
  post f d = if d.stopped then d else record d { q = d.q ++ f ∷ [] }

  unfoldable pub stop : DispatchQueue F → DispatchQueue F
  stop d = record d { stopped = true }

  unfoldable pub is_stopped : DispatchQueue F → Bool
  is_stopped d = d.stopped

  unfoldable pub call : Call F → DispatchQueue F → DispatchQueue F
  call (posts f) d = post f d
  call stops d = stop d

  unfoldable pub call_all : List (Call F) → DispatchQueue F → DispatchQueue F
  call_all [] d = d
  call_all (c ∷ cs) d = call_all cs (call c d)

  abbrev pub first_calls : List (List (Call F)) → List (Call F)
  first_calls [] = []
  first_calls (cs ∷ rest) = cs

  abbrev pub later_calls : List (List (Call F)) → List (List (Call F))
  later_calls [] = []
  later_calls (cs ∷ rest) = rest

  abbrev pub ran_before : F → Option (Drained F) → Option (Drained F)
  ran_before f none = none
  ran_before f (some r) = some (record r { ran = f ∷ r.ran })

  -- the loop that runs what is in the queue: `none` where the fuel runs out
  unfoldable pub drain : ℕ → List (List (Call F)) → DispatchQueue F → Option (Drained F)
  drain zero calls d = none
  drain (suc fuel) calls d = elim d.q [
    | [] ↦ some (record { ran = []; calls_left = calls; queue = d })
    | f ∷ rest ↦
        ran_before f
          (drain fuel (later_calls calls) (call_all (first_calls calls) (record d { q = rest })))
  ]

  abbrev pub ran_after : List F → Option (Drained F) → Option (Drained F)
  ran_after fs none = none
  ran_after fs (some r) = some (record r { ran = fs ++ r.ran })

  -- run_once behind its first drain; `arrived` are the calls while it waits
  unfoldable pub wait_and_drain : ℕ → List (Call F) → Drained F → Option (Drained F)
  wait_and_drain fuel arrived r =
      if r.queue.stopped
      then some r
      else ran_after r.ran (drain fuel r.calls_left (call_all arrived r.queue))

  unfoldable pub run_once :
      ℕ → List (List (Call F)) → (arrived : List (Call F)) → DispatchQueue F → Option (Drained F)
  run_once fuel calls arrived d = elim (drain fuel calls d) [
    | none ↦ none
    | some r ↦ wait_and_drain fuel arrived r
  ]
