-- ===== src/EventQueue.antt =====
-- sim/event_queue.cpp: the events to come, the earliest first, and the ids of those that are
-- cancelled. An action is a value of a type of the caller's. The heap of std::priority_queue is the
-- list of its events in the order in which it gives them out.
pub mod Order
mod Tests
use sim_kv.Prelude.{
  ℕ, List, [], ◌∷◌, Bool, true, false, Option, none, some, ltb, leb, ◌==◌, if◌then◌else◌,
}
use sim_kv.OrdMap.{OrdMap, find, put, erase, nat_ord}

pub record Event {ℓ} (A : Type ℓ) : Type ℓ where
  pub time : ℕ
  pub seq : ℕ
  pub action : A
  pub cancelled : Bool

pub record EventQueue {ℓ} (A : Type ℓ) : Type ℓ where
  pub heap : List (Event A)
  pub cancelled : OrdMap ℕ (Unit {0})

abbrev pub has : ℕ → OrdMap ℕ (Unit {0}) → Bool
has id ids = elim (find id ids) [ none ↦ false | some found ↦ true ]

module _ {ℓ} {A : Type ℓ} where
  -- not EventQueue::Cmp: `a` goes first
  abbrev pub goes_first : Event A → Event A → Bool
  goes_first a b = if a.time == b.time then leb a.seq b.seq else leb a.time b.time

  unfoldable pub insert_event : Event A → List (Event A) → List (Event A)
  insert_event e [] = e ∷ []
  insert_event e (f ∷ fs) =
      let rest = insert_event e fs in if goes_first e f then e ∷ f ∷ fs else f ∷ rest

  -- EventQueue::push, with the id it returns
  unfoldable pub push : (time seq : ℕ) → A → EventQueue A → EventQueue A × ℕ
  push time seq action q =
      let e : Event A = record { time = time; seq = seq; action = action; cancelled = false } in
      (record q { heap = insert_event e q.heap }, seq)

  -- EventQueue::cancel
  unfoldable pub cancel : ℕ → EventQueue A → EventQueue A
  cancel id q = record q { cancelled = put id tt q.cancelled }

  unfoldable pub take_event :
      Event A → List (Event A) → OrdMap ℕ (Unit {0}) → Event A × EventQueue A
  take_event e es ids =
      if has e.seq ids
      then (record e { cancelled = true }, record { heap = es; cancelled = erase e.seq ids })
      else (e, record { heap = es; cancelled = ids })

  unfoldable pub pop_heap : List (Event A) → OrdMap ℕ (Unit {0}) → Option (Event A × EventQueue A)
  unfolding take_event
  pop_heap [] ids = none
  pop_heap (e ∷ es) ids = some (take_event e es ids)

  -- EventQueue::pop_min: `none` where it throws
  unfoldable pub pop_min : EventQueue A → Option (Event A × EventQueue A)
  unfolding pop_heap
  pop_min q = pop_heap q.heap q.cancelled

  abbrev pub peek_heap : List (Event A) → Option ℕ
  peek_heap [] = none
  peek_heap (e ∷ es) = some e.time

  -- EventQueue::peek_time: `none` where it is undefined
  unfoldable pub peek_time : EventQueue A → Option ℕ
  peek_time q = peek_heap q.heap
