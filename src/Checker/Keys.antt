-- ===== src/Checker/Keys.antt =====
-- A history passes exactly where each of its keys passes.
use sim_kv.Prelude.{
  ◌≡◌, ◌≤◌, length, refl, sym, subst, List, [], ◌∷◌, ◌++◌, append_assoc, append-nil, true, false,
  arith, Option, none, Bool-cases, inl, inr, if◌then◌else◌,
}
use sim_kv.OrdMap.{OrdMap, find, put, bytes_ord}
use sim_kv.OrdMap.Laws.{IsSorted, put-IsSorted, find-put_self, find-put_ne, find-head, find-tail}
use sim_kv.Types.{Bytes}
use sim_kv.KvStore.{bytes_eq}
use sim_kv.KvStore.Refinement.{bytes_eq_iff, bytes_ne}
use sim_kv.History.{HistoryEntry, History}
use sim_kv.Checker.{
  KeyOp, key_op, ops_or_empty, add_entry, by_key, check_keys, check_key_linearizable,
  check_linearizable, certain_ops, uncertain_puts,
}
use sim_kv.Checker.Linearizable.{doubtful_puts}
use sim_kv.Checker.Subsets.{
  IsExplained, check_key_linearizable_sound, check_key_linearizable_complete,
}

-- The operations on one key that have returned, in the order of the history.
unfoldable pub ops_of : Bytes → History → List KeyOp
ops_of key [] = []
ops_of key (e ∷ es) =
    let rest = ops_of key es in
    if e.pending then rest else (if bytes_eq e.key key then key_op e ∷ rest else rest)

add_entry-IsSorted :
    (e : HistoryEntry) (m : OrdMap Bytes (List KeyOp)) → IsSorted m → IsSorted (add_entry e m)
unfolding add_entry
add_entry-IsSorted e m h =
    ground (arith, put-IsSorted e.key (ops_or_empty (find e.key m) ++ key_op e ∷ []) m)

by_key-IsSorted :
    (es : History) (m : OrdMap Bytes (List KeyOp)) → IsSorted m → IsSorted (by_key es m)
unfolding by_key
by_key-IsSorted [] m h = h
by_key-IsSorted (e ∷ es) m h = by_key-IsSorted es (add_entry e m) (add_entry-IsSorted e m h)

-- An entry is added to the operations of its own key.
find-push :
    (key : Bytes) (k : Bytes) (op : KeyOp) (m : OrdMap Bytes (List KeyOp))
    → IsSorted m
    → ops_or_empty (find key (put k (ops_or_empty (find k m) ++ op ∷ []) m))
      ≡ ops_or_empty (find key m) ++ (if bytes_eq k key then op ∷ [] else [])
find-push key k op m h = elim (Bool-cases (bytes_eq k key)) [
  | inl same ↦
      rw (same, ← bytes_eq_iff k key same, find-put_self k (ops_or_empty (find k m) ++ op ∷ []) m)
        refl
  | inr other ↦
      rw
        (
          other,
          find-put_ne k key (ops_or_empty (find k m) ++ op ∷ []) m
              (λ e. bytes_ne k key other (sym e)) h,
          append-nil,
        )
        refl
]

find-add_entry :
    (key : Bytes) (e : HistoryEntry) (m : OrdMap Bytes (List KeyOp))
    → IsSorted m
    → ops_or_empty (find key (add_entry e m)) ≡ ops_or_empty (find key m) ++ ops_of key (e ∷ [])
unfolding add_entry ops_of
find-add_entry key e m h =
    ground (arith, find-push key e.key (key_op e) m, append-nil (ops_or_empty (find key m)))

ops_of-cons :
    (key : Bytes) (e : HistoryEntry) (es : History)
    → ops_of key (e ∷ es) ≡ ops_of key (e ∷ []) ++ ops_of key es
unfolding ops_of
ops_of-cons key e es = ground arith

find-by_key :
    (key : Bytes) (es : History) (m : OrdMap Bytes (List KeyOp))
    → IsSorted m
    → ops_or_empty (find key (by_key es m)) ≡ ops_or_empty (find key m) ++ ops_of key es
unfolding by_key
find-by_key key [] m h = unfold ops_of in sym (append-nil (ops_or_empty (find key m)))
find-by_key key (e ∷ es) m h =
    rw
      (
        find-by_key key es (add_entry e m) (add_entry-IsSorted e m h),
        find-add_entry key e m h,
        ops_of-cons key e es,
      )
      (append_assoc (ops_or_empty (find key m)) (ops_of key (e ∷ [])) (ops_of key es))

check_none : check_key_linearizable [] ≡ true
unfolding check_key_linearizable certain_ops uncertain_puts
check_none = refl

check_none_ne :
    {o : Option (List KeyOp)} → o ≡ none → check_key_linearizable (ops_or_empty o) ≡ false → ⊥
check_none_ne e h =
    cc (check_none, subst (λ o. check_key_linearizable (ops_or_empty o) ≡ false) e h)

-- The loop passes exactly if each entry does.
check_keys_sound :
    (key : Bytes) (m : OrdMap Bytes (List KeyOp))
    → (check_keys m).ok ≡ true
    → check_key_linearizable (ops_or_empty (find key m)) ≡ true
unfolding check_keys find
check_keys_sound key [] h = check_none
check_keys_sound key ((k, ops) ∷ m) h = ground (arith, check_keys_sound key m, check_none)

find-history :
    (key : Bytes) (history : History)
    → ops_or_empty (find key (by_key history [])) ≡ ops_of key history
find-history key history = rw (find-by_key key history [] tt) (unfold find in refl)

-- The key that a failing loop names did fail.
check_keys-failing :
    (m : OrdMap Bytes (List KeyOp))
    → IsSorted m
    → (check_keys m).ok ≡ false
    → check_key_linearizable (ops_or_empty (find (check_keys m).failing_key m)) ≡ false
unfolding check_keys
check_keys-failing [] s h = cc
check_keys-failing ((k, ops) ∷ m) (a, s) h = elim (Bool-cases (check_key_linearizable ops)) [
  | inr failed ↦
      rw (failed, check_keys)
        (subst (λ o. check_key_linearizable (ops_or_empty o) ≡ false) (sym (find-head k ops m))
          failed)
  | inl passed ↦
      let ih = check_keys-failing m s (ground arith) in
      rw (passed, check_keys)
        (elim (find-tail (check_keys m).failing_key k ops m a) [
          | inl same ↦ subst (λ o. check_key_linearizable (ops_or_empty o) ≡ false) same ih
          | inr missing ↦ absurd (check_none_ne missing ih)
        ])
]

-- If a history passes the check, the answers of each key are explained: the operations that were
-- answered otherwise than with a timeout, by a node that does not lead or by a crash have, with some
-- of the puts answered by a crash, an order that respects real time and gives each its answer.
pub check_linearizable_sound :
    (history : History) (key : Bytes)
    → (check_linearizable history).ok ≡ true
    → IsExplained (ops_of key history)
unfolding check_linearizable
check_linearizable_sound history key h =
    check_key_linearizable_sound (ops_of key history)
      (rw (← find-history key history) (check_keys_sound key (by_key history []) h))

-- If a history fails the check and the key that the result names has no more than 15 puts that a
-- crash left in doubt, the answers of that key are not explained: no order of its settled operations
-- and of some of those puts respects real time and gives each its answer.
pub check_linearizable-failing :
    (history : History)
    → (check_linearizable history).ok ≡ false
    → length (doubtful_puts (ops_of (check_linearizable history).failing_key history)) ≤ 15
    → ¬ (IsExplained (ops_of (check_linearizable history).failing_key history))
unfolding check_linearizable
check_linearizable-failing history h few lin =
    let key = (check_keys (by_key history [])).failing_key in
    let passed = check_key_linearizable_complete (ops_of key history) few lin in
    let failed = check_keys-failing (by_key history []) (by_key-IsSorted history [] tt) h in
    cc (find-history key history)
