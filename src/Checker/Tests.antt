-- ===== src/Checker/Tests.antt =====
-- Histories of two clients on one key, and the check of them.
use sim_kv.Prelude.{ℕ, ◌≡◌, ◌≤◌, refl, [], ◌∷◌, true, false, codes, length, arith}
use sim_kv.OrdMap.{find, put}
use sim_kv.Types.{Bytes}
use sim_kv.KvStore.{bytes_eq}
use sim_kv.History.{OpKind, op_put, op_get, HistoryEntry, History}
use sim_kv.Checker.{
  eligible, may_come_next, try_slots, wg_check, try_subset, classify, certain_ops, uncertain_puts,
  masked, try_masks, check_key_linearizable, check_keys, add_entry, by_key, check_linearizable,
  apply_model, apply_kind, response_matches, kind_matches,
}
use sim_kv.Checker.Linearizable.{doubtful_puts}
use sim_kv.Checker.Subsets.{IsExplained}
use sim_kv.Checker.Keys.{ops_of, check_linearizable_sound, check_linearizable-failing}

abbrev one_op : OpKind → Bytes → (invoke ret : ℕ) → Bytes → HistoryEntry
one_op kind value invoke ret response = record {
  client_id = 1;
  request_id = 1;
  kind = kind;
  key = codes "x";
  value = value;
  expected = [];
  invoke = invoke;
  ret = ret;
  response = response;
  ok = true;
  pending = false;
}

-- A write, a write that a crash left in doubt, and a read of that write that overlaps the first.
abbrev good_run : History
good_run =
    one_op op_put (codes "a") 10 40 (codes "ok")
    ∷ one_op op_put (codes "b") 20 30 (codes "node_crashed")
    ∷ one_op op_get [] 35 50 (codes "b")
    ∷ []

-- A read after the write that does not see it.
abbrev stale_run : History
stale_run = one_op op_put (codes "a") 10 20 (codes "ok") ∷ one_op op_get [] 30 40 [] ∷ []

good_run_passes : (check_linearizable good_run).ok ≡ true
unfolding check_linearizable check_keys by_key add_entry put find check_key_linearizable certain_ops
    uncertain_puts classify bytes_eq try_masks masked try_subset wg_check try_slots may_come_next
    eligible response_matches kind_matches apply_model apply_kind
good_run_passes = refl

stale_run_fails : (check_linearizable stale_run).ok ≡ false
unfolding check_linearizable check_keys by_key add_entry put find check_key_linearizable certain_ops
    uncertain_puts classify bytes_eq try_masks masked try_subset wg_check try_slots may_come_next
    eligible response_matches kind_matches apply_model apply_kind
stale_run_fails = refl

stale_run_few :
    length (doubtful_puts (ops_of (check_linearizable stale_run).failing_key stale_run)) ≤ 15
unfolding check_linearizable check_keys by_key add_entry put find check_key_linearizable certain_ops
    uncertain_puts classify bytes_eq try_masks masked try_subset wg_check try_slots may_come_next
    eligible response_matches kind_matches apply_model apply_kind ops_of doubtful_puts
stale_run_few = omega arith

check_linearizable_sound_example : IsExplained (ops_of (codes "x") good_run)
check_linearizable_sound_example = check_linearizable_sound good_run (codes "x") good_run_passes

check_linearizable-failing_example :
    ¬ (IsExplained (ops_of (check_linearizable stale_run).failing_key stale_run))
check_linearizable-failing_example =
    check_linearizable-failing stale_run stale_run_fails stale_run_few
