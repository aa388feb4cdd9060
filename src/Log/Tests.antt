-- ===== src/Log/Tests.antt =====
-- A log with entries 4, 5 and 6 behind a snapshot of index 3.
use sim_kv.Prelude.{ℕ, ◌<◌, ◌^◌, ◌≡◌, ◌↔◌, ◌⊎◌, refl, [], ◌∷◌, true, arith, length, get_elem?, max}
use sim_kv.Result.{ok}
use sim_kv.Types.{LogEntry, cmd_get}
use sim_kv.Codec.{u8, str}
use sim_kv.Wal.{encode_command}
use sim_kv.DurableStore
use sim_kv.Log.{
  RaftLog, last_index, append, truncate_from, set_snapshot, found_entry, at, term_at, contains,
  entries_between, save_to, load_from,
}
use sim_kv.Log.Shape.{IsValid}
use sim_kv.Log.Access.{contains_iff, entries_between_lem}
use sim_kv.Log.Edits.{truncate_from_lem, set_snapshot_lem}
use sim_kv.Log.Storage.{FitsEntry, FitsLog, load_from-save_to}

abbrev entry : (t i : ℕ) → LogEntry
entry t i = record { term = t; index = i; cmd = cmd_get (7 ∷ []) }

abbrev log : RaftLog
log = record { entries = entry 1 4 ∷ entry 2 5 ∷ entry 2 6 ∷ []; base_index = 3; base_term = 1 }

log_IsValid : IsValid log
log_IsValid = record { consecutive = (refl, (refl, (refl, tt))); bounded = omega arith }

abbrev longer : RaftLog
longer = record log { entries = entry 1 4 ∷ entry 2 5 ∷ entry 2 6 ∷ entry 3 7 ∷ [] }

appended : append (entry 3 7) log ≡ ok longer
unfolding append
appended = refl

contains_iff_example : (contains 5 2 log ≡ true) ↔ ((◌≡◌ {A = ℕ} 5 0) ⊎ (term_at 5 log ≡ ok 2))
contains_iff_example = contains_iff 5 2 log log_IsValid

entries_between_lem_example :
    (length (entries_between 4 6 log) ≡ 2)
    × (found_entry (get_elem? (entries_between 4 6 log) 1) ≡ at 6 log)
entries_between_lem_example =
    entries_between_lem 4 6 1 log log_IsValid (omega arith) (omega arith) (omega arith)
      (omega arith)

truncate_from_lem_example :
    (last_index (truncate_from 5 log) ≡ 4) × (at 4 (truncate_from 5 log) ≡ at 4 log)
truncate_from_lem_example =
    truncate_from_lem 5 4 log log_IsValid (omega arith) (omega arith) (omega arith)

set_snapshot_lem_example :
    (last_index (set_snapshot 5 2 log) ≡ max 5 (last_index log))
    × (term_at 5 (set_snapshot 5 2 log) ≡ ok 2)
    × (at 6 (set_snapshot 5 2 log) ≡ at 6 log)
set_snapshot_lem_example =
    set_snapshot_lem 5 6 2 log log_IsValid (omega arith) (omega arith) (omega arith)

log_fits : FitsLog log
unfolding encode_command u8 str
log_fits =
    let one : (t i : ℕ) → t < 2 ^ 64 → i < 2 ^ 64 → FitsEntry (entry t i) =
      λ t i ht hi. record { term = ht; index = hi; cmd = (omega arith, omega arith) } in
    record {
      base_index = omega arith;
      base_term = omega arith;
      count = omega arith;
      entries = (
        one 1 4 (omega arith) (omega arith),
        (one 2 5 (omega arith) (omega arith), (one 2 6 (omega arith) (omega arith), tt)),
      );
    }

load_from-save_to_example :
    load_from
      (DurableStore.read_durable (save_to log (DurableStore.truncate_to 0 DurableStore.empty)))
      longer
    ≡ ok log
load_from-save_to_example = load_from-save_to log longer DurableStore.empty log_fits
