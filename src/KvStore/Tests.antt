-- ===== src/KvStore/Tests.antt =====
-- A store with two keys.
use sim_kv.Prelude.{◌≡◌, refl, [], ◌∷◌, ◌++◌, arith}
use sim_kv.Result.{ok}
use sim_kv.Types.{Command, cmd_cas}
use sim_kv.OrdMap.{bytes_ord}
use sim_kv.OrdMap.Laws.{IsSorted}
use sim_kv.KvStore.{KvStore, get, apply}
use sim_kv.KvStore.Refinement.{specified, apply_refines}
use sim_kv.KvStore.Snapshot.{encode_snapshot, decode_snapshot, decode_snapshot-encode_snapshot}

abbrev two_keys : KvStore
two_keys = record { entries = (1 ∷ [], 5 ∷ []) ∷ (2 ∷ [], 6 ∷ []) ∷ [] }

two_keys-IsSorted : IsSorted two_keys.entries
two_keys-IsSorted = ((refl, tt), (tt, tt))

abbrev swap : Command
swap = cmd_cas (1 ∷ []) (5 ∷ []) (7 ∷ [])

apply_refines_example :
    ((apply swap two_keys).0 ≡ (specified swap (λ i. get i two_keys)).0)
    × (get (2 ∷ []) (apply swap two_keys).1 ≡ (specified swap (λ i. get i two_keys)).1 (2 ∷ []))
apply_refines_example = apply_refines swap two_keys (2 ∷ []) two_keys-IsSorted

decode_snapshot-encode_snapshot_example :
    decode_snapshot (encode_snapshot two_keys ++ 0 ∷ []) ≡ ok two_keys
decode_snapshot-encode_snapshot_example =
    decode_snapshot-encode_snapshot two_keys (0 ∷ []) (record {
      count = omega arith;
      sizes = ((omega arith, omega arith), ((omega arith, omega arith), tt));
      sorted = two_keys-IsSorted;
    })
