-- ===== src/DurableStore/Tests.antt =====
-- A store with two durable bytes and one that is not.
use sim_kv.Prelude.{◌≡◌, [], ◌∷◌, arith}
use sim_kv.DurableStore.{DurableStore, append, flush, read_durable, truncate_to}
use sim_kv.DurableStore.Laws.{IsValid, read_durable_rewrite}

abbrev store : DurableStore
store = record { content = 1 ∷ 2 ∷ 3 ∷ []; flushed_end = 2 }

store-IsValid : IsValid store
store-IsValid = record { within = omega arith }

read_durable_rewrite_example :
    read_durable (flush (append (8 ∷ 9 ∷ []) (truncate_to 0 store))) ≡ 8 ∷ 9 ∷ []
read_durable_rewrite_example = read_durable_rewrite (8 ∷ 9 ∷ []) store
