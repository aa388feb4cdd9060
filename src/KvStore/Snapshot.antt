-- ===== src/KvStore/Snapshot.antt =====
-- The store as snapshot bytes: the serialization in RaftNode::take_snapshot and the loop that reads
-- it back in RaftNode::crash, RaftNode::load_snapshot and RaftNode::handle_install_snapshot.
use Prim.Native.Nat.Ordering.{lt}
use sim_kv.Prelude.{
  ℕ, zero, suc, ◌≡◌, sym, ap, ◌∙◌, [], ◌∷◌, ◌++◌, append_assoc, append-nil, length, All, IsU32,
}
use sim_kv.Result.{Result, ok, ◌>>=◌}
use sim_kv.OrdMap
use sim_kv.OrdMap.{OrdMap, bytes_ord, lex}
use sim_kv.OrdMap.Laws.{Above, IsSorted, Below, put-Below}
use sim_kv.Types.{Bytes}
use sim_kv.Codec.{u32, str, get_u32, get_str}
use sim_kv.Codec.RoundTrip.{u32_then, str_then}
use sim_kv.KvStore.{KvStore}

encode_entries : OrdMap Bytes Bytes → Bytes
encode_entries [] = []
encode_entries ((k, v) ∷ m) = str k ++ (str v ++ encode_entries m)

unfoldable pub encode_snapshot : KvStore → Bytes
unfolding encode_entries
encode_snapshot s = u32 (length s.entries) ++ encode_entries s.entries

load_loop : ℕ → Bytes → OrdMap Bytes Bytes → Result (OrdMap Bytes Bytes)
load_loop zero bs kv_map = ok kv_map
load_loop (suc count) bs kv_map = do
  (k, bs) ← get_str bs
  (v, bs) ← get_str bs
  load_loop count bs (OrdMap.put k v kv_map)

unfoldable pub decode_snapshot : Bytes → Result KvStore
unfolding load_loop
decode_snapshot bs = do
  (count, bs) ← get_u32 bs
  kv_map ← load_loop count bs []
  ok (record { entries = kv_map })

-- Sizes that the format's uint32_t fields hold.
abbrev FitsEntry : Bytes × Bytes → Type 0
FitsEntry (k, v) = IsU32 (length k) × IsU32 (length v)

pub record FitsSnapshot (s : KvStore) : Type 0 where
  pub count : IsU32 (length s.entries)
  pub sizes : All FitsEntry s.entries
  pub sorted : IsSorted s.entries

Above-middle : (j k v : Bytes) (m n : OrdMap Bytes Bytes) → Above j (m ++ (k, v) ∷ n) → lex j k ≡ lt
Above-middle j k v [] n a = a.0
Above-middle j k v (e ∷ m) n a = Above-middle j k v m n a.1

Below-prefix : (k v : Bytes) (m n : OrdMap Bytes Bytes) → IsSorted (m ++ (k, v) ∷ n) → Below k m
Below-prefix k v [] n s = tt
Below-prefix k v ((j, w) ∷ m) n s = (Above-middle j k v m n s.0, Below-prefix k v m n s.1)

load_loop-encode_entries :
    (m loaded : OrdMap Bytes Bytes) (rest : Bytes)
    → All FitsEntry m
    → IsSorted (loaded ++ m)
    → load_loop (length m) (encode_entries m ++ rest) loaded ≡ ok (loaded ++ m)
unfolding load_loop encode_entries
load_loop-encode_entries [] loaded rest fits s = ap ok (sym (append-nil loaded))
load_loop-encode_entries ((k, v) ∷ m) loaded rest fits s =
    let assoc = append_assoc loaded ((k, v) ∷ []) m in
    simp append_assoc (
      str_then k _ _ fits.0.0
      ∙ str_then v _ _ fits.0.1
      ∙ rw (put-Below k v loaded (Below-prefix k v loaded m s)) (
          load_loop-encode_entries m (loaded ++ (k, v) ∷ []) rest fits.1 (rw assoc s)
          ∙ ap ok assoc))

-- Reading a snapshot gives the store that it was taken of, whatever bytes follow.
pub decode_snapshot-encode_snapshot :
    (s : KvStore) (rest : Bytes)
    → FitsSnapshot s
    → decode_snapshot (encode_snapshot s ++ rest) ≡ ok s
unfolding decode_snapshot encode_snapshot
decode_snapshot-encode_snapshot s rest fits = simp append_assoc (
    u32_then (length s.entries) _ _ fits.count
    ∙ rw (load_loop-encode_entries s.entries [] rest fits.sizes fits.sorted))
