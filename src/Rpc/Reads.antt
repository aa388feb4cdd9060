-- ===== src/Rpc/Reads.antt =====
-- ReadIndexRequest and ReadIndexReply as bytes (raft/rpc.cpp).
use sim_kv.Prelude.{◌≡◌, ◌∙◌, ◌++◌, append_assoc, IsU32, IsU64}
use sim_kv.Result.{Result, ok, ◌>>=◌}
use sim_kv.Types.{Bytes}
use sim_kv.Codec.{u8, u32, u64, get_u8, get_u32, get_u64}
use sim_kv.Codec.RoundTrip.{u8_then, u32_then, u64_then}
use sim_kv.Rpc.{ReadIndexRequest, ReadIndexReply}

unfoldable pub encode_read_index_request : ReadIndexRequest → Bytes
encode_read_index_request m = u8 9 ++ (u64 m.term ++ (u32 m.leader_id ++ u64 m.round))

unfoldable pub decode_read_index_request : Bytes → Result ReadIndexRequest
decode_read_index_request bs = do
  (tag, bs) ← get_u8 bs
  (term, bs) ← get_u64 bs
  (leader_id, bs) ← get_u32 bs
  (round, bs) ← get_u64 bs
  ok (record { term = term; leader_id = leader_id; round = round })

unfoldable pub encode_read_index_reply : ReadIndexReply → Bytes
encode_read_index_reply m = u8 10 ++ (u64 m.term ++ u64 m.round)

unfoldable pub decode_read_index_reply : Bytes → Result ReadIndexReply
decode_read_index_reply bs = do
  (tag, bs) ← get_u8 bs
  (term, bs) ← get_u64 bs
  (round, bs) ← get_u64 bs
  ok (record { term = term; round = round })

-- The fields fit their encoded width.
pub record FitsReadIndexRequest (m : ReadIndexRequest) : Type 0 where
  pub term : IsU64 m.term
  pub leader_id : IsU32 m.leader_id
  pub round : IsU64 m.round

-- A ReadIndexRequest is read back, whatever follows it, if its fields fit.
pub decode-encode_read_index_request :
    (m : ReadIndexRequest) (rest : Bytes)
    → FitsReadIndexRequest m
    → decode_read_index_request (encode_read_index_request m ++ rest) ≡ ok m
unfolding decode_read_index_request encode_read_index_request
decode-encode_read_index_request m rest h = simp append_assoc (
    u8_then _ _ _
    ∙ u64_then m.term _ _ h.term
    ∙ u32_then m.leader_id _ _ h.leader_id
    ∙ u64_then m.round _ _ h.round)

-- The fields fit their encoded width.
pub record FitsReadIndexReply (m : ReadIndexReply) : Type 0 where
  pub term : IsU64 m.term
  pub round : IsU64 m.round

-- A ReadIndexReply is read back, whatever follows it, if its fields fit.
pub decode-encode_read_index_reply :
    (m : ReadIndexReply) (rest : Bytes)
    → FitsReadIndexReply m
    → decode_read_index_reply (encode_read_index_reply m ++ rest) ≡ ok m
unfolding decode_read_index_reply encode_read_index_reply
decode-encode_read_index_reply m rest h =
    simp append_assoc (u8_then _ _ _ ∙ u64_then m.term _ _ h.term ∙ u64_then m.round _ _ h.round)
