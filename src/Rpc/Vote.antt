-- ===== src/Rpc/Vote.antt =====
-- RequestVote and RequestVoteReply as bytes (raft/rpc.cpp).
use sim_kv.Prelude.{◌≡◌, ◌∙◌, ◌++◌, append_assoc, IsU32, IsU64}
use sim_kv.Result.{Result, ok, ◌>>=◌}
use sim_kv.Types.{Bytes}
use sim_kv.Codec.{u8, u32, u64, boolean, get_u8, get_u32, get_u64, get_boolean}
use sim_kv.Codec.RoundTrip.{u8_then, u32_then, u64_then, boolean_then}
use sim_kv.Rpc.{RequestVote, RequestVoteReply}

unfoldable pub encode_request_vote : RequestVote → Bytes
encode_request_vote m =
    u8 1 ++ (u64 m.term ++ (u32 m.candidate_id ++ (u64 m.last_log_index ++ u64 m.last_log_term)))

unfoldable pub decode_request_vote : Bytes → Result RequestVote
decode_request_vote bs = do
  (tag, bs) ← get_u8 bs
  (term, bs) ← get_u64 bs
  (candidate_id, bs) ← get_u32 bs
  (last_log_index, bs) ← get_u64 bs
  (last_log_term, bs) ← get_u64 bs
  ok (record {
    term = term;
    candidate_id = candidate_id;
    last_log_index = last_log_index;
    last_log_term = last_log_term;
  })

unfoldable pub encode_request_vote_reply : RequestVoteReply → Bytes
encode_request_vote_reply m = u8 2 ++ (u64 m.term ++ boolean m.vote_granted)

unfoldable pub decode_request_vote_reply : Bytes → Result RequestVoteReply
decode_request_vote_reply bs = do
  (tag, bs) ← get_u8 bs
  (term, bs) ← get_u64 bs
  (vote_granted, bs) ← get_boolean bs
  ok (record { term = term; vote_granted = vote_granted })

-- The fields fit their encoded width.
pub record FitsRequestVote (m : RequestVote) : Type 0 where
  pub term : IsU64 m.term
  pub candidate_id : IsU32 m.candidate_id
  pub last_log_index : IsU64 m.last_log_index
  pub last_log_term : IsU64 m.last_log_term

-- A RequestVote is read back, whatever follows it, if its fields fit.
pub decode-encode_request_vote :
    (m : RequestVote) (rest : Bytes)
    → FitsRequestVote m
    → decode_request_vote (encode_request_vote m ++ rest) ≡ ok m
unfolding decode_request_vote encode_request_vote
decode-encode_request_vote m rest h = simp append_assoc (
    u8_then _ _ _
    ∙ u64_then m.term _ _ h.term
    ∙ u32_then m.candidate_id _ _ h.candidate_id
    ∙ u64_then m.last_log_index _ _ h.last_log_index
    ∙ u64_then m.last_log_term _ _ h.last_log_term)

-- The fields fit their encoded width.
pub record FitsRequestVoteReply (m : RequestVoteReply) : Type 0 where
  pub term : IsU64 m.term

-- A RequestVoteReply is read back, whatever follows it, if its fields fit.
pub decode-encode_request_vote_reply :
    (m : RequestVoteReply) (rest : Bytes)
    → FitsRequestVoteReply m
    → decode_request_vote_reply (encode_request_vote_reply m ++ rest) ≡ ok m
unfolding decode_request_vote_reply encode_request_vote_reply
decode-encode_request_vote_reply m rest h =
    simp append_assoc (u8_then _ _ _ ∙ u64_then m.term _ _ h.term ∙ boolean_then m.vote_granted _ _)
