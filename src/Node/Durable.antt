-- ===== src/Node/Durable.antt =====
-- What a node has on its disk (raft/node.cpp, persist): the term, the vote and the log that it acts on.
use sim_kv.Prelude.{◌≡◌, refl, ◌∙◌, [], Option, none, some, true, false, IsU32, IsU64, append-nil}
use sim_kv.Result.{ok}
use sim_kv.Types.{Term, NodeId}
use sim_kv.Codec.{u32, boolean, get_boolean}
use sim_kv.Codec.RoundTrip.{u64_then, u32_then, boolean_then}
use sim_kv.DurableStore.{read_durable}
use sim_kv.DurableStore.Laws
use sim_kv.DurableStore.Laws.{read_durable_rewrite, flush-IsValid}
use sim_kv.Log.{encode_log, save_to}
use sim_kv.Node.{Node}
use sim_kv.Node.Persistence.{encode_meta, decode_meta, decode_vote, persist}
use sim_kv.Node.Frame.{SameHard}
use sim_kv.Node.Kept.{IsClosed}

-- The disk holds the term, the vote and the log of the state.
pub record IsWritten (s : Node) : Type 0 where
  pub meta : read_durable s.meta_store ≡ encode_meta s.current_term s.voted_for
  pub log : read_durable s.log_store ≡ encode_log s.log
  pub meta_store : Laws.IsValid s.meta_store
  pub log_store : Laws.IsValid s.log_store

pub persist-IsWritten : (s : Node) → IsWritten (persist s)
unfolding persist save_to
persist-IsWritten s = record {
  meta = read_durable_rewrite (encode_meta s.current_term s.voted_for) s.meta_store;
  log = read_durable_rewrite (encode_log s.log) s.log_store;
  meta_store = flush-IsValid _;
  log_store = flush-IsValid _;
}

framed-IsWritten : (s t : Node) → SameHard s t → IsWritten s → IsWritten t
framed-IsWritten s t same w = record {
  meta = rw (same.meta_store, same.term, same.vote) w.meta;
  log = rw (same.log_store, same.log) w.log;
  meta_store = rw same.meta_store w.meta_store;
  log_store = rw same.log_store w.log_store;
}

pub IsWritten-IsClosed : IsClosed IsWritten
IsWritten-IsClosed = record {
  frame = framed-IsWritten;
  adopted = λ term s _ _. persist-IsWritten _;
  voted = λ c s _ _. persist-IsWritten _;
  stood = λ c s _ _. persist-IsWritten _;
  relogged = λ l s _. persist-IsWritten _;
}

-- A vote whose id fits 32 bits.
abbrev pub FitsVote : Option NodeId → Type 0
FitsVote none = Unit
FitsVote (some c) = IsU32 c

-- The term and the vote are read back as they were written, over an object without a vote.
pub decode_meta-encode_meta :
    (term : Term) (vote : Option NodeId)
    → IsU64 term
    → FitsVote vote
    → decode_meta none (encode_meta term vote) ≡ ok (term, vote)
unfolding decode_meta encode_meta decode_vote get_boolean boolean
decode_meta-encode_meta term none h k = u64_then term (boolean false) _ h ∙ refl
decode_meta-encode_meta term (some c) h k =
    u64_then term _ _ h
    ∙ (boolean_then true (u32 c) (decode_vote term none)
        ∙ (rw append-nil at (
            u32_then {B = Term × Option NodeId} c [] (λ (candidate, bs). ok (term, some candidate))
              k)))
