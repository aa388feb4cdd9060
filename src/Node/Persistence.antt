-- ===== src/Node/Persistence.antt =====
-- What a node writes to its stores, and reads back (raft/node.cpp).
use sim_kv.Prelude.{◌++◌, Bool, true, false, Option, none, some, length, ◌==◌, if◌then◌else◌}
use sim_kv.Result.{Result, ok, ◌>>=◌}
use sim_kv.Types.{Term, Index, NodeId, Bytes}
use sim_kv.Codec.{u32, u64, boolean, get_u32, get_u64, get_boolean, slice}
use sim_kv.DurableStore
use sim_kv.DurableStore.{DurableStore}
use sim_kv.Log.{save_to, set_snapshot}
use sim_kv.KvStore.Snapshot.{decode_snapshot}
use sim_kv.Node.{Node, Outcome, done, with_value}

-- the bytes of the term and the vote
unfoldable pub encode_meta : Term → Option NodeId → Bytes
encode_meta term none = u64 term ++ boolean false
encode_meta term (some candidate) = u64 term ++ (boolean true ++ u32 candidate)

abbrev pub rewrite : Bytes → DurableStore → DurableStore
rewrite bytes d = DurableStore.flush (DurableStore.append bytes (DurableStore.truncate_to 0 d))

-- RaftNode::persist
unfoldable pub persist : Node → Node
persist s = record s {
  meta_store = rewrite (encode_meta s.current_term s.voted_for) s.meta_store;
  log_store = save_to s.log (DurableStore.truncate_to 0 s.log_store);
}

unfoldable pub encode_snap : Index → Term → Bytes → Bytes
encode_snap index term snapshot = u64 index ++ (u64 term ++ (u32 (length snapshot) ++ snapshot))

-- RaftNode::save_snapshot
unfoldable pub save_snapshot : Node → Node
save_snapshot s = record s {
  snapshot_store =
      rewrite (encode_snap s.snap_last_index s.snap_last_term s.snap_data) s.snapshot_store;
}

-- What RaftNode::start reads of the meta store: the term, and the vote if there is one.
unfoldable pub decode_vote : Term → Option NodeId → Bool × Bytes → Result (Term × Option NodeId)
decode_vote term voted_for (true, bs) = do (candidate, bs) ← get_u32 bs; ok (term, some candidate)
decode_vote term voted_for (false, bs) = ok (term, voted_for)

unfoldable pub decode_meta : Option NodeId → Bytes → Result (Term × Option NodeId)
unfolding decode_vote
decode_meta voted_for bs = do
  (term, bs) ← get_u64 bs
  vote ← get_boolean bs
  decode_vote term voted_for vote

unfoldable pub decode_snap : Bytes → Result (Index × Term × Bytes)
decode_snap bs = do
  (index, bs) ← get_u64 bs
  (term, bs) ← get_u64 bs
  (data_len, bs) ← get_u32 bs
  (snapshot, bs) ← slice data_len bs
  ok (index, term, snapshot)

-- RaftNode::load_snapshot. Where a read throws, the fields read before it are not kept apart: `start`
-- lets the exception out.
unfoldable pub load_snapshot : Node → Outcome
load_snapshot s =
    if DurableStore.durable_size s.snapshot_store == 0
    then done s
    else with_value (decode_snap (DurableStore.read_durable s.snapshot_store)) s
        λ (index, term, snapshot). with_value (decode_snapshot snapshot) s λ kv. done (record s {
          snap_last_index = index;
          snap_last_term = term;
          snap_data = snapshot;
          kv = kv;
          commit_index = index;
          last_applied = index;
          log = set_snapshot index term s.log;
        })
