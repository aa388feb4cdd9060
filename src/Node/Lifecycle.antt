-- ===== src/Node/Lifecycle.antt =====
-- Construction, start, crash and restart of a node (raft/node.cpp).
use sim_kv.Prelude.{List, [], ◌∷◌, true, false, none, ◌==◌, if◌then◌else◌, codes}
use sim_kv.OrdMap.{OrdMap}
use sim_kv.Types.{Index, NodeId, Bytes, follower}
use sim_kv.DurableStore
use sim_kv.KvStore
use sim_kv.KvStore.Snapshot.{decode_snapshot}
use sim_kv.Log
use sim_kv.Log.{load_from}
use sim_kv.Node.{
  Node, RaftConfig, Clock, ClientCallback, PendingRead, Outcome, done, ◌>>=◌, with_value, emit,
  cancel, set_handler, remove_handler,
}
use sim_kv.Node.Timers.{schedule_election_timeout}
use sim_kv.Node.Persistence.{load_snapshot, decode_meta}
use sim_kv.Node.Commit.{sort_ids, run_callback, apply_committed_entries}

-- the constructor of RaftNode, over its own in-memory stores
unfoldable pub new_node : NodeId → List NodeId → RaftConfig → Node
new_node id peers cfg = record {
  id = id;
  peers = sort_ids peers;
  cfg = cfg;
  running = false;
  current_term = 0;
  voted_for = none;
  log = Log.empty;
  meta_store = DurableStore.empty;
  log_store = DurableStore.empty;
  snapshot_store = DurableStore.empty;
  snap_last_index = 0;
  snap_last_term = 0;
  snap_data = [];
  role = follower;
  commit_index = 0;
  last_applied = 0;
  leader_id = none;
  kv = KvStore.empty;
  votes_received = [];
  next_index = [];
  match_index = [];
  pending_clients = [];
  pending_reads = [];
  next_read_round = 1;
  election_timeout_id = 0;
  election_scheduled = false;
  election_generation = 0;
  heartbeat_id = 0;
  heartbeat_scheduled = false;
  election_term = 0;
  vote_count = 0;
  config_change_pending = false;
  effects = [];
}

-- step 2 of RaftNode::start
unfoldable pub load_meta : Node → Outcome
load_meta s =
    if DurableStore.durable_size s.meta_store == 0
    then done s
    else with_value (decode_meta s.voted_for (DurableStore.read_durable s.meta_store)) s
        λ (term, vote). done (record s { current_term = term; voted_for = vote })

-- step 3 of RaftNode::start
unfoldable pub load_log : Node → Outcome
load_log s =
    if DurableStore.durable_size s.log_store == 0
    then done s
    else with_value (load_from (DurableStore.read_durable s.log_store) s.log) s
        λ log'. done (record s { log = log' })

-- the callbacks that RaftNode::crash calls
unfoldable pub fail_clients : OrdMap Index (ClientCallback × NodeId) → Node → Node
fail_clients [] s = s
fail_clients ((index, (cb, client)) ∷ rest) s =
    fail_clients rest
      (run_callback cb (record { ok = false; value = []; error = codes "node_crashed" }) s)

unfoldable pub cancel_reads : List PendingRead → Node → Node
cancel_reads [] s = s
cancel_reads (pr ∷ prs) s = cancel_reads prs (emit (cancel pr.timeout_id) s)

-- the part of RaftNode::crash before the state machine is reset
unfoldable pub crash_state : Node → Node
crash_state s = record (emit remove_handler s) {
  running = false;
  election_scheduled = false;
  heartbeat_scheduled = false;
  meta_store = DurableStore.crash s.meta_store;
  log_store = DurableStore.crash s.log_store;
  snapshot_store = DurableStore.crash s.snapshot_store;
  role = follower;
  commit_index = s.snap_last_index;
  last_applied = s.snap_last_index;
  leader_id = none;
  votes_received = [];
  next_index = [];
  match_index = [];
  vote_count = 0;
  election_term = 0;
  config_change_pending = false;
  kv = KvStore.empty;
}

-- its reset of the state machine to the snapshot
unfoldable pub reset_kv : Bytes → Node → Outcome
reset_kv [] s = done s
reset_kv (b ∷ bs) s = with_value (decode_snapshot (b ∷ bs)) s λ kv'. done (record s { kv = kv' })

-- RaftNode::crash
unfoldable pub crash : Node → Outcome
crash s = reset_kv s.snap_data (crash_state s) >>= (λ s'.
    let failed = record (fail_clients s'.pending_clients s') { pending_clients = [] } in
    done (record (cancel_reads failed.pending_reads failed) { pending_reads = [] }))

module _ ⦃clk : Clock⦄ where
  -- RaftNode::start
  unfoldable pub start : Node → Outcome
  start s =
      load_snapshot (record (emit set_handler s) { running = true })
      >>= load_meta
      >>= load_log
      >>= apply_committed_entries
      >>= (λ s'. done (schedule_election_timeout s'))

  -- RaftNode::restart
  unfoldable pub restart : Node → Outcome
  restart s =
      start (record s { current_term = 0; voted_for = none; log = Log.empty; kv = KvStore.empty })
