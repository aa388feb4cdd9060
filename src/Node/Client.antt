-- ===== src/Node/Client.antt =====
-- What clients call: commands, and reads by read-index (raft/node.cpp).
use sim_kv.Prelude.{
  ℕ, List, [], ◌∷◌, ◌++◌, Bool, true, false, ◌&&◌, ◌||◌, Option, none, some, ltb, ◌==◌, not,
  if◌then◌else◌, add64, codes, ◌%◌, ◌^◌,
}
use sim_kv.OrdMap.{put, nat_ord}
use sim_kv.Types.{NodeId, Bytes, Command, LogEntry}
use sim_kv.KvStore
use sim_kv.Log.{last_index, append}
use sim_kv.Rpc.{ClientRequest, ReadIndexRequest, ReadIndexReply}
use sim_kv.Rpc.Client.{encode_client_reply}
use sim_kv.Rpc.Reads.{encode_read_index_request, encode_read_index_reply}
use sim_kv.Node.{
  Node, Clock, ClientCallback, reply_to, PendingRead, Outcome, done, ◌>>=◌, with_value, emit, send,
  schedule, read_result, read_expiry, is_config,
}
use sim_kv.Node.Persistence.{persist}
use sim_kv.Node.Reads.{drain_pending_reads, ack}
use sim_kv.Node.Roles.{is_leader, become_follower, follow}
use sim_kv.Node.Replication.{replicate_all}
use sim_kv.Node.Commit.{maybe_advance_commit_index}
use sim_kv.Node.Election.{broadcast}

abbrev pub is_empty : List NodeId → Bool
is_empty [] = true
is_empty (x ∷ xs) = false

abbrev pub value_or : NodeId → Option NodeId → NodeId
value_or d none = d
value_or d (some x) = x

-- what `submit` refuses
unfoldable pub accepts : Command → Node → Bool
accepts cmd s = (s.running && is_leader s.role) && not (is_config cmd && s.config_change_pending)

module _ ⦃clk : Clock⦄ where
  -- RaftNode::submit where it does not refuse
  unfoldable pub enter : ℕ → Command → ClientCallback → Node → Outcome
  enter client_id cmd cb s =
      let new_index = add64 (last_index s.log) 1 in
      let entry : LogEntry = record { term = s.current_term; index = new_index; cmd = cmd } in
      let pending = record s { config_change_pending = is_config cmd || s.config_change_pending } in
      with_value (append entry s.log) pending λ log'.
        let entered = record (persist (record pending { log = log' })) {
          match_index = put s.id new_index s.match_index;
          next_index = put s.id (add64 new_index 1) s.next_index;
          pending_clients = put new_index (cb, client_id % 2 ^ 32) s.pending_clients;
        } in
        replicate_all entered >>= maybe_advance_commit_index

  -- RaftNode::submit, with the value it returns
  unfoldable pub submit : ℕ → Command → ClientCallback → Node → Outcome × Bool
  submit client_id cmd cb s =
      if accepts cmd s then (enter client_id cmd cb s, true) else (done s, false)

  -- RaftNode::handle_client_request
  unfoldable pub handle_client_request : NodeId → ClientRequest → Node → Outcome
  handle_client_request from cr s =
      if not (is_leader s.role)
      then done (
          emit
            (send from (
              encode_client_reply (record {
                client_id = cr.client_id;
                request_id = cr.request_id;
                success = false;
                result = record { ok = false; value = []; error = codes "not_leader" };
                leader_hint = value_or 0 s.leader_id;
              })))
            s)
      else (submit cr.client_id cr.cmd (reply_to from cr.client_id cr.request_id) s).0

  -- RaftNode::read_index where the node leads a cluster of more than itself
  unfoldable pub ask_quorum : Bytes → ℕ → Node → Node
  ask_quorum key cb s =
      let read : PendingRead = record {
        round = s.next_read_round;
        read_index = s.commit_index;
        key = key;
        cb = cb;
        acks = 1;
        timeout_id = clk.event_id s.effects;
      } in
      let req : ReadIndexRequest = record {
        term = s.current_term;
        leader_id = s.id;
        round = s.next_read_round;
      } in
      broadcast s.peers (encode_read_index_request req)
        (record (emit (schedule s.cfg.read_timeout (read_expiry s.next_read_round)) s) {
          next_read_round = add64 s.next_read_round 1;
          pending_reads = s.pending_reads ++ read ∷ [];
        })

  -- RaftNode::read_index, with the value it returns
  unfoldable pub read_index : Bytes → ℕ → Node → Node × Bool
  read_index key cb s =
      if not s.running || not (is_leader s.role)
      then (s, false)
      else if is_empty s.peers
      then (emit (read_result cb true (KvStore.get key s.kv)) s, true)
      else (ask_quorum key cb s, true)

  -- RaftNode::handle_read_index_request
  unfoldable pub handle_read_index_request : NodeId → ReadIndexRequest → Node → Node
  handle_read_index_request from req s =
      let current = follow req.term from s in
      if ltb req.term s.current_term
      then s
      else emit
          (send from
            (encode_read_index_reply (record { term = current.current_term; round = req.round })))
          current

  -- RaftNode::handle_read_index_reply
  unfoldable pub handle_read_index_reply : NodeId → ReadIndexReply → Node → Node
  handle_read_index_reply from rep s =
      if ltb s.current_term rep.term
      then become_follower rep.term none s
      else if not (is_leader s.role) || not (rep.term == s.current_term)
      then s
      else drain_pending_reads (record s { pending_reads = ack rep.round s.pending_reads })
