-- ===== src/Node/Dispatch.antt =====
-- What reaches a node from outside: messages and the firing of its timers (raft/node.cpp).
use sim_kv.Prelude.{false, Option, none, some, ◌==◌, not, if◌then◌else◌}
use sim_kv.Result.{Result, ok, err, assertion}
use sim_kv.Types.{NodeId, Bytes}
use sim_kv.Rpc.Dispatch.{
  Message, request_vote, request_vote_reply, append_entries, append_entries_reply, client_request,
  install_snapshot, install_snapshot_reply, read_index_request, read_index_reply, decode_message,
}
use sim_kv.Node.{Node, Clock, Timer, election, heartbeat, read_expiry, Outcome, done, threw, ◌>>=◌}
use sim_kv.Node.Timers.{schedule_heartbeat}
use sim_kv.Node.Reads.{expire_read}
use sim_kv.Node.Roles.{is_leader}
use sim_kv.Node.Replication.{replicate_all}
use sim_kv.Node.Election.{on_election_timeout, handle_request_vote, handle_request_vote_reply}
use sim_kv.Node.Append.{handle_append_entries, handle_append_entries_reply}
use sim_kv.Node.Install.{handle_install_snapshot, handle_install_snapshot_reply}
use sim_kv.Node.Client.{handle_client_request, handle_read_index_request, handle_read_index_reply}

-- The catch of RaftNode::on_message: an exception leaves the state as it is, a failed assert ends the
-- process.
abbrev pub caught : Outcome → Outcome
caught (done s) = done s
caught (threw assertion s) = threw assertion s
caught (threw e s) = done s

module _ ⦃clk : Clock⦄ where
  unfoldable pub handle : NodeId → Message → Node → Outcome
  handle from (request_vote m) s = done (handle_request_vote from m s)
  handle from (request_vote_reply m) s = handle_request_vote_reply from m s
  handle from (append_entries m) s = handle_append_entries from m s
  handle from (append_entries_reply m) s = handle_append_entries_reply from m s
  handle from (client_request m) s = handle_client_request from m s
  handle from (install_snapshot m) s = handle_install_snapshot from m s
  handle from (install_snapshot_reply m) s = handle_install_snapshot_reply from m s
  handle from (read_index_request m) s = done (handle_read_index_request from m s)
  handle from (read_index_reply m) s = done (handle_read_index_reply from m s)

  abbrev pub handle_decoded : NodeId → Option (Result Message) → Node → Outcome
  handle_decoded from none s = done s
  handle_decoded from (some (err e)) s = done s
  handle_decoded from (some (ok m)) s = handle from m s

  -- RaftNode::on_message
  unfoldable pub on_message : NodeId → Bytes → Node → Outcome
  unfolding handle
  on_message from payload s =
      if s.running then caught (handle_decoded from (decode_message payload) s) else done s

  -- RaftNode::on_heartbeat
  unfoldable pub on_heartbeat : Node → Outcome
  on_heartbeat s =
      if is_leader s.role then replicate_all s >>= (λ s'. done (schedule_heartbeat s')) else done s

  -- the lambdas that the node hands to its clock
  unfoldable pub on_timer : Timer → Node → Outcome
  unfolding on_heartbeat
  on_timer (election generation) s =
      let fired = record s { election_scheduled = false } in
      if not (generation == s.election_generation)
      then done s
      else if s.running
      then on_election_timeout fired
      else done fired
  on_timer heartbeat s =
      let fired = record s { heartbeat_scheduled = false } in
      if s.running then on_heartbeat fired else done fired
  on_timer (read_expiry round) s = done (expire_read round s)
