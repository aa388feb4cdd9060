-- ===== src/Node/Replication.antt =====
-- Sending log entries or a snapshot to one peer, or to all (raft/node.cpp).
use sim_kv.Prelude.{List, [], ◌∷◌, ltb, leb, ◌==◌, if◌then◌else◌, min, add64, sub64}
use sim_kv.Result.{Result, ok, err}
use sim_kv.OrdMap.{put, nat_ord}
use sim_kv.Types.{Term, Index, NodeId, LogEntry}
use sim_kv.Log.{RaftLog, last_index, term_at, contains, entries_between}
use sim_kv.Rpc.{InstallSnapshot}
use sim_kv.Rpc.Replication.{encode_append_entries, encode_install_snapshot}
use sim_kv.Node.{Node, Outcome, done, ◌>>=◌, with_value, emit, send, at_key, touch}
use sim_kv.Node.Roles.{is_leader}

-- RaftNode::send_install_snapshot
unfoldable pub send_install_snapshot : NodeId → Node → Node
send_install_snapshot peer s =
    let message : InstallSnapshot = record {
      term = s.current_term;
      leader_id = s.id;
      last_included_index = s.snap_last_index;
      last_included_term = s.snap_last_term;
      snapshot = s.snap_data;
    } in
    if s.snap_last_index == 0 then s else emit (send peer (encode_install_snapshot message)) s

-- the term sent with the index before the entries
unfoldable pub prev_term : Index → RaftLog → Result Term
prev_term prev_index l =
    if ltb 0 prev_index
    then elim (term_at prev_index l) [
      | ok term ↦ ok (if contains prev_index term l then term else 0)
      | err e ↦ err e
    ]
    else ok 0

-- the index behind the last entry sent
abbrev pub next_after : List LogEntry → Index → Index
next_after [] next = next
next_after (e ∷ es) next = next_after es (add64 e.index 1)

-- the part of RaftNode::replicate_to that sends entries
unfoldable pub send_entries : NodeId → Node → Outcome
send_entries peer s =
    let next = at_key peer s.next_index in
    let prev_index = sub64 next 1 in
    let entries =
      entries_between prev_index
        (min (add64 prev_index s.cfg.max_entries_per_ae) (last_index s.log)) s.log in
    with_value (prev_term prev_index s.log) s λ term. done (
      emit
        (send peer (
          encode_append_entries (record {
            term = s.current_term;
            leader_id = s.id;
            prev_log_index = prev_index;
            prev_log_term = term;
            entries = entries;
            leader_commit = s.commit_index;
          })))
        (record s { next_index = put peer (next_after entries next) s.next_index }))

-- RaftNode::replicate_to; its first read of next_index_ makes an entry if there is none
unfoldable pub replicate_to : NodeId → Node → Outcome
replicate_to peer s =
    let s' = record s { next_index = touch peer s.next_index } in
    if is_leader s.role
    then (if leb (at_key peer s.next_index) s.snap_last_index
        then done (send_install_snapshot peer s')
        else send_entries peer s')
    else done s

unfoldable pub replicate_loop : List NodeId → Node → Outcome
replicate_loop [] s = done s
replicate_loop (peer ∷ peers) s = replicate_to peer s >>= replicate_loop peers

-- RaftNode::replicate_all
unfoldable pub replicate_all : Node → Outcome
unfolding replicate_loop
replicate_all s = replicate_loop s.peers s
