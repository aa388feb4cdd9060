-- ===== src/Node/Install.antt =====
-- InstallSnapshot at a follower, and its reply at the leader (raft/node.cpp).
use sim_kv.Prelude.{none, ltb, leb, not, if◌then◌else◌, max, add64}
use sim_kv.OrdMap.{put, nat_ord}
use sim_kv.Types.{NodeId}
use sim_kv.KvStore
use sim_kv.KvStore.Snapshot.{decode_snapshot}
use sim_kv.Log.{set_snapshot}
use sim_kv.Rpc.{InstallSnapshot, InstallSnapshotReply}
use sim_kv.Rpc.Replication.{encode_install_snapshot_reply}
use sim_kv.Node.{Node, Clock, Outcome, done, with_value, emit, send, at_key}
use sim_kv.Node.Persistence.{persist, save_snapshot}
use sim_kv.Node.Roles.{is_leader, become_follower, follow}
use sim_kv.Node.Commit.{maybe_advance_commit_index}

abbrev pub reply_install : NodeId → Node → Node
reply_install to s =
    emit
      (send to (
        encode_install_snapshot_reply
          (record { term = s.current_term; last_included_index = s.snap_last_index })))
      s

-- The part of RaftNode::handle_install_snapshot that replaces the state machine. If the snapshot
-- cannot be read, the snapshot fields and the empty store stay behind.
unfoldable pub install : NodeId → InstallSnapshot → Node → Outcome
install from is s =
    let taken = record s {
      snap_last_index = is.last_included_index;
      snap_last_term = is.last_included_term;
      snap_data = is.snapshot;
      kv = KvStore.empty;
    } in
    with_value (decode_snapshot is.snapshot) taken λ kv'. done (
      reply_install from (
        persist (
          save_snapshot (record taken {
            kv = kv';
            log = set_snapshot is.last_included_index is.last_included_term s.log;
            commit_index = max s.commit_index is.last_included_index;
            last_applied = max s.last_applied is.last_included_index;
          }))))

module _ ⦃clk : Clock⦄ where
  -- RaftNode::handle_install_snapshot
  unfoldable pub handle_install_snapshot : NodeId → InstallSnapshot → Node → Outcome
  handle_install_snapshot from is s =
      let current = follow is.term from s in
      if ltb is.term s.current_term
      then done s
      else if leb is.last_included_index current.snap_last_index
      then done (reply_install from current)
      else install from is current

  -- RaftNode::handle_install_snapshot_reply
  unfoldable pub handle_install_snapshot_reply : NodeId → InstallSnapshotReply → Node → Outcome
  handle_install_snapshot_reply from isr s =
      let matched = max (at_key from s.match_index) isr.last_included_index in
      if not (is_leader s.role)
      then done s
      else if ltb s.current_term isr.term
      then done (become_follower isr.term none s)
      else maybe_advance_commit_index (record s {
        match_index = put from matched s.match_index;
        next_index = put from (add64 matched 1) s.next_index;
      })
