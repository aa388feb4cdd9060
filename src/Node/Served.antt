-- ===== src/Node/Served.antt =====
-- InstallSnapshot, client calls, reads, and all messages and timers together keep what survives the
-- changes of term, vote and log.
use sim_kv.Prelude.{
  ℕ, ◌+◌, ◌<◌, ◌^◌, refl, false, none, inl, inr, not, ◌||◌, Bool-cases, ltb, leb, ◌==◌, IsU64,
}
use sim_kv.Types.{NodeId, Bytes, Command}
use sim_kv.OrdMap.{nat_ord}
use sim_kv.KvStore
use sim_kv.Log.{last_index, set_snapshot}
use sim_kv.Log.Shape.{set_snapshot-IsValid, append-IsValid}
use sim_kv.Rpc.{
  InstallSnapshot, InstallSnapshotReply, ClientRequest, ReadIndexRequest, ReadIndexReply,
}
use sim_kv.Node.Dispatch.{handle, on_heartbeat, on_timer}
use sim_kv.Rpc.Dispatch.{
  Message, request_vote, request_vote_reply, append_entries, append_entries_reply, client_request,
  install_snapshot, install_snapshot_reply, read_index_request, read_index_reply,
}
use sim_kv.Node.Handled.{
  on_election_timeout-Kept, handle_request_vote-Good, handle_request_vote_reply-Kept,
  handle_append_entries-Kept, handle_append_entries_reply-Kept,
}
use sim_kv.Node.{Timer, election, heartbeat, read_expiry, Node, Clock, ClientCallback, is_config}
use sim_kv.Node.Persistence.{save_snapshot}
use sim_kv.Node.Roles.{follow, is_leader}
use sim_kv.Node.Install.{install, handle_install_snapshot, handle_install_snapshot_reply}
use sim_kv.Node.Client.{
  is_empty, accepts, enter, submit, handle_client_request, ask_quorum, read_index,
  handle_read_index_request, handle_read_index_reply,
}
use sim_kv.Node.Frame.{
  same_fields, SameHard-trans, schedule_heartbeat-SameHard, broadcast-SameHard,
  expire_read-SameHard, drain_pending_reads-SameHard,
}
use sim_kv.Node.Kept.{IsClosed, Good, Kept, Kept-done, Kept-bind, Kept-with_value, Kept-if}
use sim_kv.Node.Keeps.{
  framed, relog, settled, same_persist, replicate_all-Kept, become_follower-Good, follow-Good,
  maybe_advance_commit_index-Kept,
}

module _ ⦃clk : Clock⦄ (P : Node → Type 0) (c : IsClosed P) where
  install-Kept :
      (from : NodeId) (is : InstallSnapshot) (s : Node)
      → IsU64 is.last_included_index
      → Good P s
      → Kept P (install from is s)
  unfolding install save_snapshot
  install-Kept from is s fits g =
      let i = is.last_included_index in
      let t = is.last_included_term in
      let taken : Node = record s {
        snap_last_index = i;
        snap_last_term = t;
        snap_data = is.snapshot;
        kv = KvStore.empty;
      } in
      Kept-with_value taken (settled P c {s = s} {t = taken} refl refl refl refl refl g) λ kv' _.
        Kept-done (
          relog P c (set_snapshot i t s.log) s _
            (SameHard-trans (same_persist P c _ _ refl refl refl refl refl)
              (same_fields refl refl refl refl refl))
            (set_snapshot-IsValid i t s.log fits g.1) g)

  pub handle_install_snapshot-Kept :
      (from : NodeId) (is : InstallSnapshot) (s : Node)
      → IsU64 is.last_included_index
      → Good P s
      → Kept P (handle_install_snapshot from is s)
  unfolding handle_install_snapshot
  handle_install_snapshot-Kept from is s fits g =
      let current = follow is.term from s in
      let good : Good P current = follow-Good P c is.term from s g in
      Kept-if (ltb is.term s.current_term) (λ _. Kept-done g)
        λ _.
          Kept-if (leb is.last_included_index current.snap_last_index)
            (λ _. Kept-done (settled P c {s = current} refl refl refl refl refl good))
            (λ _. install-Kept from is current fits good)

  pub handle_install_snapshot_reply-Kept :
      (from : NodeId) (isr : InstallSnapshotReply) (s : Node)
      → Good P s
      → Kept P (handle_install_snapshot_reply from isr s)
  unfolding handle_install_snapshot_reply
  handle_install_snapshot_reply-Kept from isr s g =
      Kept-if (not (is_leader s.role)) (λ _. Kept-done g)
        λ _.
          Kept-if (ltb s.current_term isr.term)
            (λ _. Kept-done (become_follower-Good P c isr.term none s g))
            λ _.
              maybe_advance_commit_index-Kept P c _ (settled P c {s = s} refl refl refl refl refl g)

  enter-Kept :
      (client_id : ℕ) (cmd : Command) (cb : ClientCallback) (s : Node)
      → last_index s.log + 1 < 2 ^ 64
      → Good P s
      → Kept P (enter client_id cmd cb s)
  unfolding enter
  enter-Kept client_id cmd cb s room g =
      let pending = record s { config_change_pending = is_config cmd || s.config_change_pending } in
      let good : Good P pending = settled P c {s = s} {t = pending} refl refl refl refl refl g in
      Kept-with_value pending good λ log' e.
        Kept-bind
          (replicate_all-Kept P c _ (
            relog P c log' s _
              (SameHard-trans (same_persist P c _ _ refl refl refl refl refl)
                (same_fields refl refl refl refl refl))
              (append-IsValid _ s.log g.1 room e) g))
          (maybe_advance_commit_index-Kept P c)

  pub submit-Kept :
      (client_id : ℕ) (cmd : Command) (cb : ClientCallback) (s : Node)
      → last_index s.log + 1 < 2 ^ 64
      → Good P s
      → Kept P (submit client_id cmd cb s).0
  unfolding submit
  submit-Kept client_id cmd cb s room g = elim (Bool-cases (accepts cmd s)) [
    | inl taken ↦ rw taken (enter-Kept client_id cmd cb s room g)
    | inr refused ↦ rw refused (Kept-done g)
  ]

  pub handle_client_request-Kept :
      (from : NodeId) (cr : ClientRequest) (s : Node)
      → last_index s.log + 1 < 2 ^ 64
      → Good P s
      → Kept P (handle_client_request from cr s)
  unfolding handle_client_request
  handle_client_request-Kept from cr s room g =
      Kept-if (not (is_leader s.role))
        (λ _. Kept-done (settled P c {s = s} refl refl refl refl refl g))
        (λ _. submit-Kept cr.client_id cr.cmd _ s room g)

  ask_quorum-Good : (key : Bytes) (cb : ℕ) (s : Node) → Good P s → Good P (ask_quorum key cb s)
  unfolding ask_quorum
  ask_quorum-Good key cb s g =
      framed P c _ _ (broadcast-SameHard s.peers _ _)
        (settled P c {s = s} refl refl refl refl refl g)

  pub read_index-Good :
      (key : Bytes) (cb : ℕ) (s : Node) → Good P s → Good P (read_index key cb s).0
  unfolding read_index
  read_index-Good key cb s g = elim (Bool-cases (not s.running || not (is_leader s.role))) [
    | inl refused ↦ rw refused g
    | inr leads ↦ (elim (Bool-cases (is_empty s.peers)) [
      | inl alone ↦ rw (leads, alone) (settled P c {s = s} refl refl refl refl refl g)
      | inr others ↦ rw (leads, others) (ask_quorum-Good key cb s g)
    ])
  ]

  pub handle_read_index_request-Good :
      (from : NodeId) (req : ReadIndexRequest) (s : Node)
      → Good P s
      → Good P (handle_read_index_request from req s)
  unfolding handle_read_index_request
  handle_read_index_request-Good from req s g = elim (Bool-cases (ltb req.term s.current_term)) [
    | inl stale ↦ rw stale g
    | inr current ↦ rw current (
        settled P c {s = follow req.term from s} refl refl refl refl refl
          (follow-Good P c req.term from s g))
  ]

  pub handle_read_index_reply-Good :
      (from : NodeId) (rep : ReadIndexReply) (s : Node)
      → Good P s
      → Good P (handle_read_index_reply from rep s)
  unfolding handle_read_index_reply
  handle_read_index_reply-Good from rep s g = elim (Bool-cases (ltb s.current_term rep.term)) [
    | inl newer ↦ rw newer (become_follower-Good P c rep.term none s g)
    | inr older ↦ (elim (Bool-cases (not (is_leader s.role) || not (rep.term == s.current_term))) [
      | inl ignored ↦ rw (older, ignored) g
      | inr counts ↦
          rw (older, counts)
            (framed P c _ _ (drain_pending_reads-SameHard _)
              (settled P c {s = s} refl refl refl refl refl g))
    ])
  ]

-- What a message may be while the index space has room: a snapshot's index fits 64 bits, and a client's
-- command has an index left to take.
unfoldable pub HasRoom : Message → Node → Type 0
HasRoom (install_snapshot m) s = IsU64 m.last_included_index
HasRoom (client_request m) s = last_index s.log + 1 < 2 ^ 64
HasRoom _ s = Unit

module _ ⦃clk : Clock⦄ (P : Node → Type 0) (c : IsClosed P) where
  pub handle-Kept :
      (from : NodeId) (m : Message) (s : Node) → HasRoom m s → Good P s → Kept P (handle from m s)
  unfolding handle HasRoom
  handle-Kept from (request_vote m) s room g = Kept-done (handle_request_vote-Good P c from m s g)
  handle-Kept from (request_vote_reply m) s room g = handle_request_vote_reply-Kept P c from m s g
  handle-Kept from (append_entries m) s room g = handle_append_entries-Kept P c from m s g
  handle-Kept from (append_entries_reply m) s room g =
      handle_append_entries_reply-Kept P c from m s g
  handle-Kept from (client_request m) s room g = handle_client_request-Kept P c from m s room g
  handle-Kept from (install_snapshot m) s room g = handle_install_snapshot-Kept P c from m s room g
  handle-Kept from (install_snapshot_reply m) s room g =
      handle_install_snapshot_reply-Kept P c from m s g
  handle-Kept from (read_index_request m) s room g =
      Kept-done (handle_read_index_request-Good P c from m s g)
  handle-Kept from (read_index_reply m) s room g =
      Kept-done (handle_read_index_reply-Good P c from m s g)

  on_heartbeat-Kept : (s : Node) → Good P s → Kept P (on_heartbeat s)
  unfolding on_heartbeat
  on_heartbeat-Kept s g =
      Kept-if (is_leader s.role)
        (λ _.
          Kept-bind (replicate_all-Kept P c s g)
            λ t k. Kept-done (framed P c t _ (schedule_heartbeat-SameHard t) k))
        (λ _. Kept-done g)

  pub on_timer-Kept :
      (timer : Timer) (s : Node)
      → s.current_term + 1 < 2 ^ 64
      → Good P s
      → Kept P (on_timer timer s)
  unfolding on_timer
  on_timer-Kept (election generation) s room g =
      let fired = record s { election_scheduled = false } in
      let good : Good P fired = settled P c {s = s} {t = fired} refl refl refl refl refl g in
      Kept-if (not (generation == s.election_generation)) (λ _. Kept-done g)
        λ _.
          Kept-if s.running (λ _. on_election_timeout-Kept P c fired room good)
            (λ _. Kept-done good)
  on_timer-Kept heartbeat s room g =
      let fired = record s { heartbeat_scheduled = false } in
      let good : Good P fired = settled P c {s = s} {t = fired} refl refl refl refl refl g in
      Kept-if s.running (λ _. on_heartbeat-Kept fired good) (λ _. Kept-done good)
  on_timer-Kept (read_expiry round) s room g =
      Kept-done (framed P c s _ (expire_read-SameHard round s) g)
