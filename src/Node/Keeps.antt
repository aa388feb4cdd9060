-- ===== src/Node/Keeps.antt =====
-- Every handler keeps what survives the changes of term, vote and log.
use sim_kv.Prelude.{
  ℕ, zero, suc, ◌-◌, ◌<◌, ◌^◌, ◌≡◌, refl, sym, subst, List, [], ◌∷◌, Option, none, some, inl, inr,
  not, ◌&&◌, ◌||◌, length, Bool-cases, ltb, leb, ◌==◌, arith, add64,
}
use sim_kv.Result.{ok}
use sim_kv.Types.{Term, Index, NodeId, Command, cmd_add_server, cmd_remove_server}
use sim_kv.OrdMap.{erase, nat_ord}
use sim_kv.Log.{RaftLog, last_index, set_snapshot, term_at, at}
use sim_kv.Log.Shape.{IsValid, set_snapshot-IsValid}
use sim_kv.Node.{Node, Clock, Outcome, is_config, quorum, at_key, touch}
use sim_kv.Node.Persistence.{persist, save_snapshot}
use sim_kv.Node.Reads.{drain_pending_reads}
use sim_kv.Node.Roles.{adopt_term, step_down, become_follower, follow, is_leader}
use sim_kv.Node.Replication.{send_entries, replicate_to, replicate_loop, replicate_all}
use sim_kv.Node.Commit.{
  take_snapshot, apply_membership_change, apply_config, apply_next, apply_loop,
  apply_committed_entries, try_commit, advance_at, advance_loop, maybe_advance_commit_index,
  count_at_least, mem_id, remove_id,
}
use sim_kv.Node.Frame.{
  SameHard, same_fields, SameHard-trans, schedule_election_timeout-SameHard,
  cancel_election_timeout-SameHard, step_down-SameHard, send_install_snapshot-SameHard,
  answer_client-SameHard, drain_pending_reads-SameHard,
}
use sim_kv.Node.Kept.{IsClosed, Good, Kept, Kept-done, Kept-bind, Kept-with_value, Kept-if}

-- An index with a term lies inside the index space.
term_at-lt : (i : Index) (l : RaftLog) {t : Term} → IsValid l → term_at i l ≡ ok t → i < 2 ^ 64
unfolding term_at at
term_at-lt i l v h = ground (arith, v.bounded)

module _ (P : Node → Type 0) (c : IsClosed P) where
  -- A change elsewhere in the state.
  pub framed : (s t : Node) → SameHard s t → Good P s → Good P t
  framed s t same g = (c.frame s t same g.0, subst IsValid (sym same.log) g.1)

  pub relog :
      (l : RaftLog) (s t : Node)
      → SameHard (persist (record s { log = l })) t
      → IsValid l
      → Good P s
      → Good P t
  unfolding persist
  relog l s t same v g = framed _ t same (c.relogged l s g.0, v)

  adopt_term-Good : (term : Term) (s : Node) → Good P s → Good P (adopt_term term s)
  unfolding adopt_term
  adopt_term-Good term s g = elim (Bool-cases (ltb s.current_term term)) [
    | inl newer ↦ rw newer (c.adopted term s (ground arith) g.0, (unfold persist in g.1))
    | inr older ↦ rw older g
  ]

  -- A method that changes no field that matters, and returns.
  pub settled :
      {s t : Node}
      → t.current_term ≡ s.current_term
      → t.voted_for ≡ s.voted_for
      → t.log ≡ s.log
      → t.meta_store ≡ s.meta_store
      → t.log_store ≡ s.log_store
      → Good P s
      → Good P t
  settled {s = s} {t} a b d e f g = framed s t (same_fields a b d e f) g

  -- `persist` of states that agree on what it writes and rewrites.
  pub same_persist :
      (s t : Node)
      → t.current_term ≡ s.current_term
      → t.voted_for ≡ s.voted_for
      → t.log ≡ s.log
      → t.meta_store ≡ s.meta_store
      → t.log_store ≡ s.log_store
      → SameHard (persist s) (persist t)
  unfolding persist
  same_persist s t a b d e f = record {
    term = a;
    vote = b;
    log = d;
    meta_store = ground arith;
    log_store = ground arith;
  }

  send_entries-Kept : (peer : NodeId) (s : Node) → Good P s → Kept P (send_entries peer s)
  unfolding send_entries
  send_entries-Kept peer s g =
      Kept-with_value s g λ term e. Kept-done (settled {s = s} refl refl refl refl refl g)

  pub replicate_to-Kept : (peer : NodeId) (s : Node) → Good P s → Kept P (replicate_to peer s)
  unfolding replicate_to
  replicate_to-Kept peer s g =
      let touched : Good P (record s { next_index = touch peer s.next_index }) =
        settled {s = s} refl refl refl refl refl g in
      Kept-if (is_leader s.role)
        (λ _.
          Kept-if (leb (at_key peer s.next_index) s.snap_last_index)
            (λ _. Kept-done (framed _ _ (send_install_snapshot-SameHard peer _) touched))
            (λ _. send_entries-Kept peer _ touched))
        (λ _. Kept-done g)

  replicate_loop-Kept :
      (peers : List NodeId) (s : Node) → Good P s → Kept P (replicate_loop peers s)
  unfolding replicate_loop
  replicate_loop-Kept [] s g = Kept-done g
  replicate_loop-Kept (peer ∷ peers) s g =
      Kept-bind (replicate_to-Kept peer s g) (replicate_loop-Kept peers)

  pub replicate_all-Kept : (s : Node) → Good P s → Kept P (replicate_all s)
  unfolding replicate_all
  replicate_all-Kept s g = replicate_loop-Kept s.peers s g

  pub take_snapshot-Kept : (s : Node) → Good P s → Kept P (take_snapshot s)
  unfolding take_snapshot save_snapshot
  take_snapshot-Kept s g =
      Kept-if (leb s.last_applied s.snap_last_index) (λ _. Kept-done g)
        λ _. Kept-with_value s g λ t found.
          let shape =
            set_snapshot-IsValid s.last_applied t s.log (term_at-lt s.last_applied s.log g.1 found)
              g.1 in
          Kept-done (
            relog (set_snapshot s.last_applied t s.log) s _
              (same_persist _ _ refl refl refl refl refl) shape g)

module _ ⦃clk : Clock⦄ (P : Node → Type 0) (c : IsClosed P) where
  pub become_follower-Good :
      (term : Term) (from : Option NodeId) (s : Node)
      → Good P s
      → Good P (become_follower term from s)
  unfolding become_follower
  become_follower-Good term from s g =
      let adopted = adopt_term term s in
      let stepped = step_down (ltb s.current_term term) adopted in
      let calm : Node = record stepped { leader_id = from; votes_received = []; vote_count = 0 } in
      framed P c adopted _
        (SameHard-trans
          (SameHard-trans (step_down-SameHard (ltb s.current_term term) adopted)
            (same_fields {t = calm} refl refl refl refl refl))
          (SameHard-trans (cancel_election_timeout-SameHard calm)
            (schedule_election_timeout-SameHard _)))
        (adopt_term-Good P c term s g)

  pub follow-Good :
      (term : Term) (from : NodeId) (s : Node) → Good P s → Good P (follow term from s)
  unfolding follow
  follow-Good term from s g = elim (Bool-cases (ltb s.current_term term)) [
    | inl newer ↦ rw newer (become_follower-Good term (some from) s g)
    | inr older ↦ rw older (become_follower-Good s.current_term (some from) s g)
  ]

  apply_membership_change-Kept :
      (cmd : Command) (s : Node) → Good P s → Kept P (apply_membership_change cmd s)
  unfolding apply_membership_change
  apply_membership_change-Kept (cmd_add_server new_id) s g =
      Kept-if (not (mem_id new_id s.peers) && not (new_id == s.id))
        (λ _.
          Kept-if (is_leader s.role)
            (λ _. replicate_to-Kept P c new_id _ (settled P c {s = s} refl refl refl refl refl g))
            (λ _. Kept-done (settled P c {s = s} refl refl refl refl refl g)))
        (λ _. Kept-done g)
  apply_membership_change-Kept (cmd_remove_server rem_id) s g =
      let removed : Good P (record s {
        peers = remove_id rem_id s.peers;
        next_index = erase rem_id s.next_index;
        match_index = erase rem_id s.match_index;
      }) =
        settled P c {s = s} refl refl refl refl refl g in
      Kept-if (rem_id == s.id && is_leader s.role)
        (λ _. Kept-done (become_follower-Good s.current_term none _ removed))
        (λ _. Kept-done removed)
  apply_membership_change-Kept _ s g = Kept-done g

  apply_config-Kept : (cmd : Command) (s : Node) → Good P s → Kept P (apply_config cmd s)
  unfolding apply_config
  apply_config-Kept cmd s g =
      Kept-if (is_config cmd)
        (λ _.
          Kept-bind (apply_membership_change-Kept cmd s g)
            λ t k. Kept-done (settled P c {s = t} refl refl refl refl refl k))
        (λ _. Kept-done g)

  apply_next-Kept : (s : Node) → Good P s → Kept P (apply_next s)
  unfolding apply_next
  apply_next-Kept s g =
      let counted : Good P (record s { last_applied = add64 s.last_applied 1 }) =
        settled P c {s = s} refl refl refl refl refl g in
      Kept-if (leb (add64 s.last_applied 1) s.log.base_index) (λ _. Kept-done counted)
        λ _. Kept-with_value _ counted λ entry _.
          Kept-bind (apply_config-Kept entry.cmd _ (settled P c {s = s} refl refl refl refl refl g))
            λ t k. Kept-done (framed P c t _ (answer_client-SameHard _ t) k)

  apply_loop-Kept : (rounds : ℕ) (s : Node) → Good P s → Kept P (apply_loop rounds s)
  unfolding apply_loop
  apply_loop-Kept zero s g = Kept-done g
  apply_loop-Kept (suc rounds) s g =
      Kept-if (ltb s.last_applied s.commit_index)
        (λ _. Kept-bind (apply_next-Kept s g) (apply_loop-Kept rounds)) (λ _. Kept-done g)

  pub apply_committed_entries-Kept : (s : Node) → Good P s → Kept P (apply_committed_entries s)
  unfolding apply_committed_entries
  apply_committed_entries-Kept s g =
      Kept-bind (apply_loop-Kept (s.commit_index - s.last_applied) s g) λ t k.
        let d = drain_pending_reads t in
        let drained = framed P c t d (drain_pending_reads-SameHard t) k in
        Kept-if
          (ltb 0 d.cfg.snapshot_threshold && ltb d.cfg.snapshot_threshold (length d.log.entries))
          (λ _. take_snapshot-Kept P c d drained) (λ _. Kept-done {s = d} drained)

  try_commit-Kept :
      (n : Index) (s : Node) (continue : Node → Outcome)
      → Good P s
      → Kept P (continue s)
      → Kept P (try_commit n s continue)
  unfolding try_commit
  try_commit-Kept n s continue g k =
      Kept-if (leb (quorum s) (count_at_least n s.match_index))
        (λ _. apply_committed_entries-Kept _ (settled P c {s = s} refl refl refl refl refl g))
        (λ _. k)

  advance_at-Kept :
      (n : Index) (continue : Node → Outcome) (s : Node)
      → Good P s
      → Kept P (continue s)
      → Kept P (advance_at n continue s)
  unfolding advance_at
  advance_at-Kept n continue s g k =
      let commits = try_commit-Kept n s continue g k in
      Kept-if (leb n s.commit_index || leb n s.log.base_index) (λ _. Kept-done g)
        λ _.
          Kept-if s.cfg.bug_commit_prior_term (λ _. commits)
            λ _.
              Kept-with_value s g λ e _. Kept-if (e.term == s.current_term) (λ _. commits) (λ _. k)

  advance_loop-Kept : (n : Index) (s : Node) → Good P s → Kept P (advance_loop n s)
  unfolding advance_loop
  advance_loop-Kept zero s g = Kept-done g
  advance_loop-Kept (suc n) s g =
      advance_at-Kept (suc n) (advance_loop n) s g (advance_loop-Kept n s g)

  pub maybe_advance_commit_index-Kept :
      (s : Node) → Good P s → Kept P (maybe_advance_commit_index s)
  unfolding maybe_advance_commit_index
  maybe_advance_commit_index-Kept s g = advance_loop-Kept (last_index s.log) s g
