-- ===== src/Node/Handled.antt =====
-- Every handler, timer and client call keeps what survives the changes of term, vote and log.
use sim_kv.Prelude.{
  ◌+◌, ◌<◌, ◌^◌, ◌≡◌, refl, [], true, none, some, inl, inr, not, ◌&&◌, ◌||◌, Bool-cases, ltb, leb,
  ◌==◌, arith, add64, if◌then◌else◌, length, ◌%◌,
}
use sim_kv.Result.{assertion, underrun, unknown_tag, out_of_range}
use sim_kv.Types.{Index, NodeId, leader, candidate}
use sim_kv.OrdMap.{put, nat_ord}
use sim_kv.Log.{last_index, last_term, contains}
use sim_kv.Rpc.{RequestVote, RequestVoteReply, AppendEntries, AppendEntriesReply}
use sim_kv.Rpc.Vote.{encode_request_vote}
use sim_kv.Node.{Node, Clock, emit, state_change, quorum}
use sim_kv.Node.Timers.{schedule_election_timeout, cancel_election_timeout}
use sim_kv.Node.Persistence.{persist}
use sim_kv.Node.Roles.{become_follower, follow, is_leader, is_candidate}
use sim_kv.Node.Election.{
  become_leader, become_candidate, on_election_timeout, decide_vote, handle_request_vote,
  handle_request_vote_reply, can_vote, broadcast, is_log_up_to_date,
}
use sim_kv.Node.Append.{
  Merge, accept_commit, merge_outcome, handle_append_entries, handle_append_entries_reply,
}
use sim_kv.Node.Frame.{
  same_fields, SameHard-trans, SameHard-refl, schedule_election_timeout-SameHard,
  schedule_heartbeat-SameHard, cancel_election_timeout-SameHard, broadcast-SameHard,
}
use sim_kv.Node.Merged.{Merges, merge_entries-Merges}
use sim_kv.Node.Kept.{IsClosed, Good, Kept, Kept-done, Kept-bind, Kept-with_value, Kept-if}
use sim_kv.Node.Keeps.{
  framed, relog, settled, same_persist, replicate_to-Kept, replicate_all-Kept, become_follower-Good,
  follow-Good, apply_committed_entries-Kept, maybe_advance_commit_index-Kept,
}

module _ ⦃clk : Clock⦄ (P : Node → Type 0) (c : IsClosed P) where
  -- The election timer is armed again.
  rearmed-Good :
      (s : Node) → Good P s → Good P (schedule_election_timeout (cancel_election_timeout s))
  rearmed-Good s g =
      framed P c s _
        (SameHard-trans (cancel_election_timeout-SameHard s) (schedule_election_timeout-SameHard _))
        g

  become_leader-Kept : (s : Node) → Good P s → Kept P (become_leader s)
  unfolding become_leader
  become_leader-Kept s g =
      let led = record s {
        role = leader;
        leader_id = some s.id;
        votes_received = [];
        vote_count = 0;
      } in
      let elected = cancel_election_timeout led in
      let calm : Good P elected =
        framed P c led elected (cancel_election_timeout-SameHard led)
          (settled P c {s = s} {t = led} refl refl refl refl refl g) in
      Kept-if (is_leader s.role) (λ _. Kept-done g)
        λ _. replicate_all-Kept P c _ (
          framed P c _ _ (schedule_heartbeat-SameHard _)
            (settled P c {s = elected} refl refl refl refl refl calm))

  become_candidate-Kept :
      (s : Node) → s.current_term + 1 < 2 ^ 64 → Good P s → Kept P (become_candidate s)
  unfolding become_candidate
  become_candidate-Kept s room g =
      let term = add64 s.current_term 1 in
      let rv : RequestVote = record {
        term = term;
        candidate_id = s.id;
        last_log_index = last_index s.log;
        last_log_term = last_term s.log;
      } in
      let voted = persist (record s { current_term = term; voted_for = some s.id }) in
      let standing = persist (record s {
        current_term = term;
        role = candidate;
        voted_for = some s.id;
        votes_received = [];
        vote_count = 1;
        election_term = term;
        leader_id = none;
      }) in
      let told = emit (state_change candidate term) standing in
      let asked = broadcast s.peers (encode_request_vote rv) told in
      let waiting = schedule_election_timeout (cancel_election_timeout asked) in
      let written : Good P voted = (c.stood s.id s room g.0, (unfold persist in g.1)) in
      let stood : Good P asked =
        framed P c voted asked
          (SameHard-trans
            (SameHard-trans (same_persist P c _ _ refl refl refl refl refl)
              (same_fields {s = standing} {t = told} refl refl refl refl refl))
            (broadcast-SameHard s.peers _ told))
          written in
      let waits : Good P waiting = rearmed-Good asked stood in
      Kept-if (not s.running) (λ _. Kept-done g)
        λ _.
          Kept-if (leb (quorum waiting) waiting.vote_count) (λ _. become_leader-Kept waiting waits)
            (λ _. Kept-done {s = waiting} waits)

  pub on_election_timeout-Kept :
      (s : Node) → s.current_term + 1 < 2 ^ 64 → Good P s → Kept P (on_election_timeout s)
  unfolding on_election_timeout
  on_election_timeout-Kept s room g =
      Kept-if (is_leader s.role) (λ _. Kept-done g) (λ _. become_candidate-Kept s room g)

  decide_vote-Good : (rv : RequestVote) (s : Node) → Good P s → Good P (decide_vote rv s).0
  unfolding decide_vote
  decide_vote-Good rv s g =
      let fresh =
        s.cfg.bug_skip_vote_uptodate || is_log_up_to_date rv.last_log_index rv.last_log_term s in
      elim (Bool-cases
        (leb s.current_term rv.term && (can_vote s.voted_for rv.candidate_id && fresh))) [
          | inr refused ↦ rw refused g
          | inl granted ↦
              (let able : can_vote s.voted_for rv.candidate_id ≡ true = ground arith in
                rw granted
                  (rearmed-Good _ (c.voted rv.candidate_id s able g.0, (unfold persist in g.1))))
        ]

  pub handle_request_vote-Good :
      (from : NodeId) (rv : RequestVote) (s : Node)
      → Good P s
      → Good P (handle_request_vote from rv s)
  unfolding handle_request_vote
  handle_request_vote-Good from rv s g =
      let current = if ltb s.current_term rv.term then become_follower rv.term none s else s in
      let good : Good P current = elim (Bool-cases (ltb s.current_term rv.term)) [
        | inl newer ↦ rw newer (become_follower-Good P c rv.term none s g)
        | inr older ↦ rw older g
      ] in
      settled P c {s = (decide_vote rv current).0} refl refl refl refl refl
        (decide_vote-Good rv current good)

  pub handle_request_vote_reply-Kept :
      (from : NodeId) (rvr : RequestVoteReply) (s : Node)
      → Good P s
      → Kept P (handle_request_vote_reply from rvr s)
  unfolding handle_request_vote_reply
  handle_request_vote_reply-Kept from rvr s g =
      let votes = put from tt s.votes_received in
      let counted = record s {
        votes_received = votes;
        vote_count = (length votes % 2 ^ 32 + 1) % 2 ^ 32;
      } in
      let good : Good P counted = settled P c {s = s} {t = counted} refl refl refl refl refl g in
      Kept-if (not (is_candidate s.role)) (λ _. Kept-done g)
        λ _.
          Kept-if (ltb s.current_term rvr.term)
            (λ _. Kept-done (become_follower-Good P c rvr.term none s g))
            λ _.
              Kept-if (ltb rvr.term s.current_term || not (rvr.term == s.election_term))
                (λ _. Kept-done g)
                λ _.
                  Kept-if rvr.vote_granted
                    (λ _.
                      Kept-if (leb (quorum counted) counted.vote_count)
                        (λ _. become_leader-Kept counted good) (λ _. Kept-done {s = counted} good))
                    (λ _. Kept-done g)

  accept_commit-Kept : (i : Index) (s : Node) → Good P s → Kept P (accept_commit i s)
  unfolding accept_commit
  accept_commit-Kept i s g =
      Kept-if (ltb s.commit_index i)
        (λ _. apply_committed_entries-Kept P c _ (settled P c {s = s} refl refl refl refl refl g))
        (λ _. Kept-done g)

  merge_outcome-Kept :
      (from : NodeId) (i : Index) (s : Node) (m : Merge)
      → Merges m
      → Good P s
      → Kept P (merge_outcome from i s m)
  unfolding merge_outcome
  merge_outcome-Kept from i s (l, none) merged g =
      Kept-bind (accept_commit-Kept i _ (relog P c l s _ (SameHard-refl _) merged.shape g))
        λ t k. Kept-done (settled P c {s = t} refl refl refl refl refl k)
  merge_outcome-Kept from i s (l, some assertion) merged g = record { holds = tt }
  merge_outcome-Kept from i s (l, some underrun) merged g = ground (arith, merged.failure)
  merge_outcome-Kept from i s (l, some unknown_tag) merged g = ground (arith, merged.failure)
  merge_outcome-Kept from i s (l, some out_of_range) merged g = ground (arith, merged.failure)

  pub handle_append_entries-Kept :
      (from : NodeId) (ae : AppendEntries) (s : Node)
      → Good P s
      → Kept P (handle_append_entries from ae s)
  unfolding handle_append_entries
  handle_append_entries-Kept from ae s g =
      let current = follow ae.term from s in
      let good : Good P current = follow-Good P c ae.term from s g in
      Kept-if (ltb ae.term s.current_term)
        (λ _. Kept-done (settled P c {s = s} refl refl refl refl refl g))
        λ _.
          Kept-if (contains ae.prev_log_index ae.prev_log_term current.log)
            (λ _.
              merge_outcome-Kept from ae.leader_commit current _
                (merge_entries-Merges ae.entries current.log good.1) good)
            (λ _.
              Kept-with_value current good
                λ reply _. Kept-done (settled P c {s = current} refl refl refl refl refl good))

  pub handle_append_entries_reply-Kept :
      (from : NodeId) (aer : AppendEntriesReply) (s : Node)
      → Good P s
      → Kept P (handle_append_entries_reply from aer s)
  unfolding handle_append_entries_reply
  handle_append_entries_reply-Kept from aer s g =
      Kept-if (not (is_leader s.role)) (λ _. Kept-done g)
        λ _.
          Kept-if (ltb s.current_term aer.term)
            (λ _. Kept-done (become_follower-Good P c aer.term none s g))
            λ _.
              Kept-if (ltb aer.term s.current_term) (λ _. Kept-done g)
                λ _.
                  Kept-if aer.success
                    (λ _.
                      maybe_advance_commit_index-Kept P c _
                        (settled P c {s = s} refl refl refl refl refl g))
                    (λ _.
                      replicate_to-Kept P c from _ (settled P c {s = s} refl refl refl refl refl g))
