-- ===== src/Node/Votes.antt =====
-- When a node grants its vote (raft/node.cpp, handle_request_vote).
use sim_kv.Prelude.{
  ◌≤◌, ◌<◌, ◌≡◌, refl, ◌∙◌, ◌↔◌, ◌⊎◌, inl, inr, true, false, ◌&&◌, ◌||◌, Bool-cases, Option, none,
  some, leb, arith,
}
use sim_kv.Types.{Index, Term, NodeId}
use sim_kv.Log.{last_index, last_term}
use sim_kv.Rpc.{RequestVote}
use sim_kv.Node.{Node, Clock}
use sim_kv.Node.Persistence.{persist}
use sim_kv.Node.Election.{can_vote, is_log_up_to_date, decide_vote}
use sim_kv.Node.Frame.{
  SameHard-trans, schedule_election_timeout-SameHard, cancel_election_timeout-SameHard,
}
use sim_kv.Node.Durable.{IsWritten, IsWritten-IsClosed, persist-IsWritten}

-- A log, by its last term and index, that is not behind that of the state.
pub record IsUpToDate (term : Term) (index : Index) (s : Node) : Type 0 where
  pub order : (last_term s.log < term) ⊎ ((term ≡ last_term s.log) × (last_index s.log ≤ index))

is_log_up_to_date_iff :
    (index : Index) (term : Term) (s : Node)
    → (is_log_up_to_date index term s ≡ true) ↔ IsUpToDate term index s
unfolding is_log_up_to_date
is_log_up_to_date_iff index term s = ground arith

-- What a node asks of a candidate: a term that is not behind, a vote that it has not given to another,
-- and a log that is not behind its own.
pub record IsEligible (rv : RequestVote) (s : Node) : Type 0 where
  pub term : s.current_term ≤ rv.term
  pub free : (s.voted_for ≡ none) ⊎ (s.voted_for ≡ some rv.candidate_id)
  pub log : IsUpToDate rv.last_log_term rv.last_log_index s

can_vote_iff :
    (v : Option NodeId) (c : NodeId) → (can_vote v c ≡ true) ↔ ((v ≡ none) ⊎ (v ≡ some c))
can_vote_iff none c = ground arith
can_vote_iff (some v) c = ground arith

module _ ⦃clk : Clock⦄ (rv : RequestVote) (s : Node) where
  pub decide_vote_iff :
      s.cfg.bug_skip_vote_uptodate ≡ false → ((decide_vote rv s).1 ≡ true) ↔ IsEligible rv s
  unfolding decide_vote
  decide_vote_iff flag = ground (
    arith,
    can_vote_iff s.voted_for rv.candidate_id,
    is_log_up_to_date_iff rv.last_log_index rv.last_log_term s,
  )

  -- A vote that is granted stands in the state and on the disk before the reply is made; where it is
  -- refused nothing changes.
  pub decide_vote-IsWritten :
      (((decide_vote rv s).1 ≡ true)
        × (((decide_vote rv s).0.voted_for ≡ some rv.candidate_id)
            × IsWritten (decide_vote rv s).0))
      ⊎ (((decide_vote rv s).1 ≡ false) × ((decide_vote rv s).0 ≡ s))
  unfolding decide_vote
  decide_vote-IsWritten =
      let fresh =
        s.cfg.bug_skip_vote_uptodate || is_log_up_to_date rv.last_log_index rv.last_log_term s in
      elim (Bool-cases
        (leb s.current_term rv.term && (can_vote s.voted_for rv.candidate_id && fresh))) [
          | inr refused ↦ inr (rw refused (refl, refl))
          | inl granted ↦
              (let voted : Node = persist (record s { voted_for = some rv.candidate_id }) in
                let armed =
                  SameHard-trans (cancel_election_timeout-SameHard voted)
                    (schedule_election_timeout-SameHard _) in
                inl (
                  rw granted (
                    refl,
                    (
                      armed.vote ∙ (unfold persist in refl),
                      IsWritten-IsClosed.frame _ _ armed (persist-IsWritten _),
                    ),
                  )))
        ]
