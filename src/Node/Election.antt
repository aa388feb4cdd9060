-- ===== src/Node/Election.antt =====
-- Candidacy, votes and leadership (raft/node.cpp).
use sim_kv.Prelude.{
  ℕ, ◌+◌, ◌%◌, ◌^◌, List, [], ◌∷◌, Bool, true, false, ◌&&◌, ◌||◌, Option, none, some, ltb, leb,
  ◌==◌, not, if◌then◌else◌, length, add64,
}
use sim_kv.OrdMap.{OrdMap, put, nat_ord}
use sim_kv.Types.{Term, Index, NodeId, candidate, leader}
use sim_kv.Log.{last_index, last_term}
use sim_kv.Rpc.{RequestVote, RequestVoteReply}
use sim_kv.Rpc.Vote.{encode_request_vote, encode_request_vote_reply}
use sim_kv.Node.{Node, Clock, Outcome, done, emit, send, state_change, quorum}
use sim_kv.Node.Timers.{schedule_election_timeout, cancel_election_timeout, schedule_heartbeat}
use sim_kv.Node.Persistence.{persist}
use sim_kv.Node.Roles.{is_leader, is_candidate, become_follower}
use sim_kv.Node.Replication.{replicate_all}

-- RaftNode::is_log_up_to_date
unfoldable pub is_log_up_to_date : Index → Term → Node → Bool
is_log_up_to_date last_idx term s =
    if term == last_term s.log then leb (last_index s.log) last_idx else ltb (last_term s.log) term

-- the loop that sets the same value for every peer
abbrev pub put_all : List NodeId → Index → OrdMap NodeId Index → OrdMap NodeId Index
put_all [] v m = m
put_all (peer ∷ peers) v m = put_all peers v (put peer v m)

abbrev pub broadcast : List NodeId → List ℕ → Node → Node
broadcast [] payload s = s
broadcast (peer ∷ peers) payload s = broadcast peers payload (emit (send peer payload) s)

-- `!voted_for_.has_value() || voted_for_ == candidate_id`
abbrev pub can_vote : Option NodeId → NodeId → Bool
can_vote none c = true
can_vote (some v) c = v == c

module _ ⦃clk : Clock⦄ where
  -- RaftNode::become_leader
  unfoldable pub become_leader : Node → Outcome
  become_leader s =
      let elected =
        cancel_election_timeout (record s {
          role = leader;
          leader_id = some s.id;
          votes_received = [];
          vote_count = 0;
        }) in
      let next = add64 (last_index elected.log) 1 in
      let ready = record elected {
        next_index = put elected.id next (put_all elected.peers next []);
        match_index = put elected.id (last_index elected.log) (put_all elected.peers 0 []);
      } in
      if is_leader s.role
      then done s
      else replicate_all (schedule_heartbeat (emit (state_change leader ready.current_term) ready))

  -- RaftNode::become_candidate
  unfoldable pub become_candidate : Node → Outcome
  become_candidate s =
      let term = add64 s.current_term 1 in
      let standing = persist (record s {
        current_term = term;
        role = candidate;
        voted_for = some s.id;
        votes_received = [];
        vote_count = 1;
        election_term = term;
        leader_id = none;
      }) in
      let rv : RequestVote = record {
        term = term;
        candidate_id = s.id;
        last_log_index = last_index s.log;
        last_log_term = last_term s.log;
      } in
      let asked =
        broadcast s.peers (encode_request_vote rv) (emit (state_change candidate term) standing) in
      let waiting = schedule_election_timeout (cancel_election_timeout asked) in
      if not s.running
      then done s
      else if leb (quorum waiting) waiting.vote_count
      then become_leader waiting
      else done waiting

  -- RaftNode::on_election_timeout
  unfoldable pub on_election_timeout : Node → Outcome
  on_election_timeout s = if is_leader s.role then done s else become_candidate s

  -- the vote of RaftNode::handle_request_vote, and whether it is granted
  unfoldable pub decide_vote : RequestVote → Node → Node × Bool
  decide_vote rv s =
      let up_to_date =
        s.cfg.bug_skip_vote_uptodate || is_log_up_to_date rv.last_log_index rv.last_log_term s in
      if leb s.current_term rv.term && (can_vote s.voted_for rv.candidate_id && up_to_date)
      then (
        schedule_election_timeout
            (cancel_election_timeout (persist (record s { voted_for = some rv.candidate_id }))),
        true,
      )
      else (s, false)

  -- RaftNode::handle_request_vote
  unfoldable pub handle_request_vote : NodeId → RequestVote → Node → Node
  handle_request_vote from rv s =
      let current = if ltb s.current_term rv.term then become_follower rv.term none s else s in
      let (voted, grant) = decide_vote rv current in
      emit
        (send from
          (encode_request_vote_reply (record { term = voted.current_term; vote_granted = grant })))
        voted

  -- RaftNode::handle_request_vote_reply
  unfoldable pub handle_request_vote_reply : NodeId → RequestVoteReply → Node → Outcome
  handle_request_vote_reply from rvr s =
      let votes = put from tt s.votes_received in
      let counted = record s {
        votes_received = votes;
        vote_count = (length votes % 2 ^ 32 + 1) % 2 ^ 32;
      } in
      if not (is_candidate s.role)
      then done s
      else if ltb s.current_term rvr.term
      then done (become_follower rvr.term none s)
      else if ltb rvr.term s.current_term || not (rvr.term == s.election_term)
      then done s
      else if rvr.vote_granted
      then (if leb (quorum counted) counted.vote_count then become_leader counted else done counted)
      else done s
