-- ===== src/Node/Roles.antt =====
-- RaftNode::become_follower (raft/node.cpp).
use sim_kv.Prelude.{[], Bool, true, false, not, ◌||◌, Option, none, some, ltb, if◌then◌else◌}
use sim_kv.Types.{Term, NodeId, Role, follower, candidate, leader}
use sim_kv.Node.{Node, Clock, emit, state_change}
use sim_kv.Node.Timers.{schedule_election_timeout, cancel_election_timeout, cancel_heartbeat}
use sim_kv.Node.Persistence.{persist}
use sim_kv.Node.Reads.{cancel_pending_reads}

abbrev pub is_follower : Role → Bool
is_follower follower = true
is_follower _ = false

abbrev pub is_candidate : Role → Bool
is_candidate candidate = true
is_candidate _ = false

abbrev pub is_leader : Role → Bool
is_leader leader = true
is_leader _ = false

-- the new term, recorded durably
unfoldable pub adopt_term : Term → Node → Node
adopt_term new_term s =
    if ltb s.current_term new_term
    then persist (record s { current_term = new_term; voted_for = none })
    else s

-- the role, where it or the term changes
unfoldable pub step_down : Bool → Node → Node
step_down term_changed s =
    let down = cancel_heartbeat (record (cancel_pending_reads s) { role = follower }) in
    if not (is_follower s.role) || term_changed
    then emit (state_change follower down.current_term) down
    else s

module _ ⦃clk : Clock⦄ where
  unfoldable pub become_follower : Term → Option NodeId → Node → Node
  become_follower new_term new_leader s =
      let stepped = step_down (ltb s.current_term new_term) (adopt_term new_term s) in
      schedule_election_timeout (
        cancel_election_timeout
          (record stepped { leader_id = new_leader; votes_received = []; vote_count = 0 }))

  -- the opening of the handlers of a leader's messages, behind their test for a stale term
  unfoldable pub follow : Term → NodeId → Node → Node
  follow term from s =
      if ltb s.current_term term
      then become_follower term (some from) s
      else become_follower s.current_term (some from) s
