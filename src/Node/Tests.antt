-- ===== src/Node/Tests.antt =====
-- A node of a cluster of three, run on small inputs.
use sim_kv.Prelude.{◌++◌, ℕ, ◌≡◌, refl, [], ◌∷◌, true, false, some, inl, arith}
use sim_kv.Types.{cmd_get, cmd_put, LogEntry, leader}
use sim_kv.DurableStore.{durable_size}
use sim_kv.Log.{RaftLog, append, truncate_from, at}
use sim_kv.Log.Shape.{IsValid, empty-IsValid}
use sim_kv.Rpc.{RequestVote}
use sim_kv.Rpc.Vote.{encode_request_vote, FitsRequestVote}
use sim_kv.Rpc.Dispatch.{request_vote, decode_message-encode_message}
use sim_kv.Node.{PendingRead, Node, RaftConfig, Clock, done, ◌>>=◌}
use sim_kv.Node.Persistence.{persist}
use sim_kv.Node.Applied.{executed_all, view, IsLeftAt, apply_loop-enough, apply_loop-IsLeftAt}
use sim_kv.Node.Answered.{waiting, answers, drain_pending_reads_lem}
use sim_kv.Node.Reads.{drain_pending_reads, drain_loop, drain_read}
use sim_kv.Node.Commit.{apply_loop}
use sim_kv.Node.Election.{handle_request_vote}
use sim_kv.Node.Append.{merge_entries, merge_entry, append_to}
use sim_kv.Node.Client.{read_index}
use sim_kv.Node.Dispatch.{on_message, handle}
use sim_kv.Node.Lifecycle.{new_node, crash, restart}
use sim_kv.Node.Durable.{IsWritten, persist-IsWritten}
use sim_kv.Node.Down.{CanRecover}
use sim_kv.Node.Recovery.{restart-crash}
use sim_kv.Node.Served.{HasRoom}
use sim_kv.Node.Runs.{Step, received, asked, Reaches, stays, then_step, IsSound, Reaches-IsSound}
use sim_kv.Node.Ballot.{IsAnswered, handle_request_vote_lem}
use sim_kv.Node.Merging.{IsMerged, merge_entries-IsMerged}

instance abbrev test_clock : Clock
test_clock = record { event_id = λ asked. 7; random_range = λ asked lo hi. lo }

abbrev test_config : RaftConfig
test_config = record {
  election_timeout_lo = 150;
  heartbeat_interval = 50;
  client_timeout = 500;
  max_entries_per_ae = 64;
  snapshot_threshold = 0;
  read_timeout = 100;
  bug_commit_prior_term = false;
  bug_skip_vote_uptodate = false;
}

abbrev first_vote : RequestVote
first_vote = record { term = 1; candidate_id = 2; last_log_index = 0; last_log_term = 0 }

fits_first_vote : FitsRequestVote first_vote
fits_first_vote = record {
  term = omega arith;
  candidate_id = omega arith;
  last_log_index = omega arith;
  last_log_term = omega arith;
}

abbrev up_node : Node
up_node = record (new_node 1 (2 ∷ 3 ∷ []) test_config) { running = true }

-- The node has written its disk once.
abbrev idle_node : Node
idle_node = persist up_node

idle_IsValid : IsValid idle_node.log
unfolding persist new_node
idle_IsValid = empty-IsValid

vote_received : Step idle_node (handle_request_vote 2 first_vote idle_node)
unfolding on_message handle HasRoom persist new_node
vote_received =
    received 2 (encode_request_vote first_vote)
      (rw (decode_message-encode_message (request_vote first_vote) fits_first_vote) tt)
      (rw (decode_message-encode_message (request_vote first_vote) fits_first_vote) refl)

short_run : Reaches idle_node (read_index [] 4 (handle_request_vote 2 first_vote idle_node)).0
short_run = then_step (then_step stays vote_received) (asked [] 4 refl)

Reaches-IsSound_example :
    IsSound idle_node (read_index [] 4 (handle_request_vote 2 first_vote idle_node)).0
Reaches-IsSound_example =
    Reaches-IsSound idle_node short_run (persist-IsWritten up_node) idle_IsValid

-- The node has voted for node 2 in term 1.
abbrev voter : Node
voter = persist (record up_node { current_term = 1; voted_for = some 2 })

abbrev second_vote : RequestVote
second_vote = record { term = 1; candidate_id = 3; last_log_index = 9; last_log_term = 1 }

second_received : Step voter (handle_request_vote 3 second_vote voter)
unfolding on_message handle HasRoom persist new_node
second_received =
    let fits : FitsRequestVote second_vote = record {
      term = omega arith;
      candidate_id = omega arith;
      last_log_index = omega arith;
      last_log_term = omega arith;
    } in
    received 3 (encode_request_vote second_vote)
      (rw (decode_message-encode_message (request_vote second_vote) fits) tt)
      (rw (decode_message-encode_message (request_vote second_vote) fits) refl)

voter_IsValid : IsValid voter.log
unfolding persist new_node
voter_IsValid = empty-IsValid

can_recover : CanRecover voter
unfolding persist new_node durable_size
can_recover = record {
  term = omega arith;
  vote = omega arith;
  log = record {
    base_index = omega arith;
    base_term = omega arith;
    count = omega arith;
    entries = tt;
  };
  memory = tt;
  valid = record { within = omega arith };
  disk = inl refl;
}

restart-crash_example :
    (t : Node) × ((crash voter >>= restart) ≡ done t
      × (t.current_term ≡ voter.current_term
          × (t.voted_for ≡ voter.voted_for × (t.log ≡ voter.log × IsWritten t))))
restart-crash_example = restart-crash voter (persist-IsWritten _) can_recover

abbrev entry : (t i : ℕ) → LogEntry
entry t i = record { term = t; index = i; cmd = cmd_get (7 ∷ []) }

abbrev two_entries : RaftLog
two_entries = record { entries = entry 1 1 ∷ entry 1 2 ∷ []; base_index = 0; base_term = 0 }

two_entries-IsValid : IsValid two_entries
two_entries-IsValid = record { consecutive = (refl, (refl, tt)); bounded = omega arith }

merge_entries-IsMerged_example :
    IsMerged 1
      (entry 2 2 ∷ entry 2 3 ∷ [])
      two_entries
      (merge_entries (entry 2 2 ∷ entry 2 3 ∷ []) two_entries)
merge_entries-IsMerged_example =
    merge_entries-IsMerged 1 (entry 2 2 ∷ entry 2 3 ∷ []) two_entries two_entries-IsValid
      (refl, (refl, tt)) (omega arith) (omega arith)

-- The conflicting entry is replaced.
merged :
    (merge_entries (entry 2 2 ∷ entry 2 3 ∷ []) two_entries).0.entries
    ≡ entry 1 1 ∷ entry 2 2 ∷ entry 2 3 ∷ []
unfolding merge_entries merge_entry append_to append truncate_from at
merged = refl

abbrev leading_node : Node
leading_node = record up_node {
  role = leader;
  current_term = 1;
  log = two_entries;
  match_index = (1, 2) ∷ (2, 1) ∷ (3, 0) ∷ [];
}

handle_request_vote_lem_example :
    IsAnswered 3 second_vote voter (handle_request_vote 3 second_vote voter)
unfolding persist new_node
handle_request_vote_lem_example = handle_request_vote_lem 3 second_vote voter refl

-- A put is committed and not yet applied.
abbrev behind_node : Node
behind_node = record leading_node {
  commit_index = 1;
  last_applied = 0;
  log = record {
    entries = record { term = 1; index = 1; cmd = cmd_put (7 ∷ []) (8 ∷ []) } ∷ [];
    base_index = 0;
    base_term = 0;
  };
}

apply_loop-IsLeftAt_example :
    IsLeftAt
      (record (executed_all behind_node.log.entries (view behind_node)) { applied = 1 })
      (apply_loop 3 behind_node)
unfolding at
apply_loop-IsLeftAt_example =
    apply_loop-IsLeftAt 3 behind_node.log.entries behind_node (omega arith) (omega arith)
      (omega arith) (refl, tt) (omega arith)

apply_loop-enough_example : apply_loop 9 behind_node ≡ apply_loop 1 behind_node
apply_loop-enough_example = apply_loop-enough 9 behind_node (omega arith) (omega arith)

abbrev read : (round acks : ℕ) → PendingRead
read round acks = record {
  round = round;
  read_index = 1;
  key = [];
  cb = round;
  acks = acks;
  timeout_id = 7;
}

-- Of two reads the first has a quorum.
abbrev reading_node : Node
reading_node = record leading_node { last_applied = 1; pending_reads = read 1 2 ∷ read 2 1 ∷ [] }

drain_pending_reads_lem_example :
    ((drain_pending_reads reading_node).pending_reads ≡ waiting 2 1 (read 1 2 ∷ read 2 1 ∷ []))
    × ((drain_pending_reads reading_node).effects
        ≡ answers 2 1 (record { entries = [] }) (read 1 2 ∷ read 2 1 ∷ []) ++ [])
unfolding new_node
drain_pending_reads_lem_example = drain_pending_reads_lem reading_node

drained : (drain_pending_reads reading_node).pending_reads ≡ read 2 1 ∷ []
unfolding new_node drain_pending_reads drain_loop drain_read
drained = refl
