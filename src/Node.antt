-- ===== src/Node.antt =====
-- raft/node.hpp: the state of a RaftNode. A method is a function from the state to the state, or to
-- an `Outcome` where it may throw. What a node asks of its clock, its transport and the callbacks of
-- its callers is added to `effects`, newest first.
pub mod Timers
pub mod Persistence
pub mod Reads
pub mod Roles
pub mod Replication
pub mod Commit
pub mod Election
pub mod Append
pub mod Install
pub mod Client
pub mod Lifecycle
pub mod Dispatch
pub mod Frame
pub mod Kept
pub mod Merged
pub mod Keeps
pub mod Handled
pub mod Served
pub mod Durable
pub mod Histories
pub mod Down
pub mod Recovery
pub mod Runs
pub mod Commits
pub mod Votes
pub mod Ballot
pub mod Merging
pub mod Applied
pub mod Answered
mod Tests
use sim_kv.Prelude.{ℕ, ◌+◌, ◌/◌, List, [], ◌∷◌, Bool, Option, none, some, length}
use sim_kv.Result.{Result, ok, err, Error}
use sim_kv.OrdMap.{OrdMap, find, put, nat_ord}
use sim_kv.Types.{
  Term, Index, NodeId, Bytes, Command, cmd_add_server, cmd_remove_server, CmdResult, Role,
}
use sim_kv.DurableStore.{DurableStore}
use sim_kv.KvStore.{KvStore}
use sim_kv.Log.{RaftLog}

pub record RaftConfig : Type 0 where
  pub election_timeout_lo : ℕ
  pub heartbeat_interval : ℕ
  pub client_timeout : ℕ
  pub max_entries_per_ae : ℕ
  pub snapshot_threshold : ℕ
  pub read_timeout : ℕ
  pub bug_commit_prior_term : Bool
  pub bug_skip_vote_uptodate : Bool

-- A ClientCallback: the lambda of handle_client_request with what it captures, or one that a caller
-- of `submit` passed.
pub data ClientCallback : Type 0 where
  reply_to : (client : NodeId) (client_id request_id : ℕ) → ClientCallback
  caller : ℕ → ClientCallback

-- `cb` names the ReadCallback that a caller of `read_index` passed.
pub record PendingRead : Type 0 where
  pub round : ℕ
  pub read_index : Index
  pub key : Bytes
  pub cb : ℕ
  pub acks : ℕ
  pub timeout_id : ℕ

-- The lambdas that a node hands to its clock.
pub data Timer : Type 0 where
  election : (generation : ℕ) → Timer
  heartbeat : Timer
  read_expiry : (round : ℕ) → Timer

pub data Effect : Type 0 where
  send : (to : NodeId) → Bytes → Effect
  draw : (lo hi : ℕ) → Effect
  schedule : (delay : ℕ) → Timer → Effect
  cancel : (event_id : ℕ) → Effect
  client_result : (cb : ℕ) → CmdResult → Effect
  read_result : (cb : ℕ) → Bool → Option Bytes → Effect
  state_change : Role → Term → Effect
  set_handler : Effect
  remove_handler : Effect

-- What IClock answers, given all that the node asked before: the id of a scheduled event, and a
-- number drawn from a range.
pub record Clock : Type 0 where
  pub event_id : List Effect → ℕ
  pub random_range : List Effect → ℕ → ℕ → ℕ

pub record Node : Type 0 where
  pub id : NodeId
  pub peers : List NodeId
  pub cfg : RaftConfig
  pub running : Bool
  pub current_term : Term
  pub voted_for : Option NodeId
  pub log : RaftLog
  pub meta_store : DurableStore
  pub log_store : DurableStore
  pub snapshot_store : DurableStore
  pub snap_last_index : Index
  pub snap_last_term : Term
  pub snap_data : Bytes
  pub role : Role
  pub commit_index : Index
  pub last_applied : Index
  pub leader_id : Option NodeId
  pub kv : KvStore
  pub votes_received : OrdMap NodeId (Unit {0})
  pub next_index : OrdMap NodeId Index
  pub match_index : OrdMap NodeId Index
  pub pending_clients : OrdMap Index (ClientCallback × NodeId)
  pub pending_reads : List PendingRead
  pub next_read_round : ℕ
  pub election_timeout_id : ℕ
  pub election_scheduled : Bool
  pub election_generation : ℕ
  pub heartbeat_id : ℕ
  pub heartbeat_scheduled : Bool
  pub election_term : Term
  pub vote_count : ℕ
  pub config_change_pending : Bool
  pub effects : List Effect

-- What was assigned before an exception stays assigned.
pub data Outcome : Type 0 where
  done : Node → Outcome
  threw : Error → Node → Outcome

infixl 5 ◌>>=◌
abbrev pub ◌>>=◌ : Outcome → (Node → Outcome) → Outcome
done s >>= f = f s
threw e s >>= f = threw e s

-- The state that an outcome leaves.
abbrev pub left : Outcome → Node
left (done s) = s
left (threw e s) = s

-- A call of a function without state that may throw.
unfoldable pub with_value {ℓ} : {A : Type ℓ} → Result A → Node → (A → Outcome) → Outcome
with_value (ok a) s k = k a
with_value (err e) s k = threw e s

abbrev pub emit : Effect → Node → Node
emit e s = record s { effects = e ∷ s.effects }

-- RaftNode::quorum
abbrev pub quorum : Node → ℕ
quorum s = (length s.peers + 1) / 2 + 1

-- std::map::operator[] on a missing key makes an entry with the value 0.
abbrev pub value_or_zero : Option ℕ → ℕ
value_or_zero none = 0
value_or_zero (some v) = v

abbrev pub at_key : NodeId → OrdMap NodeId Index → Index
at_key k m = value_or_zero (find k m)

abbrev pub touch : NodeId → OrdMap NodeId Index → OrdMap NodeId Index
touch k m = put k (at_key k m) m

abbrev pub is_config : Command → Bool
is_config (cmd_add_server id) = Bool.true
is_config (cmd_remove_server id) = Bool.true
is_config _ = Bool.false
