-- ===== src/Rpc.antt =====
-- raft/rpc.hpp: the messages between nodes and clients. Their bytes (raft/rpc.cpp) are in the
-- modules below, by the part of the protocol they serve.
pub mod Vote
pub mod Replication
pub mod Client
pub mod Reads
pub mod Dispatch
mod Tests
use sim_kv.Prelude.{ℕ, List, Bool}
use sim_kv.Types.{Term, Index, NodeId, Bytes, Command, CmdResult, LogEntry}

pub record RequestVote : Type 0 where
  pub term : Term
  pub candidate_id : NodeId
  pub last_log_index : Index
  pub last_log_term : Term

pub record RequestVoteReply : Type 0 where
  pub term : Term
  pub vote_granted : Bool

pub record AppendEntries : Type 0 where
  pub term : Term
  pub leader_id : NodeId
  pub prev_log_index : Index
  pub prev_log_term : Term
  pub entries : List LogEntry
  pub leader_commit : Index

pub record AppendEntriesReply : Type 0 where
  pub term : Term
  pub success : Bool
  pub conflict_index : Index
  pub conflict_term : Term

pub record ClientRequest : Type 0 where
  pub client_id : ℕ
  pub request_id : ℕ
  pub cmd : Command

pub record ClientReply : Type 0 where
  pub client_id : ℕ
  pub request_id : ℕ
  pub success : Bool
  pub result : CmdResult
  pub leader_hint : NodeId

-- the field `data` is `snapshot` here
pub record InstallSnapshot : Type 0 where
  pub term : Term
  pub leader_id : NodeId
  pub last_included_index : Index
  pub last_included_term : Term
  pub snapshot : Bytes

pub record InstallSnapshotReply : Type 0 where
  pub term : Term
  pub last_included_index : Index

pub record ReadIndexRequest : Type 0 where
  pub term : Term
  pub leader_id : NodeId
  pub round : ℕ

pub record ReadIndexReply : Type 0 where
  pub term : Term
  pub round : ℕ
