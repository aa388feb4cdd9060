-- ===== src/Node/Commits.antt =====
-- Which index RaftNode::maybe_advance_commit_index commits (raft/node.cpp).
use sim_kv.Prelude.{List, [], ◌∷◌, if◌then◌else◌, length, ◌*◌, suc, ◌<◌, ◌≤◌, ◌≡◌, leb}
use sim_kv.Result.{ok}
use sim_kv.OrdMap.{OrdMap}
use sim_kv.Types.{Index, NodeId, LogEntry}
use sim_kv.Log.{at}
use sim_kv.Node.{Node}

-- The nodes that the leader knows to have the log up to an index.
abbrev pub holders : Index → OrdMap NodeId Index → List NodeId
holders n [] = []
holders n ((peer, held) ∷ m) = if leb n held then peer ∷ holders n m else holders n m

-- An index that may be committed: more than half of the members, the peers and the leader itself, are
-- known to have it, and its entry is of the current term.
pub record IsCommittable (s : Node) (n : Index) : Type 0 where
  pub above : s.commit_index < n
  pub base : s.log.base_index < n
  pub entry : LogEntry
  pub held : at n s.log ≡ ok entry
  pub term : entry.term ≡ s.current_term
  pub majority : suc (length s.peers) < 2 * length (holders n s.match_index)

-- The greatest committable index up to `n`.
pub record IsGreatest (s : Node) (n m : Index) : Type 0 where
  pub committable : IsCommittable s m
  pub within : m ≤ n
  pub greatest : (k : Index) → m < k → k ≤ n → ¬ (IsCommittable s k)
