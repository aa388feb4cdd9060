-- ===== src/Node/Commit.antt =====
-- Advancing the commit index, applying what is committed, snapshots and membership (raft/node.cpp).
use sim_kv.Prelude.{
  ℕ, zero, suc, ◌-◌, List, [], ◌∷◌, ◌++◌, Bool, true, false, not, ◌&&◌, ◌||◌, none, some, ltb, leb,
  ◌==◌, if◌then◌else◌, length, add64,
}
use sim_kv.OrdMap.{OrdMap, find, put, erase, nat_ord}
use sim_kv.Types.{Index, NodeId, Command, cmd_add_server, cmd_remove_server, CmdResult}
use sim_kv.KvStore
use sim_kv.KvStore.{KvStore}
use sim_kv.KvStore.Snapshot.{encode_snapshot}
use sim_kv.Log.{last_index, at, term_at, set_snapshot}
use sim_kv.Rpc.Client.{encode_client_reply}
use sim_kv.Node.{
  Node, Clock, ClientCallback, reply_to, caller, Outcome, done, ◌>>=◌, with_value, emit, send,
  client_result, quorum, is_config,
}
use sim_kv.Node.Persistence.{persist, save_snapshot}
use sim_kv.Node.Reads.{drain_pending_reads}
use sim_kv.Node.Roles.{is_leader, become_follower}
use sim_kv.Node.Replication.{replicate_to}

-- RaftNode::take_snapshot
unfoldable pub take_snapshot : Node → Outcome
take_snapshot s =
    if leb s.last_applied s.snap_last_index
    then done s
    else with_value (term_at s.last_applied s.log) s λ snap_term. done (
        persist (
          save_snapshot (record s {
            snap_data = encode_snapshot s.kv;
            snap_last_index = s.last_applied;
            snap_last_term = snap_term;
            log = set_snapshot s.last_applied snap_term s.log;
          })))

abbrev pub mem_id : NodeId → List NodeId → Bool
mem_id x [] = false
mem_id x (y ∷ ys) = x == y || mem_id x ys

-- std::sort of peers_ after one more element
abbrev pub insert_id : NodeId → List NodeId → List NodeId
insert_id x [] = x ∷ []
insert_id x (y ∷ ys) = if leb x y then x ∷ y ∷ ys else y ∷ insert_id x ys

-- std::sort of peers_
abbrev pub sort_ids : List NodeId → List NodeId
sort_ids [] = []
sort_ids (x ∷ xs) = insert_id x (sort_ids xs)

abbrev pub remove_id : NodeId → List NodeId → List NodeId
remove_id x [] = []
remove_id x (y ∷ ys) = let rest = remove_id x ys in if y == x then rest else y ∷ rest

-- A call of the callback of a client's command.
unfoldable pub run_callback : ClientCallback → CmdResult → Node → Node
run_callback (reply_to client client_id request_id) result s =
    emit
      (send client (
        encode_client_reply (record {
          client_id = client_id;
          request_id = request_id;
          success = true;
          result = result;
          leader_hint = s.id;
        })))
      s
run_callback (caller cb) result s = emit (client_result cb result) s

-- the answer to the client that waits for the entry at `last_applied`
unfoldable pub answer_client : CmdResult → Node → Node
answer_client result s = elim (find s.last_applied s.pending_clients) [
  | none ↦ s
  | some (cb, client) ↦ record (run_callback cb result s) {
    pending_clients = erase s.last_applied s.pending_clients;
  }
]

abbrev pub count_at_least : Index → OrdMap NodeId Index → ℕ
count_at_least n [] = 0
count_at_least n ((peer, mi) ∷ m) =
    if leb n mi then suc (count_at_least n m) else count_at_least n m

module _ ⦃clk : Clock⦄ where
  -- RaftNode::apply_membership_change
  unfoldable pub apply_membership_change : Command → Node → Outcome
  apply_membership_change (cmd_add_server new_id) s =
      let s' = record s { peers = sort_ids (s.peers ++ new_id ∷ []) } in
      if not (mem_id new_id s.peers) && not (new_id == s.id)
      then (if is_leader s.role
          then replicate_to new_id (record s' {
            next_index = put new_id (add64 (last_index s.log) 1) s.next_index;
            match_index = put new_id 0 s.match_index;
          })
          else done s')
      else done s
  apply_membership_change (cmd_remove_server rem_id) s =
      let s' = record s {
        peers = remove_id rem_id s.peers;
        next_index = erase rem_id s.next_index;
        match_index = erase rem_id s.match_index;
      } in
      if rem_id == s.id && is_leader s.role
      then done (become_follower s.current_term none s')
      else done s'
  apply_membership_change _ s = done s

  -- the membership part of the loop in RaftNode::apply_committed_entries
  unfoldable pub apply_config : Command → Node → Outcome
  apply_config cmd s =
      if is_config cmd
      then apply_membership_change cmd s
        >>= (λ s'. done (record s' { config_change_pending = false }))
      else done s

  -- one round of that loop
  unfoldable pub apply_next : Node → Outcome
  apply_next s =
      let s' = record s { last_applied = add64 s.last_applied 1 } in
      if leb s'.last_applied s.log.base_index
      then done s'
      else with_value (at s'.last_applied s.log) s' λ entry.
        let (result, kv') = KvStore.apply entry.cmd s.kv in
        apply_config entry.cmd (record s' { kv = kv' }) >>= (λ s''. done (answer_client result s''))

  -- the loop, with the rounds that are left at most
  unfoldable pub apply_loop : ℕ → Node → Outcome
  apply_loop zero s = done s
  apply_loop (suc rounds) s =
      let rest = apply_next s >>= apply_loop rounds in
      if ltb s.last_applied s.commit_index then rest else done s

  -- RaftNode::apply_committed_entries
  unfoldable pub apply_committed_entries : Node → Outcome
  apply_committed_entries s = apply_loop (s.commit_index - s.last_applied) s >>= (λ applied.
      let drained = drain_pending_reads applied in
      if ltb 0 drained.cfg.snapshot_threshold
        && ltb drained.cfg.snapshot_threshold (length drained.log.entries)
      then take_snapshot drained
      else done drained)

  -- the test of one index in RaftNode::maybe_advance_commit_index
  unfoldable pub try_commit : Index → Node → (Node → Outcome) → Outcome
  try_commit n s continue =
      if leb (quorum s) (count_at_least n s.match_index)
      then apply_committed_entries (record s { commit_index = n })
      else continue s

  -- one round of its loop; `continue` is the loop from the index below
  unfoldable pub advance_at : Index → (Node → Outcome) → Node → Outcome
  unfolding try_commit
  advance_at n continue s =
      if leb n s.commit_index || leb n s.log.base_index
      then done s
      else if s.cfg.bug_commit_prior_term
      then try_commit n s continue
      else with_value (at n s.log) s
          λ e. if e.term == s.current_term then try_commit n s continue else continue s

  -- its loop, from `n` down
  unfoldable pub advance_loop : Index → Node → Outcome
  advance_loop zero s = done s
  advance_loop (suc k) s = advance_at (suc k) (advance_loop k) s

  -- RaftNode::maybe_advance_commit_index
  unfoldable pub maybe_advance_commit_index : Node → Outcome
  maybe_advance_commit_index s = advance_loop (last_index s.log) s
