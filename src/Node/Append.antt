-- ===== src/Node/Append.antt =====
-- AppendEntries at a follower, and its reply at the leader (raft/node.cpp).
use sim_kv.Prelude.{
  List, [], ◌∷◌, true, false, Option, none, some, ltb, leb, ◌==◌, not, if◌then◌else◌, min, max,
  add64, sub64,
}
use sim_kv.Result.{Result, ok, err, Error}
use sim_kv.OrdMap.{put, nat_ord}
use sim_kv.Types.{Term, Index, NodeId, LogEntry}
use sim_kv.Log.{RaftLog, last_index, append, truncate_from, at, contains, last_index_for_term}
use sim_kv.Rpc.{AppendEntries, AppendEntriesReply}
use sim_kv.Rpc.Replication.{encode_append_entries_reply}
use sim_kv.Node.{Node, Clock, Outcome, done, threw, ◌>>=◌, with_value, emit, send, at_key}
use sim_kv.Node.Persistence.{persist}
use sim_kv.Node.Roles.{is_leader, become_follower, follow}
use sim_kv.Node.Replication.{replicate_to}
use sim_kv.Node.Commit.{apply_committed_entries, maybe_advance_commit_index}

-- A log, and what was thrown on the way to it.
abbrev pub Merge : Type 0
Merge = RaftLog × Option Error

unfoldable pub append_to : LogEntry → RaftLog → Merge
append_to e l = elim (append e l) [ ok l' ↦ (l', none) | err x ↦ (l, some x) ]

-- one round of the loop over the entries in RaftNode::handle_append_entries
unfoldable pub merge_entry : LogEntry → RaftLog → Merge
unfolding append_to
merge_entry e l =
    if leb e.index (last_index l)
    then (if leb e.index l.base_index then (l, none) else elim (at e.index l) [
      | ok held ↦ (if held.term == e.term then (l, none) else append_to e (truncate_from e.index l))
      | err x ↦ (l, some x)
    ])
    else append_to e l

abbrev pub merge_then : Merge → (RaftLog → Merge) → Merge
merge_then (l, none) f = f l
merge_then (l, some x) f = (l, some x)

-- that loop
unfoldable pub merge_entries : List LogEntry → RaftLog → Merge
merge_entries [] l = (l, none)
merge_entries (e ∷ es) l = merge_then (merge_entry e l) (merge_entries es)

-- the reply where the prevLog check fails
unfoldable pub conflict : Term → Index → RaftLog → Result AppendEntriesReply
conflict term prev l =
    if ltb (last_index l) prev
    then ok (record {
      term = term;
      success = false;
      conflict_index = add64 (last_index l) 1;
      conflict_term = 0;
    })
    else if ltb l.base_index prev
    then elim (at prev l) [
      | ok e ↦ ok (record {
        term = term;
        success = false;
        conflict_index =
            if last_index_for_term e.term l == 0 then 1 else last_index_for_term e.term l;
        conflict_term = e.term;
      })
      | err x ↦ err x
    ]
    else ok (record {
      term = term;
      success = false;
      conflict_index = add64 l.base_index 1;
      conflict_term = 0;
    })

abbrev pub reply_append : NodeId → AppendEntriesReply → Node → Node
reply_append to reply s = emit (send to (encode_append_entries_reply reply)) s

-- where the leader goes back to after a conflict
unfoldable pub back_up : AppendEntriesReply → RaftLog → Index
back_up aer l =
    let last_in_term = last_index_for_term aer.conflict_term l in
    let next =
      if aer.conflict_term == 0
      then aer.conflict_index
      else if ltb 0 last_in_term
      then add64 last_in_term 1
      else aer.conflict_index in
    if ltb next 1 then 1 else next

module _ ⦃clk : Clock⦄ where
  -- the end of RaftNode::handle_append_entries, after the entries
  unfoldable pub accept_commit : Index → Node → Outcome
  accept_commit leader_commit s =
      if ltb s.commit_index leader_commit
      then apply_committed_entries
          (record s { commit_index = min leader_commit (last_index s.log) })
      else done s

  unfoldable pub merge_outcome : NodeId → Index → Node → Merge → Outcome
  merge_outcome from leader_commit s (l, some x) = threw x (record s { log = l })
  merge_outcome from leader_commit s (l, none) =
      accept_commit leader_commit (persist (record s { log = l })) >>= (λ s'. done (
        reply_append from
          (record { term = s'.current_term; success = true; conflict_index = 0; conflict_term = 0 })
          s'))

  -- RaftNode::handle_append_entries. The reply of a failed prevLog check carries the term from before
  -- the step down, as the source initialises it.
  unfoldable pub handle_append_entries : NodeId → AppendEntries → Node → Outcome
  handle_append_entries from ae s =
      let current = follow ae.term from s in
      if ltb ae.term s.current_term
      then done (
          reply_append from
            (record {
              term = s.current_term;
              success = false;
              conflict_index = 0;
              conflict_term = 0;
            })
            s)
      else if contains ae.prev_log_index ae.prev_log_term current.log
      then merge_outcome from ae.leader_commit current (merge_entries ae.entries current.log)
      else with_value (conflict s.current_term ae.prev_log_index current.log) current
          λ reply. done (reply_append from reply current)

  -- RaftNode::handle_append_entries_reply
  unfoldable pub handle_append_entries_reply : NodeId → AppendEntriesReply → Node → Outcome
  handle_append_entries_reply from aer s =
      let new_match = sub64 (at_key from s.next_index) 1 in
      let matched = max (at_key from s.match_index) new_match in
      if not (is_leader s.role)
      then done s
      else if ltb s.current_term aer.term
      then done (become_follower aer.term none s)
      else if ltb aer.term s.current_term
      then done s
      else if aer.success
      then maybe_advance_commit_index (record s {
        match_index = put from matched s.match_index;
        next_index = put from (add64 matched 1) s.next_index;
      })
      else replicate_to from (record s { next_index = put from (back_up aer s.log) s.next_index })
