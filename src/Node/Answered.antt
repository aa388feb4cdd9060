-- ===== src/Node/Answered.antt =====
-- Which reads RaftNode::drain_pending_reads answers (raft/node.cpp).
use sim_kv.Prelude.{
  ℕ, ◌≡◌, refl, ◌∙◌, ap, sym, List, [], ◌∷◌, ◌++◌, Bool, true, ◌&&◌, Bool-cases, inl, inr, leb,
  if◌then◌else◌, append_assoc, append-nil,
}
use sim_kv.Types.{Index}
use sim_kv.KvStore
use sim_kv.KvStore.{KvStore}
use sim_kv.Node.{Node, PendingRead, Effect, cancel, read_result, emit, quorum}
use sim_kv.Node.Reads.{drain_read, drain_loop, drain_pending_reads}

-- A read that a quorum has acknowledged, at an index that is applied.
abbrev pub is_ready : ℕ → Index → PendingRead → Bool
is_ready q applied pr = leb q pr.acks && leb pr.read_index applied

-- The reads that are not ready, in their order.
unfoldable pub waiting : ℕ → Index → List PendingRead → List PendingRead
waiting q applied [] = []
waiting q applied (pr ∷ prs) =
    let rest = waiting q applied prs in if is_ready q applied pr then rest else pr ∷ rest

-- For each ready read its timer is cancelled, and its caller gets the value in the store; the last
-- answer comes first.
unfoldable pub answers : ℕ → Index → KvStore → List PendingRead → List Effect
answers q applied kv [] = []
answers q applied kv (pr ∷ prs) =
    let rest = answers q applied kv prs in
    if is_ready q applied pr
    then rest ++ (read_result pr.cb true (KvStore.get pr.key kv) ∷ cancel pr.timeout_id ∷ [])
    else rest

drain_loop-cons :
    (pr : PendingRead) (prs : List PendingRead) (s : Node)
    → drain_loop (pr ∷ prs) s ≡ drain_loop prs (drain_read pr s)
unfolding drain_loop
drain_loop-cons pr prs s = refl

drain_loop_lem :
    (prs : List PendingRead) (s : Node)
    → ((drain_loop prs s).pending_reads ≡ s.pending_reads ++ waiting (quorum s) s.last_applied prs)
      × ((drain_loop prs s).effects ≡ answers (quorum s) s.last_applied s.kv prs ++ s.effects)
unfolding waiting answers
drain_loop_lem [] s = unfold drain_loop in (sym (append-nil s.pending_reads), refl)
drain_loop_lem (pr ∷ prs) s = elim (Bool-cases (is_ready (quorum s) s.last_applied pr)) [
  | inl ready ↦
      (let answered : Node =
          emit (read_result pr.cb true (KvStore.get pr.key s.kv)) (emit (cancel pr.timeout_id) s) in
        let step : drain_read pr s ≡ answered = unfold drain_read in rw ready refl in
        let loop = drain_loop-cons pr prs s ∙ ap (drain_loop prs) step in
        let (reads, told) = drain_loop_lem prs answered in
        let last = read_result pr.cb true (KvStore.get pr.key s.kv) ∷ cancel pr.timeout_id ∷ [] in
        rw (loop, ready)
          (
            reads,
            told ∙ sym (append_assoc (answers (quorum s) s.last_applied s.kv prs) last s.effects),
          ))
  | inr waits ↦
      (let kept : Node = record s { pending_reads = s.pending_reads ++ pr ∷ [] } in
        let step : drain_read pr s ≡ kept = unfold drain_read in rw waits refl in
        let loop = drain_loop-cons pr prs s ∙ ap (drain_loop prs) step in
        let (reads, told) = drain_loop_lem prs kept in
        rw (loop, waits)
          (
            reads ∙ append_assoc s.pending_reads (pr ∷ []) (waiting (quorum s) s.last_applied prs),
            told,
          ))
]

-- The reads that a quorum has acknowledged at an applied index are answered with the value in the
-- store, their timers cancelled, in their order; all others wait on in theirs, and nothing else is
-- asked or told.
pub drain_pending_reads_lem :
    (s : Node)
    → ((drain_pending_reads s).pending_reads ≡ waiting (quorum s) s.last_applied s.pending_reads)
      × ((drain_pending_reads s).effects
          ≡ answers (quorum s) s.last_applied s.kv s.pending_reads ++ s.effects)
unfolding drain_pending_reads
drain_pending_reads_lem s = drain_loop_lem s.pending_reads (record s { pending_reads = [] })
