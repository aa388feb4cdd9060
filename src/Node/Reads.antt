-- ===== src/Node/Reads.antt =====
-- Linearizable reads by read-index (raft/node.cpp): the reads that wait for a quorum's acks.
use sim_kv.Prelude.{
  ℕ, List, [], ◌∷◌, ◌++◌, true, false, ◌&&◌, none, leb, ◌==◌, if◌then◌else◌, add64,
}
use sim_kv.KvStore
use sim_kv.Node.{Node, PendingRead, emit, cancel, read_result, quorum}

-- one round of the loop of RaftNode::drain_pending_reads
unfoldable pub drain_read : PendingRead → Node → Node
drain_read pr s =
    if leb (quorum s) pr.acks && leb pr.read_index s.last_applied
    then emit (read_result pr.cb true (KvStore.get pr.key s.kv)) (emit (cancel pr.timeout_id) s)
    else record s { pending_reads = s.pending_reads ++ pr ∷ [] }

unfoldable pub drain_loop : List PendingRead → Node → Node
unfolding drain_read
drain_loop [] s = s
drain_loop (pr ∷ prs) s = drain_loop prs (drain_read pr s)

-- RaftNode::drain_pending_reads: the reads that stay are put back in their order
unfoldable pub drain_pending_reads : Node → Node
unfolding drain_loop
drain_pending_reads s = drain_loop s.pending_reads (record s { pending_reads = [] })

unfoldable pub cancel_loop : List PendingRead → Node → Node
cancel_loop [] s = s
cancel_loop (pr ∷ prs) s =
    cancel_loop prs (emit (read_result pr.cb false none) (emit (cancel pr.timeout_id) s))

-- RaftNode::cancel_pending_reads
unfoldable pub cancel_pending_reads : Node → Node
unfolding cancel_loop
cancel_pending_reads s = record (cancel_loop s.pending_reads s) { pending_reads = [] }

-- the ack of a round, to the first read that waits for it
unfoldable pub ack : ℕ → List PendingRead → List PendingRead
ack round [] = []
ack round (pr ∷ prs) =
    if pr.round == round then record pr { acks = add64 pr.acks 1 } ∷ prs else pr ∷ ack round prs

-- the lambda of a read's timeout
unfoldable pub expire_loop : ℕ → List PendingRead → List PendingRead → Node → Node
expire_loop round before [] s = s
expire_loop round before (pr ∷ prs) s =
    let rest = expire_loop round (before ++ pr ∷ []) prs s in
    if pr.round == round
    then record (emit (read_result pr.cb false none) s) { pending_reads = before ++ prs }
    else rest

unfoldable pub expire_read : ℕ → Node → Node
unfolding expire_loop
expire_read round s = expire_loop round [] s.pending_reads s
