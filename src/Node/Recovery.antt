-- ===== src/Node/Recovery.antt =====
-- What a node comes back with from a crash and a restart (raft/node.cpp: crash, restart, start).
use sim_kv.Prelude.{
  ◌-◌, ◌<◌, ◌≡◌, refl, sym, ◌∙◌, ap, List, [], ◌∷◌, Option, none, some, true, false, ◌⊎◌, inl, inr,
  ◌==◌, length, length-take, subst, arith, IsU32, IsU64, append-nil, Bool-cases,
}
use sim_kv.Result.{ok}
use sim_kv.Types.{Term, Index, NodeId, Bytes}
use sim_kv.Codec.{u64}
use sim_kv.Codec.RoundTrip.{u64_then, u32_then, slice_then}
use sim_kv.DurableStore
use sim_kv.DurableStore.{DurableStore, read_durable, durable_size}
use sim_kv.DurableStore.Laws
use sim_kv.DurableStore.Laws.{read_durable-crash, crash-IsValid}
use sim_kv.KvStore
use sim_kv.KvStore.{KvStore}
use sim_kv.Log
use sim_kv.Log.{RaftLog, set_snapshot, encode_log, load_from}
use sim_kv.Log.Storage.{FitsLog, load_from-encode_log}
use sim_kv.Node.{Node, Clock, PendingRead, done, ◌>>=◌, with_value, emit, set_handler}
use sim_kv.Node.Timers.{schedule_election_timeout}
use sim_kv.Node.Persistence.{encode_meta, decode_meta, encode_snap, decode_snap, load_snapshot}
use sim_kv.Node.Commit.{apply_loop, apply_committed_entries, take_snapshot}
use sim_kv.Node.Reads.{drain_pending_reads, drain_loop}
use sim_kv.Node.Lifecycle.{load_meta, load_log, crash, start, restart}
use sim_kv.Node.Frame.{schedule_election_timeout-SameHard}
use sim_kv.Node.Durable.{IsWritten, FitsVote, decode_meta-encode_meta}
use sim_kv.Node.Down.{HoldsSnapshot, CanRecover, crash-done}

decode_snap-encode_snap :
    (i : Index) (t : Term) (snapshot : Bytes)
    → IsU64 i
    → IsU64 t
    → IsU32 (length snapshot)
    → decode_snap (encode_snap i t snapshot) ≡ ok (i, t, snapshot)
unfolding decode_snap encode_snap
decode_snap-encode_snap i t snapshot hi ht hd =
    u64_then i _ _ hi
    ∙ (u64_then t _ _ ht
        ∙ (u32_then (length snapshot) _ _ hd
            ∙ (rw append-nil at (
                slice_then {B = Index × Term × Bytes} (length snapshot) snapshot []
                  (λ (read, bs). ok (i, t, read)) refl))))

not_empty :
    (d : DurableStore) {bs : Bytes}
    → read_durable d ≡ bs
    → 0 < length bs
    → (durable_size d == 0) ≡ false
unfolding read_durable durable_size
not_empty d e h = ground (arith, length-take d.flushed_end d.content, ap length e)

encode_meta_long : (term : Term) (vote : Option NodeId) → 0 < length (encode_meta term vote)
unfolding encode_meta u64
encode_meta_long term none = omega arith
encode_meta_long term (some c) = omega arith

encode_log_long : (l : RaftLog) → 0 < length (encode_log l)
unfolding encode_log u64
encode_log_long l = omega arith

-- The state after the snapshot is loaded: nothing is left to apply.
record IsLoaded (s t : Node) : Type 0 where
  meta_store : t.meta_store ≡ s.meta_store
  log_store : t.log_store ≡ s.log_store
  vote : t.voted_for ≡ s.voted_for
  commit_index : t.commit_index ≡ t.snap_last_index
  last_applied : t.last_applied ≡ t.snap_last_index
  reads : t.pending_reads ≡ s.pending_reads

load_snapshot-done :
    (s : Node)
    → (durable_size s.snapshot_store ≡ 0) ⊎ HoldsSnapshot s.snapshot_store
    → s.commit_index ≡ s.snap_last_index
    → s.last_applied ≡ s.snap_last_index
    → (t : Node) × (load_snapshot s ≡ done t × IsLoaded s t)
unfolding load_snapshot with_value
load_snapshot-done s (inl empty) hc hl = (s, (rw empty, ground arith))
load_snapshot-done s (inr h) hc hl = elim (Bool-cases (durable_size s.snapshot_store == 0)) [
  | inl empty ↦ (s, (rw empty, ground arith))
  | inr held ↦
      (let read =
          decode_snap-encode_snap h.index h.term h.snapshot h.index_fits h.term_fits h.data_fits in
        let bytes = h.bytes in
        let readable = h.readable in
        let loaded : Node = record s {
          snap_last_index = h.index;
          snap_last_term = h.term;
          snap_data = h.snapshot;
          kv = h.kv;
          commit_index = h.index;
          last_applied = h.index;
          log = set_snapshot h.index h.term s.log;
        } in
        (loaded, (rw (held, bytes, read, readable), ground arith)))
]

load_meta-done :
    (term : Term) (vote : Option NodeId) (s : Node)
    → IsU64 term
    → FitsVote vote
    → none ≡ s.voted_for
    → read_durable s.meta_store ≡ encode_meta term vote
    → load_meta s ≡ done (record s { current_term = term; voted_for = vote })
unfolding load_meta with_value
load_meta-done term vote s ht hv none_yet bytes =
    let held = not_empty s.meta_store bytes (encode_meta_long term vote) in
    rw (
      held,
      bytes,
      subst (λ (v : Option NodeId). decode_meta v (encode_meta term vote) ≡ ok (term, vote))
          none_yet (decode_meta-encode_meta term vote ht hv),
    )

load_log-done :
    (l : RaftLog) (s : Node)
    → FitsLog l
    → read_durable s.log_store ≡ encode_log l
    → load_log s ≡ done (record s { log = l })
unfolding load_log with_value
load_log-done l s h bytes =
    let held = not_empty s.log_store bytes (encode_log_long l) in
    rw (held, bytes, load_from-encode_log l s.log h)

drain_empty : (prs : List PendingRead) (s : Node) → prs ≡ [] → drain_loop prs s ≡ s
unfolding drain_loop
drain_empty [] s e = refl
drain_empty (pr ∷ prs) s e = ground arith

drain_none : (s : Node) → s.pending_reads ≡ [] → drain_pending_reads s ≡ s
unfolding drain_pending_reads
drain_none s e =
    drain_empty s.pending_reads _ e ∙ ap (λ prs. record s { pending_reads = prs }) (sym e)

snapshot_none : (s : Node) → s.last_applied ≡ s.snap_last_index → take_snapshot s ≡ done s
unfolding take_snapshot
snapshot_none s e = ground arith

-- Nothing is applied, and no snapshot is taken, while the log is applied as far as the snapshot.
apply_nothing :
    ⦃clk : Clock⦄ (s : Node)
    → s.commit_index ≡ s.snap_last_index
    → s.last_applied ≡ s.snap_last_index
    → s.pending_reads ≡ []
    → apply_committed_entries s ≡ done s
unfolding apply_committed_entries apply_loop
apply_nothing s hc hl hr =
    let level : s.commit_index - s.last_applied ≡ 0 = omega arith in
    let none_taken = snapshot_none s hl in
    let none_drained = drain_none s hr in rw (level, none_drained, none_taken) (ground arith)

-- What a start leaves of what it read.
record IsUp (s : Node) (n : Term) (v : Option NodeId) (l : RaftLog) (t : Node) : Type 0 where
  term : t.current_term ≡ n
  vote : t.voted_for ≡ v
  log : t.log ≡ l
  meta_store : t.meta_store ≡ s.meta_store
  log_store : t.log_store ≡ s.log_store

start-done :
    ⦃clk : Clock⦄ (term : Term) (vote : Option NodeId) (l : RaftLog) (s : Node)
    → IsU64 term
    → FitsVote vote
    → FitsLog l
    → (durable_size s.snapshot_store ≡ 0) ⊎ HoldsSnapshot s.snapshot_store
    → s.commit_index ≡ s.snap_last_index
    → s.last_applied ≡ s.snap_last_index
    → s.pending_reads ≡ []
    → none ≡ s.voted_for
    → read_durable s.meta_store ≡ encode_meta term vote
    → read_durable s.log_store ≡ encode_log l
    → (t : Node) × (start s ≡ done t × IsUp s term vote l t)
unfolding start
start-done term vote l s ht hv hl disk commits applied reads unset meta_bytes log_bytes =
    let up : Node = record (emit set_handler s) { running = true } in
    let (loaded, (read, was)) = load_snapshot-done up disk commits applied in
    let meta =
      load_meta-done term vote loaded ht hv (unset ∙ sym was.vote) (rw was.meta_store meta_bytes) in
    let known : Node = record loaded { current_term = term; voted_for = vote } in
    let log = load_log-done l known hl (rw was.log_store log_bytes) in
    let whole : Node = record known { log = l } in
    let idle = apply_nothing whole was.commit_index was.last_applied (was.reads ∙ reads) in
    let armed = schedule_election_timeout-SameHard whole in
    (
      schedule_election_timeout whole,
      (
        rw (read, meta, log, idle),
        ground (arith, armed.term, armed.vote, armed.log, armed.meta_store, armed.log_store),
      ),
    )

crashed_disk :
    (d : DurableStore)
    → Laws.IsValid d
    → (durable_size d ≡ 0) ⊎ HoldsSnapshot d
    → (durable_size (DurableStore.crash d) ≡ 0) ⊎ HoldsSnapshot (DurableStore.crash d)
unfolding durable_size DurableStore.crash
crashed_disk d v (inl empty) = inl empty
crashed_disk d v (inr h) = inr (record {
  index = h.index;
  term = h.term;
  snapshot = h.snapshot;
  kv = h.kv;
  bytes = read_durable-crash d v ∙ h.bytes;
  index_fits = h.index_fits;
  term_fits = h.term_fits;
  data_fits = h.data_fits;
  readable = h.readable;
})

-- A node whose disk is written, and can be read, comes back from a crash with the term, the vote and
-- the log that it had, whatever it had applied; it does come back.
pub restart-crash :
    ⦃clk : Clock⦄ (s : Node)
    → IsWritten s
    → CanRecover s
    → (t : Node) × ((crash s >>= restart) ≡ done t
        × (t.current_term ≡ s.current_term
            × (t.voted_for ≡ s.voted_for × (t.log ≡ s.log × IsWritten t))))
unfolding restart
restart-crash s w h =
    let (down, (crashed, d)) = crash-done s h in
    let emptied : Node = record down {
      current_term = 0;
      voted_for = none;
      log = Log.empty;
      kv = KvStore.empty;
    } in
    let meta = read_durable-crash s.meta_store w.meta_store ∙ w.meta in
    let log = read_durable-crash s.log_store w.log_store ∙ w.log in
    let disk : (durable_size down.snapshot_store ≡ 0) ⊎ HoldsSnapshot down.snapshot_store =
      rw d.snapshot_store (crashed_disk s.snapshot_store h.valid h.disk) in
    let (t, (started, up)) =
      start-done s.current_term s.voted_for s.log emptied h.term h.vote h.log disk d.commit_index
        d.last_applied d.reads refl (rw d.meta_store meta) (rw d.log_store log) in
    (
      t,
      (
        rw (crashed, started),
        (
          up.term,
          (
            up.vote,
            (
              up.log,
              record {
                meta = rw (up.meta_store, d.meta_store, up.term, up.vote) meta;
                log = rw (up.log_store, d.log_store, up.log) log;
                meta_store = rw (up.meta_store, d.meta_store) (crash-IsValid s.meta_store);
                log_store = rw (up.log_store, d.log_store) (crash-IsValid s.log_store);
              },
            ),
          ),
        ),
      ),
    )
