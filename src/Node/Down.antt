-- ===== src/Node/Down.antt =====
-- What a restart needs of the disk, and what a crash leaves of a node (raft/node.cpp, crash).
use sim_kv.Prelude.{◌≡◌, refl, List, [], ◌∷◌, false, ◌⊎◌, length, arith, IsU32, IsU64, codes}
use sim_kv.Result.{ok}
use sim_kv.OrdMap.{OrdMap}
use sim_kv.Types.{Term, Index, NodeId, Bytes, CmdResult}
use sim_kv.DurableStore
use sim_kv.DurableStore.{DurableStore, read_durable, durable_size}
use sim_kv.DurableStore.Laws
use sim_kv.DurableStore.Laws.{read_durable-crash, crash-IsValid}
use sim_kv.KvStore.{KvStore}
use sim_kv.KvStore.Snapshot.{decode_snapshot}
use sim_kv.Log.Storage.{FitsLog}
use sim_kv.Node.{
  Node, ClientCallback, reply_to, caller, PendingRead, done, with_value, emit, cancel,
}
use sim_kv.Node.Persistence.{encode_snap}
use sim_kv.Node.Commit.{run_callback}
use sim_kv.Node.Lifecycle.{fail_clients, cancel_reads, crash_state, reset_kv, crash}
use sim_kv.Node.Durable.{FitsVote}

-- The snapshot in memory is none, or can be read.
abbrev pub IsReadable : Bytes → Type 0
IsReadable [] = Unit
IsReadable (b ∷ bs) = (kv : KvStore) × decode_snapshot (b ∷ bs) ≡ ok kv

-- The snapshot on the disk can be read.
pub record HoldsSnapshot (d : DurableStore) : Type 0 where
  pub index : Index
  pub term : Term
  pub snapshot : Bytes
  pub kv : KvStore
  pub bytes : read_durable d ≡ encode_snap index term snapshot
  pub index_fits : IsU64 index
  pub term_fits : IsU64 term
  pub data_fits : IsU32 (length snapshot)
  pub readable : decode_snapshot snapshot ≡ ok kv

-- What the disk needs for a restart: fields that fit their encoded width, and a snapshot store that is
-- empty or can be read.
pub record CanRecover (s : Node) : Type 0 where
  pub term : IsU64 s.current_term
  pub vote : FitsVote s.voted_for
  pub log : FitsLog s.log
  pub memory : IsReadable s.snap_data
  pub valid : Laws.IsValid s.snapshot_store
  pub disk : (durable_size s.snapshot_store ≡ 0) ⊎ HoldsSnapshot s.snapshot_store

-- What two states of a node that is down agree on.
record SameDisk (s t : Node) : Type 0 where
  meta_store : t.meta_store ≡ s.meta_store
  log_store : t.log_store ≡ s.log_store
  snapshot_store : t.snapshot_store ≡ s.snapshot_store
  snap_last_index : t.snap_last_index ≡ s.snap_last_index
  commit_index : t.commit_index ≡ s.commit_index
  last_applied : t.last_applied ≡ s.last_applied

run_callback-SameDisk :
    (cb : ClientCallback) (r : CmdResult) (s : Node) → SameDisk s (run_callback cb r s)
unfolding run_callback
run_callback-SameDisk (reply_to client client_id request_id) r s = ground arith
run_callback-SameDisk (caller cb) r s = ground arith

fail_clients-SameDisk :
    (m : OrdMap Index (ClientCallback × NodeId)) (s : Node) → SameDisk s (fail_clients m s)
unfolding fail_clients
fail_clients-SameDisk [] s = ground arith
fail_clients-SameDisk ((index, (cb, client)) ∷ rest) s =
    let failed : CmdResult = record { ok = false; value = []; error = codes "node_crashed" } in
    ground (
      arith,
      run_callback-SameDisk cb failed s,
      fail_clients-SameDisk rest (run_callback cb failed s),
    )

cancel_reads-SameDisk : (prs : List PendingRead) (s : Node) → SameDisk s (cancel_reads prs s)
unfolding cancel_reads
cancel_reads-SameDisk [] s = ground arith
cancel_reads-SameDisk (pr ∷ prs) s =
    ground (arith, cancel_reads-SameDisk prs (emit (cancel pr.timeout_id) s))

-- The state between a crash and the restart.
pub record IsDown (s t : Node) : Type 0 where
  pub meta_store : t.meta_store ≡ DurableStore.crash s.meta_store
  pub log_store : t.log_store ≡ DurableStore.crash s.log_store
  pub snapshot_store : t.snapshot_store ≡ DurableStore.crash s.snapshot_store
  pub commit_index : t.commit_index ≡ t.snap_last_index
  pub last_applied : t.last_applied ≡ t.snap_last_index
  pub reads : t.pending_reads ≡ []

reset_kv-done :
    (snapshot : Bytes) (s : Node)
    → IsReadable snapshot
    → (kv : KvStore) × reset_kv snapshot s ≡ done (record s { kv = kv })
unfolding reset_kv
reset_kv-done [] s h = (s.kv, refl)
reset_kv-done (b ∷ bs) s (kv, e) = (kv, unfold with_value in rw e)

pub crash-done : (s : Node) → CanRecover s → (t : Node) × (crash s ≡ done t × IsDown s t)
unfolding crash crash_state
crash-done s h =
    let (kv, reset) = reset_kv-done s.snap_data (crash_state s) h.memory in
    let up : Node = record (crash_state s) { kv = kv } in
    let failed = record (fail_clients up.pending_clients up) { pending_clients = [] } in
    let down : Node = record (cancel_reads failed.pending_reads failed) { pending_reads = [] } in
    (
      down,
      (
        rw reset,
        ground (
          arith,
          fail_clients-SameDisk up.pending_clients up,
          cancel_reads-SameDisk failed.pending_reads failed,
        ),
      ),
    )
