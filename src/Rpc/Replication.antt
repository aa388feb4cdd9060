-- ===== src/Rpc/Replication.antt =====
-- AppendEntries, InstallSnapshot and their replies as bytes (raft/rpc.cpp).
use sim_kv.Prelude.{◌≡◌, refl, ◌∙◌, ◌++◌, length, append_assoc, All, IsU32, IsU64}
use sim_kv.Result.{Result, ok, ◌>>=◌}
use sim_kv.Types.{Bytes}
use sim_kv.Codec.{u8, u32, u64, boolean, get_u8, get_u32, get_u64, get_boolean, slice}
use sim_kv.Codec.RoundTrip.{u8_then, u32_then, u64_then, boolean_then, slice_then}
use sim_kv.Log.{encode_log_entries, decode_log_entries}
use sim_kv.Log.Storage.{FitsEntry, decode_log_entries-encode_log_entries}
use sim_kv.Rpc.{AppendEntries, AppendEntriesReply, InstallSnapshot, InstallSnapshotReply}

unfoldable pub encode_append_entries : AppendEntries → Bytes
encode_append_entries m =
    u8 3
    ++ (u64 m.term
        ++ (u32 m.leader_id
            ++ (u64 m.prev_log_index
                ++ (u64 m.prev_log_term
                    ++ (u64 m.leader_commit
                        ++ (u32 (length m.entries) ++ encode_log_entries m.entries))))))

unfoldable pub decode_append_entries : Bytes → Result AppendEntries
decode_append_entries bs = do
  (tag, bs) ← get_u8 bs
  (term, bs) ← get_u64 bs
  (leader_id, bs) ← get_u32 bs
  (prev_log_index, bs) ← get_u64 bs
  (prev_log_term, bs) ← get_u64 bs
  (leader_commit, bs) ← get_u64 bs
  (count, bs) ← get_u32 bs
  (entries, bs) ← decode_log_entries count bs
  ok (record {
    term = term;
    leader_id = leader_id;
    prev_log_index = prev_log_index;
    prev_log_term = prev_log_term;
    entries = entries;
    leader_commit = leader_commit;
  })

unfoldable pub encode_append_entries_reply : AppendEntriesReply → Bytes
encode_append_entries_reply m =
    u8 4 ++ (u64 m.term ++ (boolean m.success ++ (u64 m.conflict_index ++ u64 m.conflict_term)))

unfoldable pub decode_append_entries_reply : Bytes → Result AppendEntriesReply
decode_append_entries_reply bs = do
  (tag, bs) ← get_u8 bs
  (term, bs) ← get_u64 bs
  (success, bs) ← get_boolean bs
  (conflict_index, bs) ← get_u64 bs
  (conflict_term, bs) ← get_u64 bs
  ok (record {
    term = term;
    success = success;
    conflict_index = conflict_index;
    conflict_term = conflict_term;
  })

unfoldable pub encode_install_snapshot : InstallSnapshot → Bytes
encode_install_snapshot m =
    u8 7
    ++ (u64 m.term
        ++ (u32 m.leader_id
            ++ (u64 m.last_included_index
                ++ (u64 m.last_included_term ++ (u32 (length m.snapshot) ++ m.snapshot)))))

-- The loop that reads `len` single bytes throws on a short buffer, as `slice` does.
unfoldable pub decode_install_snapshot : Bytes → Result InstallSnapshot
decode_install_snapshot bs = do
  (tag, bs) ← get_u8 bs
  (term, bs) ← get_u64 bs
  (leader_id, bs) ← get_u32 bs
  (last_included_index, bs) ← get_u64 bs
  (last_included_term, bs) ← get_u64 bs
  (len, bs) ← get_u32 bs
  (snapshot, bs) ← slice len bs
  ok (record {
    term = term;
    leader_id = leader_id;
    last_included_index = last_included_index;
    last_included_term = last_included_term;
    snapshot = snapshot;
  })

unfoldable pub encode_install_snapshot_reply : InstallSnapshotReply → Bytes
encode_install_snapshot_reply m = u8 8 ++ (u64 m.term ++ u64 m.last_included_index)

unfoldable pub decode_install_snapshot_reply : Bytes → Result InstallSnapshotReply
decode_install_snapshot_reply bs = do
  (tag, bs) ← get_u8 bs
  (term, bs) ← get_u64 bs
  (last_included_index, bs) ← get_u64 bs
  ok (record { term = term; last_included_index = last_included_index })

-- The fields fit their encoded width.
pub record FitsAppendEntries (m : AppendEntries) : Type 0 where
  pub term : IsU64 m.term
  pub leader_id : IsU32 m.leader_id
  pub prev_log_index : IsU64 m.prev_log_index
  pub prev_log_term : IsU64 m.prev_log_term
  pub leader_commit : IsU64 m.leader_commit
  pub count : IsU32 (length m.entries)
  pub entries : All FitsEntry m.entries

-- An AppendEntries is read back, whatever follows it, if its fields fit.
pub decode-encode_append_entries :
    (m : AppendEntries) (rest : Bytes)
    → FitsAppendEntries m
    → decode_append_entries (encode_append_entries m ++ rest) ≡ ok m
unfolding decode_append_entries encode_append_entries
decode-encode_append_entries m rest h = simp append_assoc (
    u8_then _ _ _
    ∙ u64_then m.term _ _ h.term
    ∙ u32_then m.leader_id _ _ h.leader_id
    ∙ u64_then m.prev_log_index _ _ h.prev_log_index
    ∙ u64_then m.prev_log_term _ _ h.prev_log_term
    ∙ u64_then m.leader_commit _ _ h.leader_commit
    ∙ u32_then (length m.entries) _ _ h.count
    ∙ rw (decode_log_entries-encode_log_entries m.entries rest h.entries))

-- The fields fit their encoded width.
pub record FitsAppendEntriesReply (m : AppendEntriesReply) : Type 0 where
  pub term : IsU64 m.term
  pub conflict_index : IsU64 m.conflict_index
  pub conflict_term : IsU64 m.conflict_term

-- An AppendEntriesReply is read back, whatever follows it, if its fields fit.
pub decode-encode_append_entries_reply :
    (m : AppendEntriesReply) (rest : Bytes)
    → FitsAppendEntriesReply m
    → decode_append_entries_reply (encode_append_entries_reply m ++ rest) ≡ ok m
unfolding decode_append_entries_reply encode_append_entries_reply
decode-encode_append_entries_reply m rest h = simp append_assoc (
    u8_then _ _ _
    ∙ u64_then m.term _ _ h.term
    ∙ boolean_then m.success _ _
    ∙ u64_then m.conflict_index _ _ h.conflict_index
    ∙ u64_then m.conflict_term _ _ h.conflict_term)

-- The fields fit their encoded width.
pub record FitsInstallSnapshot (m : InstallSnapshot) : Type 0 where
  pub term : IsU64 m.term
  pub leader_id : IsU32 m.leader_id
  pub last_included_index : IsU64 m.last_included_index
  pub last_included_term : IsU64 m.last_included_term
  pub snapshot : IsU32 (length m.snapshot)

-- An InstallSnapshot is read back, whatever follows it, if its fields fit.
pub decode-encode_install_snapshot :
    (m : InstallSnapshot) (rest : Bytes)
    → FitsInstallSnapshot m
    → decode_install_snapshot (encode_install_snapshot m ++ rest) ≡ ok m
unfolding decode_install_snapshot encode_install_snapshot
decode-encode_install_snapshot m rest h = simp append_assoc (
    u8_then _ _ _
    ∙ u64_then m.term _ _ h.term
    ∙ u32_then m.leader_id _ _ h.leader_id
    ∙ u64_then m.last_included_index _ _ h.last_included_index
    ∙ u64_then m.last_included_term _ _ h.last_included_term
    ∙ u32_then (length m.snapshot) _ _ h.snapshot
    ∙ slice_then _ m.snapshot rest _ refl)

-- The fields fit their encoded width.
pub record FitsInstallSnapshotReply (m : InstallSnapshotReply) : Type 0 where
  pub term : IsU64 m.term
  pub last_included_index : IsU64 m.last_included_index

-- An InstallSnapshotReply is read back, whatever follows it, if its fields fit.
pub decode-encode_install_snapshot_reply :
    (m : InstallSnapshotReply) (rest : Bytes)
    → FitsInstallSnapshotReply m
    → decode_install_snapshot_reply (encode_install_snapshot_reply m ++ rest) ≡ ok m
unfolding decode_install_snapshot_reply encode_install_snapshot_reply
decode-encode_install_snapshot_reply m rest h = simp append_assoc (
    u8_then _ _ _
    ∙ u64_then m.term _ _ h.term
    ∙ u64_then m.last_included_index _ _ h.last_included_index)
