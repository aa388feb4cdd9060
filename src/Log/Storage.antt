-- ===== src/Log/Storage.antt =====
-- A log that was saved is loaded back.
use sim_kv.Prelude.{
  ◌≡◌, refl, ◌∙◌, List, [], ◌∷◌, ◌++◌, append_assoc, append-nil, length, All, IsU32, IsU64,
}
use sim_kv.Result.{ok}
use sim_kv.Types.{Bytes, LogEntry}
use sim_kv.Codec.{u64}
use sim_kv.Codec.RoundTrip.{u32_then, u64_then, slice_then}
use sim_kv.Wal.{encode_command}
use sim_kv.Wal.RoundTrip.{decode_command-encode_command}
use sim_kv.Wal.Replay.{Fits}
use sim_kv.DurableStore
use sim_kv.DurableStore.{DurableStore, read_durable}
use sim_kv.DurableStore.Laws.{read_durable_rewrite}
use sim_kv.Log.{
  RaftLog, encode_log_entry, encode_log_entries, decode_log_entry, decode_log_entries, encode_log,
  load_body, save_to, load_from,
}

-- An entry whose fields fit their encoded width.
pub record FitsEntry (e : LogEntry) : Type 0 where
  pub term : IsU64 e.term
  pub index : IsU64 e.index
  pub cmd : Fits e.cmd

pub record FitsLog (l : RaftLog) : Type 0 where
  pub base_index : IsU64 l.base_index
  pub base_term : IsU64 l.base_term
  pub count : IsU32 (length l.entries)
  pub entries : All FitsEntry l.entries

-- An encoded entry is read back, whatever follows it.
pub decode_log_entry-encode_log_entry :
    (e : LogEntry) (rest : Bytes)
    → FitsEntry e
    → decode_log_entry (encode_log_entry e ++ rest) ≡ ok (e, rest)
unfolding decode_log_entry encode_log_entry
decode_log_entry-encode_log_entry e rest h =
    let whole = rw append-nil at (decode_command-encode_command e.cmd [] h.cmd.0) in
    simp append_assoc (
      u64_then e.term _ _ h.term
      ∙ u64_then e.index _ _ h.index
      ∙ u32_then (length (encode_command e.cmd)) _ _ h.cmd.1
      ∙ slice_then _ (encode_command e.cmd) rest _ refl
      ∙ rw whole)

pub decode_log_entries-encode_log_entries :
    (es : List LogEntry) (rest : Bytes)
    → All FitsEntry es
    → decode_log_entries (length es) (encode_log_entries es ++ rest) ≡ ok (es, rest)
unfolding decode_log_entries encode_log_entries
decode_log_entries-encode_log_entries [] rest h = refl
decode_log_entries-encode_log_entries (e ∷ es) rest h =
    rw (append_assoc (encode_log_entry e) (encode_log_entries es) rest) (
      rw (decode_log_entry-encode_log_entry e (encode_log_entries es ++ rest) h.0)
        (rw (decode_log_entries-encode_log_entries es rest h.1)))

load_body-encode_log : (l : RaftLog) → FitsLog l → load_body (encode_log l) ≡ ok l
unfolding load_body encode_log
load_body-encode_log l h =
    let entries = decode_log_entries-encode_log_entries l.entries [] h.entries in
    u64_then l.base_index _ _ h.base_index
    ∙ u64_then l.base_term _ _ h.base_term
    ∙ u32_then (length l.entries) _ _ h.count
    ∙ rw (rw append-nil at entries)

pub load_from-encode_log : (l m : RaftLog) → FitsLog l → load_from (encode_log l) m ≡ ok l
unfolding load_from encode_log u64
load_from-encode_log l m h = load_body-encode_log l h

-- A log that is saved over whatever the store held is loaded back, base and entries, into any log.
pub load_from-save_to :
    (l m : RaftLog) (d : DurableStore)
    → FitsLog l
    → load_from (read_durable (save_to l (DurableStore.truncate_to 0 d))) m ≡ ok l
unfolding save_to
load_from-save_to l m d h = rw read_durable_rewrite (load_from-encode_log l m h)
