-- ===== src/Log.antt =====
-- raft/log.cpp: the in-memory log behind a snapshot point. `entries` holds the absolute indices from
-- base_index + 1 on; what throws returns a `Result`.
pub mod Shape
pub mod Access
pub mod Edits
pub mod Storage
mod Tests
use mathlib.Core.List.{reverse}
use sim_kv.Prelude.{
  ℕ, zero, suc, ◌+◌, ◌-◌, List, [], ◌∷◌, ◌++◌, Bool, true, false, ◌&&◌, ◌||◌, Option, none, some,
  ltb, leb, ◌==◌, if◌then◌else◌, length, take, drop, get_elem?, min, max, add64,
}
use sim_kv.Result.{Result, ok, err, out_of_range, assertion, ◌>>=◌}
use sim_kv.Types.{Term, Index, Bytes, LogEntry}
use sim_kv.Codec.{u32, u64, get_u32, get_u64, slice}
use sim_kv.Wal.{encode_command, decode_command}
use sim_kv.DurableStore
use sim_kv.DurableStore.{DurableStore}

pub record RaftLog : Type 0 where
  pub entries : List LogEntry
  pub base_index : Index
  pub base_term : Term

abbrev pub empty : RaftLog
empty = record { entries = []; base_index = 0; base_term = 0 }

abbrev pub last_index : RaftLog → Index
last_index l = add64 l.base_index (length l.entries)

-- the term of `entries_.back()`
abbrev pub back_term : Term → List LogEntry → Term
back_term t [] = t
back_term t (e ∷ es) = back_term e.term es

abbrev pub last_term : RaftLog → Term
last_term l = back_term l.base_term l.entries

-- RaftLog::append, with its assert
unfoldable pub append : LogEntry → RaftLog → Result RaftLog
append entry l =
    if entry.index == add64 (last_index l) 1
    then ok (record l { entries = l.entries ++ entry ∷ [] })
    else err assertion

-- RaftLog::truncate_from
unfoldable pub truncate_from : Index → RaftLog → RaftLog
truncate_from from l =
    if leb from l.base_index
    then l
    else if ltb (last_index l) from
    then l
    else record l { entries = take (from - l.base_index - 1) l.entries }

-- RaftLog::set_snapshot
unfoldable pub set_snapshot : Index → Term → RaftLog → RaftLog
set_snapshot last_included_index last_included_term l =
    if leb last_included_index l.base_index then l else record {
      entries =
          if leb (last_index l) last_included_index
          then []
          else drop (last_included_index - l.base_index) l.entries;
      base_index = last_included_index;
      base_term = last_included_term;
    }

abbrev pub found_entry : Option LogEntry → Result LogEntry
found_entry none = err out_of_range
found_entry (some e) = ok e

-- RaftLog::at
unfoldable pub at : Index → RaftLog → Result LogEntry
at i l =
    if leb i l.base_index || ltb (last_index l) i
    then err out_of_range
    else found_entry (get_elem? l.entries (i - l.base_index - 1))

-- RaftLog::term_at
unfoldable pub term_at : Index → RaftLog → Result Term
unfolding at
term_at i l = if i == l.base_index then ok l.base_term else do e ← at i l; ok e.term

abbrev pub has_term : Option LogEntry → Term → Bool
has_term none term = false
has_term (some e) term = e.term == term

-- RaftLog::contains
unfoldable pub contains : Index → Term → RaftLog → Bool
contains index term l =
    if index == 0
    then true
    else if index == l.base_index
    then term == l.base_term
    else if ltb index l.base_index
    then false
    else if ltb (last_index l) index
    then false
    else has_term (get_elem? l.entries (index - l.base_index - 1)) term

-- RaftLog::slice, the entries in (lo, hi]
unfoldable pub entries_between : Index → Index → RaftLog → List LogEntry
entries_between lo hi l =
    let start = max (add64 lo 1) (add64 l.base_index 1) in
    let end = min hi (last_index l) in
    if leb hi lo
    then []
    else if ltb end start
    then []
    else drop (start - l.base_index - 1) (take (end - l.base_index) l.entries)

-- the loop of RaftLog::last_index_for_term over the reversed entries
unfoldable pub last_index_loop : Term → List LogEntry → Option Index
last_index_loop term [] = none
last_index_loop term (e ∷ es) = if e.term == term then some e.index else last_index_loop term es

abbrev pub or_base : Option Index → Term → RaftLog → Index
or_base (some i) term l = i
or_base none term l = if ltb 0 l.base_index && (l.base_term == term) then l.base_index else 0

-- RaftLog::last_index_for_term
unfoldable pub last_index_for_term : Term → RaftLog → Index
unfolding last_index_loop
last_index_for_term term l = or_base (last_index_loop term (reverse l.entries)) term l

-- The body of the loop in RaftLog::save_to, and encode_log_entry of raft/rpc.cpp.
unfoldable pub encode_log_entry : LogEntry → Bytes
encode_log_entry e =
    let cmd = encode_command e.cmd in u64 e.term ++ (u64 e.index ++ (u32 (length cmd) ++ cmd))

unfoldable pub encode_log_entries : List LogEntry → Bytes
encode_log_entries [] = []
encode_log_entries (e ∷ es) = encode_log_entry e ++ encode_log_entries es

-- The body of the loop in RaftLog::load_from, and decode_log_entry of raft/rpc.cpp: the entry and
-- the bytes behind it.
unfoldable pub decode_log_entry : Bytes → Result (LogEntry × Bytes)
decode_log_entry bs = do
  (term, bs) ← get_u64 bs
  (index, bs) ← get_u64 bs
  (cmd_len, bs) ← get_u32 bs
  (cmd_buf, bs) ← slice cmd_len bs
  cmd ← decode_command cmd_buf
  ok (record { term = term; index = index; cmd = cmd }, bs)

unfoldable pub decode_log_entries : ℕ → Bytes → Result (List LogEntry × Bytes)
decode_log_entries zero bs = ok ([], bs)
decode_log_entries (suc count) bs = do
  (e, bs) ← decode_log_entry bs
  (es, bs) ← decode_log_entries count bs
  ok (e ∷ es, bs)

-- the bytes that RaftLog::save_to writes
unfoldable pub encode_log : RaftLog → Bytes
encode_log l =
    u64 l.base_index
    ++ (u64 l.base_term ++ (u32 (length l.entries) ++ encode_log_entries l.entries))

-- RaftLog::save_to
unfoldable pub save_to : RaftLog → DurableStore → DurableStore
save_to l store = DurableStore.flush (DurableStore.append (encode_log l) store)

-- RaftLog::load_from on bytes that are there
unfoldable pub load_body : Bytes → Result RaftLog
load_body bs = do
  (base_index, bs) ← get_u64 bs
  (base_term, bs) ← get_u64 bs
  (count, bs) ← get_u32 bs
  (entries, bs) ← decode_log_entries count bs
  ok (record { entries = entries; base_index = base_index; base_term = base_term })

-- RaftLog::load_from on the durable bytes; with none the base stays what it was
unfoldable pub load_from : Bytes → RaftLog → Result RaftLog
load_from [] l = ok (record l { entries = [] })
load_from (b ∷ bs) l = load_body (b ∷ bs)
