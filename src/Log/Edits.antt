-- ===== src/Log/Edits.antt =====
-- What the edits leave at every index.
use sim_kv.Prelude.{
  ◌+◌, ◌-◌, ◌^◌, ◌≤◌, ◌<◌, ◌≡◌, [], ◌∷◌, arith, get_elem?-take, get_elem?-drop, length-take,
  length-drop, length-append, get_elem?-append_left, get_elem?-length, max,
}
use sim_kv.Result.{ok}
use sim_kv.Types.{Term, Index, LogEntry}
use sim_kv.Log.{RaftLog, last_index, append, truncate_from, set_snapshot, at, term_at}
use sim_kv.Log.Shape.{IsValid}

-- `append` adds the entry at the next index and leaves the others.
pub at-append :
    (e : LogEntry) (l : RaftLog) {l' : RaftLog} (i : Index)
    → IsValid l
    → last_index l + 1 < 2 ^ 64
    → append e l ≡ ok l'
    → (last_index l' ≡ last_index l + 1)
      × (at (last_index l') l' ≡ ok e)
      × (i ≤ last_index l → at i l' ≡ at i l)
unfolding append at
at-append e l {l'} i v room h = ground (
  arith,
  length-append l.entries (e ∷ []),
  get_elem?-length l.entries e,
  get_elem?-append_left (i - l.base_index - 1) l.entries (e ∷ []),
)

-- Truncating inside the log leaves the indices below `from`, and ends before it.
pub at-truncate_from :
    (from i : Index) (l : RaftLog)
    → IsValid l
    → l.base_index < from
    → from ≤ last_index l
    → (last_index (truncate_from from l) ≡ from - 1)
      × (i < from → at i (truncate_from from l) ≡ at i l)
unfolding truncate_from at
at-truncate_from from i l v lo hi = ground (
  arith,
  v.bounded,
  length-take (from - l.base_index - 1) l.entries,
  get_elem?-take (from - l.base_index - 1) (i - l.base_index - 1) l.entries,
)

-- A snapshot past the base moves the base to its index and term, and leaves every entry above it.
pub at-set_snapshot :
    (n i : Index) (t : Term) (l : RaftLog)
    → IsValid l
    → n < 2 ^ 64
    → l.base_index < n
    → (last_index (set_snapshot n t l) ≡ max n (last_index l))
      × (term_at n (set_snapshot n t l) ≡ ok t)
      × (n < i → at i (set_snapshot n t l) ≡ at i l)
unfolding set_snapshot at term_at
at-set_snapshot n i t l v h lo = ground (
  arith,
  v.bounded,
  length-drop (n - l.base_index) l.entries,
  get_elem?-drop (n - l.base_index) (i - n - 1) l.entries,
)

-- `append` adds the entry at the next index, and every index before it reads as it did.
pub append_lem :
    (e : LogEntry) (l : RaftLog) {l' : RaftLog} (i : Index)
    → IsValid l
    → last_index l + 1 < 2 ^ 64
    → append e l ≡ ok l'
    → i ≤ last_index l
    → (last_index l' ≡ last_index l + 1) × (at (last_index l') l' ≡ ok e) × (at i l' ≡ at i l)
append_lem e l i v room h old =
    let (grown, new, others) = at-append e l i v room h in (grown, new, others old)

-- Truncating inside the log leaves the indices below `from` as they were, and ends before it.
pub truncate_from_lem :
    (from i : Index) (l : RaftLog)
    → IsValid l
    → l.base_index < from
    → from ≤ last_index l
    → i < from
    → (last_index (truncate_from from l) ≡ from - 1) × (at i (truncate_from from l) ≡ at i l)
truncate_from_lem from i l v lo hi below =
    let (cut, others) = at-truncate_from from i l v lo hi in (cut, others below)

-- A snapshot past the base moves the base to its index and term, and leaves every entry above it.
pub set_snapshot_lem :
    (n i : Index) (t : Term) (l : RaftLog)
    → IsValid l
    → n < 2 ^ 64
    → l.base_index < n
    → n < i
    → (last_index (set_snapshot n t l) ≡ max n (last_index l))
      × (term_at n (set_snapshot n t l) ≡ ok t)
      × (at i (set_snapshot n t l) ≡ at i l)
set_snapshot_lem n i t l v room lo above =
    let (last, base, others) = at-set_snapshot n i t l v room lo in (last, base, others above)
