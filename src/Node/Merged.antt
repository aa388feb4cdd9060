-- ===== src/Node/Merged.antt =====
-- The loop over the entries of an AppendEntries keeps a log's shape, and fails by its assert only.
use sim_kv.Prelude.{
  ◌+◌, ◌≤◌, ◌<◌, ◌^◌, ◌≡◌, refl, List, [], ◌∷◌, ◌++◌, add64, none, some, ◌⊎◌, inl, inr, arith,
  Bool-cases, leb, ◌==◌,
}
use sim_kv.Result.{ok, err, assertion}
use sim_kv.Types.{LogEntry}
use sim_kv.Log.{RaftLog, last_index, append, truncate_from}
use sim_kv.Log.Shape.{IsValid, append-IsValid, truncate_from-IsValid}
use sim_kv.Log.Access.{at_total}
use sim_kv.Log.Edits.{at-truncate_from}
use sim_kv.Node.Append.{Merge, append_to, merge_entry, merge_then, merge_entries}

-- A merge that left a log of good shape, and threw nothing but a failed assert.
pub record Merges (m : Merge) : Type 0 where
  pub shape : IsValid m.0
  pub failure : (m.1 ≡ none) ⊎ (m.1 ≡ some assertion)

append_to-Merges :
    (e : LogEntry) (l : RaftLog) → IsValid l → last_index l < e.index → Merges (append_to e l)
unfolding append_to
append_to-Merges e l v above = elim (Bool-cases (e.index == add64 (last_index l) 1)) [
  | inl next ↦
      (let grown : RaftLog = record l { entries = l.entries ++ e ∷ [] } in
        let grows : append e l ≡ ok grown = unfold append in rw next in
        let room : last_index l + 1 < 2 ^ 64 = ground arith in
        rw (grows, append_to)
          (record { shape = append-IsValid e l v room grows; failure = inl refl }))
  | inr gap ↦
      (let fails : append e l ≡ err assertion = unfold append in rw gap in
        rw (fails, append_to) (record { shape = v; failure = inr refl }))
]

replaced-Merges :
    (e : LogEntry) (l : RaftLog)
    → IsValid l
    → l.base_index < e.index
    → e.index ≤ last_index l
    → Merges (append_to e (truncate_from e.index l))
replaced-Merges e l v lo hi =
    append_to-Merges e (truncate_from e.index l) (truncate_from-IsValid e.index l v)
      (omega (arith, (at-truncate_from e.index 0 l v lo hi).0))

merge_entry-Merges : (e : LogEntry) (l : RaftLog) → IsValid l → Merges (merge_entry e l)
unfolding merge_entry
merge_entry-Merges e l v = elim (Bool-cases (leb e.index (last_index l))) [
  | inr above ↦ rw (above, merge_entry) (append_to-Merges e l v (ground arith))
  | inl hi ↦ (elim (Bool-cases (leb e.index l.base_index)) [
    | inl old ↦ rw (hi, old, merge_entry) (record { shape = v; failure = inl refl })
    | inr new ↦
        (let (held, found, index) = at_total e.index l v (ground arith) (ground arith) in
          elim (Bool-cases (held.term == e.term)) [
            | inl same ↦
                rw (hi, new, found, merge_entry, same) (record { shape = v; failure = inl refl })
            | inr other ↦
                rw (hi, new, found, merge_entry, other)
                  (replaced-Merges e l v (ground arith) (ground arith))
          ])
  ])
]

merge_then-Merges :
    (m : Merge) (f : RaftLog → Merge)
    → Merges m
    → ((l : RaftLog) → IsValid l → Merges (f l))
    → Merges (merge_then m f)
merge_then-Merges (l, none) f k next = next l k.shape
merge_then-Merges (l, some x) f k next = k

pub merge_entries-Merges :
    (es : List LogEntry) (l : RaftLog) → IsValid l → Merges (merge_entries es l)
unfolding merge_entries
merge_entries-Merges [] l v = record { shape = v; failure = inl refl }
merge_entries-Merges (e ∷ es) l v =
    merge_then-Merges (merge_entry e l) (merge_entries es) (merge_entry-Merges e l v)
      (merge_entries-Merges es)
