-- ===== src/Node/Merging.antt =====
-- What the loop over the entries of an AppendEntries leaves in the log (raft/node.cpp).
use sim_kv.Prelude.{
  ℕ, suc, ◌+◌, ◌≤◌, ◌<◌, ◌^◌, ◌≡◌, refl, ◌∙◌, List, [], ◌∷◌, ◌++◌, none, some, ◌⊎◌, inl, inr, arith,
  Bool-cases, leb, ◌==◌, All, length, sym, ap, subst,
}
use sim_kv.Result.{ok}
use sim_kv.Types.{Index, LogEntry}
use sim_kv.Log.{RaftLog, last_index, append, truncate_from, at}
use sim_kv.Log.Shape.{IsValid, Consecutive, append-IsValid, truncate_from-IsValid}
use sim_kv.Log.Access.{at_total}
use sim_kv.Log.Edits.{at-append, at-truncate_from}
use sim_kv.Node.Append.{Merge, append_to, merge_entry, merge_then, merge_entries}

-- An entry that a log holds: the snapshot covers its index, or the entry there has its term.
pub record Holds (e : LogEntry) (l : RaftLog) : Type 0 where
  pub there :
      (e.index ≤ l.base_index)
      ⊎ ((held : LogEntry) × ((at e.index l ≡ ok held) × (held.term ≡ e.term)))

-- What one entry leaves: it is in the log, and what was before it stays.
record IsPut (e : LogEntry) (l : RaftLog) (m : Merge) : Type 0 where
  ends : m.1 ≡ none
  shape : IsValid m.0
  base : m.0.base_index ≡ l.base_index
  reaches : Holds e m.0
  last : e.index ≤ last_index m.0
  before : (i : Index) → i < e.index → at i m.0 ≡ at i l

append_to-IsPut :
    (e : LogEntry) (l : RaftLog)
    → IsValid l
    → e.index ≡ last_index l + 1
    → e.index < 2 ^ 64
    → IsPut e l (append_to e l)
unfolding append_to
append_to-IsPut e l v next room =
    let grown : RaftLog = record l { entries = l.entries ++ e ∷ [] } in
    let grows : append e l ≡ ok grown = unfold append in ground arith in
    let fits : last_index l + 1 < 2 ^ 64 = omega arith in
    let (last, new, others) = at-append e l 0 v fits grows in
    rw (grows, append_to)
      (record {
        ends = refl;
        shape = append-IsValid e l v fits grows;
        base = refl;
        reaches = record {
          there = inr (e, (ap (λ (i : Index). at i grown) (next ∙ sym last) ∙ new, refl));
        };
        last = omega arith;
        before = λ i below. (at-append e l i v fits grows).2 (omega arith);
      })

replaced-IsPut :
    (e : LogEntry) (l : RaftLog)
    → IsValid l
    → l.base_index < e.index
    → e.index ≤ last_index l
    → e.index < 2 ^ 64
    → IsPut e l (append_to e (truncate_from e.index l))
replaced-IsPut e l v lo hi room =
    let cut = truncate_from e.index l in
    let shorter = at-truncate_from e.index 0 l v lo hi in
    let put =
      append_to-IsPut e cut (truncate_from-IsValid e.index l v) (omega (arith, shorter.0)) room in
    record {
      ends = put.ends;
      shape = put.shape;
      base = put.base ∙ (unfold truncate_from in ground arith);
      reaches = put.reaches;
      last = put.last;
      before = λ i below. put.before i below ∙ (at-truncate_from e.index i l v lo hi).1 below;
    }

merge_entry-IsPut :
    (e : LogEntry) (l : RaftLog)
    → IsValid l
    → e.index ≤ last_index l + 1
    → e.index < 2 ^ 64
    → IsPut e l (merge_entry e l)
unfolding merge_entry
merge_entry-IsPut e l v next room = elim (Bool-cases (leb e.index (last_index l))) [
  | inr above ↦ rw (above, merge_entry) (append_to-IsPut e l v (ground arith) room)
  | inl hi ↦
      (let le : e.index ≤ last_index l = ground arith in
        elim (Bool-cases (leb e.index l.base_index)) [
          | inl old ↦
              rw (hi, old, merge_entry)
                (record {
                  ends = refl;
                  shape = v;
                  base = refl;
                  reaches = record { there = inl (ground arith) };
                  last = le;
                  before = λ i below. refl;
                })
          | inr new ↦
              (let (held, found, index) = at_total e.index l v (ground arith) le in
                elim (Bool-cases (held.term == e.term)) [
                  | inl same ↦
                      rw (hi, new, found, merge_entry, same)
                        (record {
                          ends = refl;
                          shape = v;
                          base = refl;
                          reaches = record { there = inr (held, (found, ground arith)) };
                          last = le;
                          before = λ i below. refl;
                        })
                  | inr other ↦
                      rw (hi, new, found, merge_entry, other)
                        (replaced-IsPut e l v (ground arith) le room)
                ])
        ])
]

merge_then-none : (m : Merge) (f : RaftLog → Merge) → m.1 ≡ none → merge_then m f ≡ f m.0
merge_then-none (l, none) f h = refl
merge_then-none (l, some x) f h = ground (arith, h)

carried :
    (e : LogEntry) (l l' : RaftLog)
    → l'.base_index ≡ l.base_index
    → at e.index l' ≡ at e.index l
    → Holds e l
    → Holds e l'
carried e l l' base same h = elim h.there [
  | inl old ↦ record { there = inl (omega arith) }
  | inr (held, (found, term)) ↦ record { there = inr (held, (same ∙ found, term)) }
]

-- What the whole loop leaves.
pub record IsMerged (prev : Index) (es : List LogEntry) (l : RaftLog) (m : Merge) : Type 0 where
  pub ends : m.1 ≡ none
  pub shape : IsValid m.0
  pub base : m.0.base_index ≡ l.base_index
  pub all_held : All (λ e. Holds e m.0) es
  pub before : (i : Index) → i ≤ prev → at i m.0 ≡ at i l

-- Entries that follow on an index inside the log are all merged, without a failed assert: the log holds
-- each of them, or its snapshot covers it, and every index up to `prev` reads as it did.
pub merge_entries-IsMerged :
    (prev : Index) (es : List LogEntry) (l : RaftLog)
    → IsValid l
    → Consecutive prev es
    → prev ≤ last_index l
    → prev + length es < 2 ^ 64
    → IsMerged prev es l (merge_entries es l)
unfolding merge_entries
merge_entries-IsMerged prev [] l v c hi room = record {
  ends = refl;
  shape = v;
  base = refl;
  all_held = tt;
  before = λ i le. refl;
}
merge_entries-IsMerged prev (e ∷ es) l v c hi room =
    let index : e.index ≡ suc prev = c.0 in
    let put = merge_entry-IsPut e l v (omega arith) (omega arith) in
    let first = (merge_entry e l).0 in
    let rest =
      merge_entries-IsMerged e.index es first put.shape
        (subst (λ (k : ℕ). Consecutive k es) (sym index) c.1) put.last (omega arith) in
    rw (merge_then-none (merge_entry e l) (merge_entries es) put.ends) (record {
      ends = rest.ends;
      shape = rest.shape;
      base = rest.base ∙ put.base;
      all_held = (
        carried e first _ rest.base (rest.before e.index (omega arith)) put.reaches,
        rest.all_held,
      );
      before = λ i le. rest.before i (omega arith) ∙ put.before i (omega arith);
    })
