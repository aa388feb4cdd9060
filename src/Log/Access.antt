-- ===== src/Log/Access.antt =====
-- What the read accessors return, at every index.
use mathlib.Core.List.{reverse, reverse-cons}
use sim_kv.Prelude.{
  ℕ, zero, suc, ◌+◌, ◌-◌, ◌≤◌, ◌<◌, ◌≡◌, ◌≢◌, ◌↔◌, ◌⊎◌, inl, inr, refl, ap, ◌∙◌, true, false, List,
  [], ◌∷◌, ◌++◌, Option, none, some, arith, length, take, get_elem?, get_elem?-within,
  get_elem?-take, get_elem?-beyond, get_elem?-drop, length-take, length-drop, Option-cases, ◌==◌,
  if◌then◌else◌,
}
use sim_kv.Result.{ok, err, out_of_range}
use sim_kv.Types.{Term, Index, LogEntry}
use sim_kv.Log.{
  RaftLog, last_index, at, term_at, contains, found_entry, has_term, entries_between,
  last_index_loop, last_index_for_term,
}
use sim_kv.Log.Shape.{IsValid, Consecutive, Consecutive-get_elem?}

-- Above the base and up to the last index `at` returns the entry of that index.
pub at_total :
    (i : Index) (l : RaftLog)
    → IsValid l
    → l.base_index < i
    → i ≤ last_index l
    → (e : LogEntry) × (at i l ≡ ok e) × (e.index ≡ i)
unfolding at
at_total i l v lo hi =
    let (e, found) = get_elem?-within (i - l.base_index - 1) l.entries (omega (arith, v.bounded)) in
    (
      e,
      ground (arith, found),
      omega (arith, Consecutive-get_elem? _ l.base_index l.entries v.consecutive found),
    )

-- Elsewhere it throws.
pub at_throws :
    (i : Index) (l : RaftLog) → (i ≤ l.base_index) ⊎ (last_index l < i) → at i l ≡ err out_of_range
unfolding at
at_throws i l h = ground arith

-- `contains` answers true for index 0 and exactly where `term_at` returns the term.
pub contains_iff :
    (i : Index) (t : Term) (l : RaftLog)
    → IsValid l
    → (contains i t l ≡ true) ↔ ((i ≡ 0) ⊎ (term_at i l ≡ ok t))
unfolding contains term_at
contains_iff i t l v = ground (arith, v.bounded, get_elem?-within (i - l.base_index - 1) l.entries)

-- (lo, hi] inside the log: `entries_between` has hi - lo entries, and entry `k` is that at lo + 1 + k.
pub entries_between_lem :
    (lo hi k : Index) (l : RaftLog)
    → IsValid l
    → l.base_index ≤ lo
    → lo ≤ hi
    → hi ≤ last_index l
    → k < hi - lo
    → (length (entries_between lo hi l) ≡ hi - lo)
      × (found_entry (get_elem? (entries_between lo hi l) k) ≡ at (lo + 1 + k) l)
unfolding entries_between at
entries_between_lem lo hi k l v a b c d = ground (
  arith,
  v.bounded,
  length-drop (lo - l.base_index) (take (hi - l.base_index) l.entries),
  length-take (hi - l.base_index) l.entries,
  get_elem?-drop (lo - l.base_index) k (take (hi - l.base_index) l.entries),
  get_elem?-take (hi - l.base_index) (lo - l.base_index + k) l.entries,
)

abbrev or_else : Option Index → Option Index → Option Index
or_else (some i) o = some i
or_else none o = o

last_index_loop-append :
    (t : Term) (xs ys : List LogEntry)
    → last_index_loop t (xs ++ ys) ≡ or_else (last_index_loop t xs) (last_index_loop t ys)
unfolding last_index_loop
last_index_loop-append t [] ys = refl
last_index_loop-append t (x ∷ xs) ys = ground (arith, last_index_loop-append t xs ys)

-- The search from the back, written from the front.
last_from : Term → List LogEntry → Option Index
last_from t [] = none
last_from t (e ∷ es) = or_else (last_from t es) (if e.term == t then some e.index else none)

last_index_loop-reverse :
    (t : Term) (es : List LogEntry) → last_index_loop t (reverse es) ≡ last_from t es
unfolding last_from
last_index_loop-reverse t [] = unfold last_index_loop in refl
last_index_loop-reverse t (e ∷ es) =
    ap (last_index_loop t) (reverse-cons e es)
    ∙ last_index_loop-append t (reverse es) (e ∷ [])
    ∙ rw (last_index_loop-reverse t es) (unfold last_index_loop in refl)

last_from-none :
    (t : Term) (es : List LogEntry) (k : ℕ)
    → last_from t es ≡ none
    → has_term (get_elem? es k) t ≡ false
unfolding last_from
last_from-none t [] k n = refl
last_from-none t (x ∷ es) zero n = ground (arith, last_from-none t es zero)
last_from-none t (x ∷ es) (suc k) n = last_from-none t es k (ground arith)

last_from-some :
    (t : Term) (b : ℕ) (es : List LogEntry) (i : Index)
    → Consecutive b es
    → last_from t es ≡ some i
    → (b < i)
      × (has_term (get_elem? es (i - b - 1)) t ≡ true)
      × ((k : ℕ) → i ≤ b + k → has_term (get_elem? es k) t ≡ false)
unfolding last_from
last_from-some t b [] i c h = cc
last_from-some t b (x ∷ es) i c h = elim (Option-cases (last_from t es)) [
  | inl empty ↦ (
    ground (arith, c.0),
    ground (arith, c.0),
    λ k le. ground (arith, c.0, last_from-none t es (k - 1) empty),
  )
  | inr (j, later) ↦
      (let (above, hit, last) = last_from-some t (suc b) es j c.1 later in
        let same : i ≡ j = ground arith in
        (omega arith, ground (arith, hit), λ k le. ground (arith, last (k - 1))))
]

-- `last_index_for_term` returns an index only of an entry, or of the snapshot point, with the term;
-- no entry above it has the term. 0 says that no entry has it, nor a snapshot point above 0.
pub last_index_for_term_lem :
    (t : Term) (l : RaftLog) (i : Index)
    → IsValid l
    → let r = last_index_for_term t l in
      (0 < r → term_at r l ≡ ok t)
      × (r ≤ last_index l)
      × (r < i → i ≤ last_index l → l.base_index < i → term_at i l ≢ ok t)
      × (r ≡ 0 → 0 < l.base_index → l.base_term ≢ t)
unfolding last_index_for_term term_at
last_index_for_term_lem t l i v = elim (Option-cases (last_from t l.entries)) [
  | inl empty ↦
      (rw (last_index_loop-reverse, empty)
        (ground (arith, v.bounded, last_from-none t l.entries (i - l.base_index - 1) empty)))
  | inr (j, found) ↦
      (let (above, hit, last) = last_from-some t l.base_index l.entries j v.consecutive found in
        let within = get_elem?-beyond (j - l.base_index - 1) l.entries in
        rw (last_index_loop-reverse, found)
          (ground (arith, v.bounded, within, last (i - l.base_index - 1))))
]

-- An index above 0 that `last_index_for_term` returns lies in the log, and has the term.
pub term_at-last_index_for_term :
    (t : Term) (l : RaftLog)
    → IsValid l
    → 0 < last_index_for_term t l
    → (last_index_for_term t l ≤ last_index l) × (term_at (last_index_for_term t l) l ≡ ok t)
term_at-last_index_for_term t l v h =
    let found = last_index_for_term_lem t l 0 v in (found.1, found.0 h)

-- No entry above what `last_index_for_term` returns has the term.
pub last_index_for_term-greatest :
    (t : Term) (l : RaftLog) (i : Index)
    → IsValid l
    → last_index_for_term t l < i
    → i ≤ last_index l
    → l.base_index < i
    → term_at i l ≢ ok t
last_index_for_term-greatest t l i v h hi lo = (last_index_for_term_lem t l i v).2 h hi lo
