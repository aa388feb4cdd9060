-- ===== src/Log/Shape.antt =====
-- The shape of a log: its entries carry the indices from base_index + 1 on, without a gap, and every
-- operation keeps it.
use sim_kv.Prelude.{
  ℕ, zero, suc, ◌+◌, ◌-◌, ◌^◌, ◌≤◌, ◌<◌, ◌≡◌, List, [], ◌∷◌, ◌++◌, some, arith, length, take, drop,
  get_elem?, length-append, length-take, length-drop, subst,
}
use sim_kv.Result.{ok}
use sim_kv.Types.{Term, Index, LogEntry}
use sim_kv.Log.{RaftLog, empty, last_index, append, truncate_from, set_snapshot}

abbrev pub Consecutive : Index → List LogEntry → Type 0
Consecutive b [] = Unit {0}
Consecutive b (e ∷ es) = (e.index ≡ suc b) × Consecutive (suc b) es

pub record IsValid (l : RaftLog) : Type 0 where
  pub consecutive : Consecutive l.base_index l.entries
  pub bounded : l.base_index + length l.entries < 2 ^ 64

pub empty-IsValid : IsValid empty
empty-IsValid = record { consecutive = tt; bounded = omega arith }

Consecutive-append :
    (b : Index) (es : List LogEntry) (e : LogEntry)
    → Consecutive b es
    → e.index ≡ suc (b + length es)
    → Consecutive b (es ++ e ∷ [])
Consecutive-append b [] e c h = (omega arith, tt)
Consecutive-append b (x ∷ es) e c h = (c.0, Consecutive-append (suc b) es e c.1 (omega arith))

pub Consecutive-take : (n b : ℕ) (es : List LogEntry) → Consecutive b es → Consecutive b (take n es)
Consecutive-take zero b es c = tt
Consecutive-take (suc n) b [] c = tt
Consecutive-take (suc n) b (e ∷ es) c = (c.0, Consecutive-take n (suc b) es c.1)

pub Consecutive-drop :
    (n b d : ℕ) (es : List LogEntry)
    → d ≡ b + n
    → n ≤ length es
    → Consecutive b es
    → Consecutive d (drop n es)
Consecutive-drop zero b d es e h c = subst (λ (k : ℕ). Consecutive k es) (omega arith) c
Consecutive-drop (suc n) b d [] e h c = tt
Consecutive-drop (suc n) b d (x ∷ es) e h c =
    Consecutive-drop n (suc b) d es (omega arith) (omega arith) c.1

-- Position `i` holds the index base_index + 1 + i.
pub Consecutive-get_elem? :
    (i b : ℕ) (es : List LogEntry) {e : LogEntry}
    → Consecutive b es
    → get_elem? es i ≡ some e
    → e.index ≡ suc (b + i)
Consecutive-get_elem? i b [] c h = cc
Consecutive-get_elem? zero b (x ∷ es) c h = ground (arith, c.0)
Consecutive-get_elem? (suc i) b (x ∷ es) c h =
    omega (arith, Consecutive-get_elem? i (suc b) es c.1 h)

-- Below 2^64 the index arithmetic does not wrap.
pub last_index-IsValid : (l : RaftLog) → IsValid l → last_index l ≡ l.base_index + length l.entries
last_index-IsValid l v = omega (arith, v.bounded)

-- `append` keeps the shape while the index space lasts; its assert is what the shape needs.
pub append-IsValid :
    (e : LogEntry) (l : RaftLog) {l' : RaftLog}
    → IsValid l
    → last_index l + 1 < 2 ^ 64
    → append e l ≡ ok l'
    → IsValid l'
unfolding append
append-IsValid e l v room h = ground (
  arith,
  Consecutive-append l.base_index l.entries e v.consecutive,
  length-append l.entries (e ∷ []),
)

-- Truncating, from any index, keeps the shape.
pub truncate_from-IsValid :
    (from : Index) (l : RaftLog) → IsValid l → IsValid (truncate_from from l)
unfolding truncate_from
truncate_from-IsValid from l v =
    let n = from - l.base_index - 1 in
    ground (arith, Consecutive-take n l.base_index l.entries v.consecutive, length-take n l.entries)

-- A snapshot at any index below 2^64, old or past the end, keeps the shape.
pub set_snapshot-IsValid :
    (n : Index) (t : Term) (l : RaftLog) → n < 2 ^ 64 → IsValid l → IsValid (set_snapshot n t l)
unfolding set_snapshot
set_snapshot-IsValid n t l h v = ground (
  arith,
  Consecutive-drop (n - l.base_index) l.base_index n l.entries,
  length-drop (n - l.base_index) l.entries,
)
