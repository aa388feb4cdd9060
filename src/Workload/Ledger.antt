-- ===== src/Workload/Ledger.antt =====
-- Counting what waits: clients, and entries of the history.
use sim_kv.Prelude.{
  ℕ, zero, suc, ◌+◌, ◌≡◌, ◌≢◌, refl, ap, List, [], ◌∷◌, ◌++◌, Bool, true, false, some, length,
  get_elem?, arith, Bool-cases, inl, inr, replicate,
}
use sim_kv.Types.{Bytes}
use sim_kv.Prng.{set}
use sim_kv.History.{HistoryEntry, History, record_return}
use sim_kv.Workload.{ClientState}

abbrev pub one_if : Bool → ℕ
one_if true = 1
one_if false = 0

abbrev pub waiting_count : List ClientState → ℕ
waiting_count [] = 0
waiting_count (cs ∷ rest) = one_if cs.waiting + waiting_count rest

abbrev pub pending_count : History → ℕ
pending_count [] = 0
pending_count (e ∷ es) = one_if e.pending + pending_count es

pub waiting_count-set :
    (i : ℕ) (cs cs' : ClientState) (clients : List ClientState)
    → get_elem? clients i ≡ some cs
    → waiting_count (set clients i cs') + one_if cs.waiting
      ≡ waiting_count clients + one_if cs'.waiting
waiting_count-set i cs cs' [] h = cc
waiting_count-set zero cs cs' (x ∷ clients) h =
    let same : x ≡ cs = cc in omega (arith, ap (λ (c : ClientState). one_if c.waiting) same)
waiting_count-set (suc i) cs cs' (x ∷ clients) h =
    omega (arith, waiting_count-set i cs cs' clients h)

pub get_elem?-set_self {ℓ} :
    {A : Type ℓ} (i : ℕ) (x y : A) (xs : List A)
    → get_elem? xs i ≡ some x
    → get_elem? (set xs i y) i ≡ some y
get_elem?-set_self i x y [] h = cc
get_elem?-set_self zero x y (z ∷ xs) h = refl
get_elem?-set_self (suc i) x y (z ∷ xs) h = get_elem?-set_self i x y xs h

pub get_elem?-set_ne {ℓ} :
    {A : Type ℓ} (i j : ℕ) (y : A) (xs : List A) → i ≢ j → get_elem? (set xs i y) j ≡ get_elem? xs j
get_elem?-set_ne i j y [] h = refl
get_elem?-set_ne zero zero y (z ∷ xs) h = absurd (h refl)
get_elem?-set_ne zero (suc j) y (z ∷ xs) h = refl
get_elem?-set_ne (suc i) zero y (z ∷ xs) h = refl
get_elem?-set_ne (suc i) (suc j) y (z ∷ xs) h = get_elem?-set_ne i j y xs (λ e. h (ap suc e))

-- A return is recorded in one entry, which is pending no longer.
pub pending_count-record_return :
    (i t : ℕ) (was_ok : Bool) (response : Bytes) (e : HistoryEntry) (es : History)
    → get_elem? es i ≡ some e
    → pending_count (record_return i t was_ok response es) + one_if e.pending ≡ pending_count es
unfolding record_return
pending_count-record_return i t was_ok response e [] h = cc
pending_count-record_return zero t was_ok response e (x ∷ es) h =
    let same : x ≡ e = cc in omega (arith, ap (λ (c : HistoryEntry). one_if c.pending) same)
pending_count-record_return (suc i) t was_ok response e (x ∷ es) h =
    omega (arith, pending_count-record_return i t was_ok response e es h)

pub get_elem?-record_return_ne :
    (i j t : ℕ) (was_ok : Bool) (response : Bytes) (es : History)
    → i ≢ j
    → get_elem? (record_return i t was_ok response es) j ≡ get_elem? es j
unfolding record_return
get_elem?-record_return_ne i j t was_ok response [] h = refl
get_elem?-record_return_ne zero zero t was_ok response (x ∷ es) h = absurd (h refl)
get_elem?-record_return_ne zero (suc j) t was_ok response (x ∷ es) h = refl
get_elem?-record_return_ne (suc i) zero t was_ok response (x ∷ es) h = refl
get_elem?-record_return_ne (suc i) (suc j) t was_ok response (x ∷ es) h =
    get_elem?-record_return_ne i j t was_ok response es (λ e. h (ap suc e))

pub length-record_return :
    (i t : ℕ) (was_ok : Bool) (response : Bytes) (es : History)
    → length (record_return i t was_ok response es) ≡ length es
unfolding record_return
length-record_return i t was_ok response [] = refl
length-record_return zero t was_ok response (x ∷ es) = refl
length-record_return (suc i) t was_ok response (x ∷ es) =
    ap suc (length-record_return i t was_ok response es)

pub pending_count-append :
    (es : History) (e : HistoryEntry)
    → pending_count (es ++ e ∷ []) ≡ pending_count es + one_if e.pending
pending_count-append [] e = omega arith
pending_count-append (x ∷ es) e = omega (arith, pending_count-append es e)

pub waiting_count-replicate :
    (n : ℕ) (cs : ClientState) → cs.waiting ≡ false → waiting_count (replicate n cs) ≡ 0
waiting_count-replicate zero cs h = refl
waiting_count-replicate (suc n) cs h = omega (arith, ap one_if h, waiting_count-replicate n cs h)

pub idle-replicate :
    (n i : ℕ) (cs found : ClientState) → get_elem? (replicate n cs) i ≡ some found → cs ≡ found
idle-replicate zero i cs found h = cc
idle-replicate (suc n) zero cs found h = cc
idle-replicate (suc n) (suc i) cs found h = idle-replicate n i cs found h

-- A count of nothing pending leaves no entry pending.
pub not_pending :
    (i : ℕ) (e : HistoryEntry) (es : History)
    → pending_count es ≡ 0
    → get_elem? es i ≡ some e
    → e.pending ≡ false
not_pending i e [] h k = cc
not_pending zero e (x ∷ es) h k =
    let same : x ≡ e = cc in
    elim (Bool-cases e.pending) [
      | inr clear ↦ clear
      | inl open' ↦
          absurd (omega (arith, ap (λ (c : HistoryEntry). one_if c.pending) same, ap one_if open'))
    ]
not_pending (suc i) e (x ∷ es) h k = not_pending i e es (omega arith) k

pub get_elem?-append_some {ℓ} :
    {A : Type ℓ} (i : ℕ) (x : A) (xs ys : List A)
    → get_elem? xs i ≡ some x
    → get_elem? (xs ++ ys) i ≡ some x
get_elem?-append_some i x [] ys h = cc
get_elem?-append_some zero x (z ∷ xs) ys h = h
get_elem?-append_some (suc i) x (z ∷ xs) ys h = get_elem?-append_some i x xs ys h
