-- ===== src/Prng/Shuffle.antt =====
-- Prng::shuffle returns the elements that it was given, in some order.
use mathlib.Core.List.{Perm}
use mathlib.Core.List.Perm
use sim_kv.Prelude.{
  true, subst, ◌<◌, ◌≤◌, ◌^◌, ℕ, zero, suc, ◌≡◌, List, [], ◌∷◌, some, ltb, arith, Bool-cases,
  Option-cases, inl, inr, get_elem?, length, refl, ap, ◌∙◌,
}
use sim_kv.Prng.Range.{draw, IsAccepted, range-first}
use sim_kv.Prng.{next_u64, Prng, set, swap, range, shuffle_from, shuffle}

some_inj {ℓ} : {A : Type ℓ} {x y : A} → some x ≡ some y → x ≡ y
some_inj h = cc

module _ {ℓ} {A : Type ℓ} where
  exchange : (j : ℕ) (x y : A) (v : List A) → get_elem? v j ≡ some y → Perm (y ∷ set v j x) (x ∷ v)
  exchange j x y [] h = cc
  exchange zero x y (w ∷ v) h = rw (some_inj h) (Perm.swap _ _ _)
  exchange (suc j) x y (w ∷ v) h =
      Perm.trans (Perm.swap _ _ _) (Perm.trans (Perm.cons w (exchange j x y v h)) (Perm.swap _ _ _))

  set-set-Perm :
      (i j : ℕ) (x y : A) (v : List A)
      → get_elem? v i ≡ some x
      → get_elem? v j ≡ some y
      → Perm (set (set v i y) j x) v
  set-set-Perm i j x y [] h k = Perm.refl []
  set-set-Perm zero zero x y (w ∷ v) h k = rw (some_inj h) (Perm.refl _)
  set-set-Perm zero (suc j) x y (w ∷ v) h k = rw (some_inj h) (exchange j x y v k)
  set-set-Perm (suc i) zero x y (w ∷ v) h k = rw (some_inj k) (exchange i y x v h)
  set-set-Perm (suc i) (suc j) x y (w ∷ v) h k = Perm.cons w (set-set-Perm i j x y v h k)

  swap-Perm : (i j : ℕ) (v : List A) → Perm (swap i j v) v
  unfolding swap
  swap-Perm i j v = elim (Option-cases (get_elem? v i)) [
    | inl out ↦ rw (out, swap) (Perm.refl v)
    | inr (x, at_i) ↦ elim (Option-cases (get_elem? v j)) [
      | inl out ↦ rw (at_i, swap, out) (Perm.refl v)
      | inr (y, at_j) ↦ rw (at_i, swap, at_j) (set-set-Perm i j x y v at_i at_j)
    ]
  ]

  -- What the loop of shuffle returns holds the elements of its list.
  pub shuffle_from-Perm :
      (fuel i : ℕ) (v w : List A) (p p' : Prng) → shuffle_from fuel i v p ≡ some (w, p') → Perm w v
  unfolding shuffle_from
  shuffle_from-Perm fuel zero v w p p' h = let same : v ≡ w = cc in rw same (Perm.refl w)
  shuffle_from-Perm fuel (suc i) v w p p' h = elim (Bool-cases (ltb 0 i)) [
    | inr last ↦ let same : v ≡ w = ground arith in rw same (Perm.refl w)
    | inl more ↦ elim (Option-cases (range fuel 0 (suc i) p)) [
      | inl spent ↦ absurd (ground arith)
      | inr ((j, q), drawn) ↦
          Perm.trans (shuffle_from-Perm fuel i (swap j i v) w q p' (ground arith)) (swap-Perm j i v)
    ]
  ]

  -- A shuffle that returns gives the elements of its list in some order.
  pub shuffle-Perm :
      (fuel : ℕ) (v w : List A) (p p' : Prng) → shuffle fuel v p ≡ some (w, p') → Perm w v
  unfolding shuffle
  shuffle-Perm fuel v w p p' h = shuffle_from-Perm fuel (length v) v w p p' h

  length-set : (v : List A) (i : ℕ) (x : A) → length (set v i x) ≡ length v
  length-set [] i x = refl
  length-set (w ∷ v) zero x = refl
  length-set (w ∷ v) (suc i) x = ap suc (length-set v i x)

  length-swap : (i j : ℕ) (v : List A) → length (swap i j v) ≡ length v
  unfolding swap
  length-swap i j v = elim (Option-cases (get_elem? v i)) [
    | inl out ↦ rw (out, swap) refl
    | inr (x, at_i) ↦ elim (Option-cases (get_elem? v j)) [
      | inl out ↦ rw (at_i, swap, out) refl
      | inr (y, at_j) ↦ rw (at_i, swap, at_j) (length-set (set v i y) j x ∙ length-set v i y)
    ]
  ]

  length-shuffle_from :
      (fuel i : ℕ) (v w : List A) (p p' : Prng)
      → shuffle_from fuel i v p ≡ some (w, p')
      → length w ≡ length v
  unfolding shuffle_from
  length-shuffle_from fuel zero v w p p' h = let same : v ≡ w = cc in rw same refl
  length-shuffle_from fuel (suc i) v w p p' h = elim (Bool-cases (ltb 0 i)) [
    | inr last ↦ let same : v ≡ w = ground arith in rw same refl
    | inl more ↦ elim (Option-cases (range fuel 0 (suc i) p)) [
      | inl spent ↦ absurd (ground arith)
      | inr ((j, q), drawn) ↦
          length-shuffle_from fuel i (swap j i v) w q p' (ground arith) ∙ length-swap j i v
    ]
  ]

  pub length-shuffle :
      (fuel : ℕ) (v w : List A) (p p' : Prng)
      → shuffle fuel v p ≡ some (w, p')
      → length w ≡ length v
  unfolding shuffle
  length-shuffle fuel v w p p' h = length-shuffle_from fuel (length v) v w p p' h

-- The state behind k words.
unfoldable pub skip : ℕ → Prng → Prng
skip zero p = p
skip (suc k) p = skip k (next_u64 p).1

pub draw-skip : (k : ℕ) (p : Prng) → draw k p ≡ next_u64 (skip k p)
unfolding draw skip
draw-skip zero p = refl
draw-skip (suc k) p = draw-skip k (next_u64 p).1

abbrev pub less_one : ℕ → ℕ
less_one zero = zero
less_one (suc n) = n

-- The first m words are accepted for every number of outcomes up to n.
abbrev pub Lucky : ℕ → ℕ → Prng → Type 0
Lucky m n p = (k i : ℕ) → k < m → 0 < i → i ≤ n → IsAccepted i (draw k p).0

Lucky-next : (m n : ℕ) (p : Prng) → Lucky (suc m) n p → Lucky m n (next_u64 p).1
unfolding draw
Lucky-next m n p lucky k i h some_i within = lucky (suc k) i (omega arith) some_i within

shuffle_step {ℓ} :
    {A : Type ℓ} (fuel i j : ℕ) (v : List A) (p q : Prng)
    → ltb 0 i ≡ true
    → range fuel 0 (suc i) p ≡ some (j, q)
    → shuffle_from fuel (suc i) v p ≡ shuffle_from fuel i (swap j i v) q
unfolding shuffle_from
shuffle_step fuel i j v p q more drawn = rw (more, drawn) refl

shuffle_from-returns {ℓ} :
    {A : Type ℓ} (fuel i n : ℕ) (v : List A) (p : Prng)
    → i ≤ n
    → n < 2 ^ 64
    → Lucky i n p
    → (w : List A) × (shuffle_from (suc fuel) i v p ≡ some (w, skip (less_one i) p))
unfolding skip draw
shuffle_from-returns fuel zero n v p le small lucky = (v, unfold shuffle_from in refl)
shuffle_from-returns fuel (suc zero) n v p le small lucky = (v, unfold shuffle_from in refl)
shuffle_from-returns fuel (suc (suc i)) n v p le small lucky =
    let (j, drawn) = range-first fuel 0 (suc (suc i)) p (omega arith) (omega arith) (
      subst (λ k. IsAccepted k (next_u64 p).0) (omega arith)
        (lucky 0 (suc (suc i)) (omega arith) (omega arith) le)) in
    let (w, rest) =
      shuffle_from-returns fuel (suc i) n (swap j (suc i) v) (next_u64 p).1 (omega arith) small
        (Lucky-next (suc i) n p lucky) in
    (w, shuffle_step (suc fuel) (suc i) j v p (next_u64 p).1 (ground arith) drawn ∙ rest)

-- A shuffle whose words are all accepted returns, and draws one word less than it has elements.
pub shuffle-returns {ℓ} :
    {A : Type ℓ} (fuel : ℕ) (v : List A) (p : Prng)
    → length v < 2 ^ 64
    → Lucky (length v) (length v) p
    → (w : List A) × (shuffle (suc fuel) v p ≡ some (w, skip (less_one (length v)) p))
unfolding shuffle
shuffle-returns fuel v p small lucky =
    shuffle_from-returns fuel (length v) (length v) v p (omega arith) small lucky

pub skip-suc : (k : ℕ) (p : Prng) → skip (suc k) p ≡ (next_u64 (skip k p)).1
unfolding skip
skip-suc zero p = refl
skip-suc (suc k) p = skip-suc k (next_u64 p).1
