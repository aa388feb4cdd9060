-- ===== src/Prng/Range.antt =====
-- What Prng::range draws: in its bounds, and each number from equally many words.
use native.Mathlib.Nat.{
  div-lt_iff_lt-mul, add-mul-div_right, div-add-mod', mod-eq-sub-mod, mod-lt, suc-mul, mul_comm,
  mul-lt-mul_of_pos_left,
}
use sim_kv.Prelude.{
  if◌then◌else◌, none, false, Option-cases, ℕ, zero, suc, ◌+◌, ◌-◌, ◌*◌, ◌/◌, ◌%◌, ◌^◌, ◌<◌, ◌≤◌,
  ◌≡◌, refl, ap, sym, subst, ◌∙◌, ◌↔◌, inl, inr, some, Option, ltb, Bool, true, arith, sub64, add64,
  Bool-cases,
}
use sim_kv.Prng.{Prng, next_u64, high_word, low_word, threshold, reject, range_word, range}

-- The k-th word that the generator gives from here on, and the state behind it.
unfoldable pub draw : ℕ → Prng → ℕ × Prng
draw zero p = next_u64 p
draw (suc k) p = draw k (next_u64 p).1

-- The words that the rejection loop ends with.
abbrev pub IsAccepted : ℕ → ℕ → Type 0
IsAccepted n x = threshold n ≤ low_word x n

-- The first word that gives r.
abbrev pub first_word : ℕ → ℕ → ℕ
first_word n r = (r * 2 ^ 64 + threshold n + (n - 1)) / n

ceil_le : (a n x : ℕ) → 0 < n → ((a + (n - 1)) / n ≤ x) ↔ (a ≤ x * n)
ceil_le a n x h =
    let both = div-lt_iff_lt-mul {k = n} {x = a + (n - 1)} {y = suc x} h in
    (
      λ le. omega (arith, both.0 (omega arith), suc-mul x n),
      λ le. omega (arith, both.1 (omega (arith, suc-mul x n))),
    )

threshold-mod : (n : ℕ) → 0 < n → n < 2 ^ 64 → threshold n ≡ 2 ^ 64 % n
threshold-mod n h k = sym (mod-eq-sub-mod (omega arith) ∙ ap (λ a. a % n) (omega arith))

threshold-add : (n : ℕ) → 0 < n → n < 2 ^ 64 → 2 ^ 64 / n * n + threshold n ≡ 2 ^ 64
threshold-add n h k = rw (threshold-mod n h k) (div-add-mod' (2 ^ 64) n)

next_u64-lt : (p : Prng) → (next_u64 p).0 < 2 ^ 64
unfolding next_u64
next_u64-lt p = omega arith

high_word-lt : (x n : ℕ) → 0 < n → x < 2 ^ 64 → high_word x n < n
high_word-lt x n h k =
    (div-lt_iff_lt-mul (omega arith)).1
      (omega (arith, mul-lt-mul_of_pos_left {k = n} k h, mul_comm x n))

lt_by : (a b : ℕ) → (b ≤ a → ⊥) → a < b
lt_by a b h = elim (Bool-cases (ltb a b)) [
  | inl less ↦ ground arith
  | inr other ↦ absurd (h (ground arith))
]

-- A number by its high and its low word.
split_iff :
    (t r y : ℕ)
    → t < 2 ^ 64
    → ((t ≤ y % 2 ^ 64) × (y / 2 ^ 64 ≡ r)) ↔ ((r * 2 ^ 64 + t ≤ y) × (y < r * 2 ^ 64 + 2 ^ 64))
split_iff t r y h = (λ p. omega arith, λ p. omega arith)

-- Lemire's rejection is fair: where n is at least 1 and below 2^64, the words that are accepted and
-- give r are 2^64 / n words in a row, whichever r below n it is.
pub IsAccepted-iff :
    (n r x : ℕ)
    → 0 < n
    → n < 2 ^ 64
    → (IsAccepted n x × (high_word x n ≡ r))
      ↔ ((first_word n r ≤ x) × (x < first_word n r + 2 ^ 64 / n))
IsAccepted-iff n r x h k =
    let low = ceil_le (r * 2 ^ 64 + threshold n) n x h in
    let high = ceil_le (r * 2 ^ 64 + 2 ^ 64) n x h in
    let last : (r * 2 ^ 64 + 2 ^ 64 + (n - 1)) / n ≡ first_word n r + 2 ^ 64 / n =
      ap (λ a. a / n) (omega (arith, threshold-add n h k))
      ∙ add-mul-div_right (r * 2 ^ 64 + threshold n + (n - 1)) (2 ^ 64 / n) h in
    let small : threshold n < n = mod-lt (sub64 0 n) h in
    let words = split_iff (threshold n) r (x * n) (omega arith) in
    (
      λ (a, b).
          let (from, upto) = words.0 (a, b) in
          (low.1 from, lt_by x _ (λ le. omega (arith, high.0 (omega arith)))),
      λ (a, b). words.1 (low.0 a, lt_by (x * n) _ (λ le. omega (arith, high.1 le))),
    )

-- The k-th word that the loop looks at, the one that it starts with first.
abbrev looked_at : ℕ → ℕ → Prng → ℕ
looked_at zero x p = x
looked_at (suc k) x p = (draw k p).0

looked_at-next :
    (k x : ℕ) (p : Prng) → looked_at (suc k) x p ≡ looked_at k (next_u64 p).0 (next_u64 p).1
unfolding draw
looked_at-next zero x p = refl
looked_at-next (suc k) x p = refl

-- A word that is below 2^64 and accepted, drawn by the loop.
record Drawn (n : ℕ) (drawn : Option (ℕ × Prng)) : Type 0 where
  word : ℕ
  after : Prng
  returned : drawn ≡ some (word, after)
  small : word < 2 ^ 64

-- The loop ends once one of the words that it may look at is accepted.
reject_lem :
    (fuel k n x : ℕ) (p : Prng)
    → k < fuel
    → x < 2 ^ 64
    → IsAccepted n (looked_at k x p)
    → Drawn n (reject fuel (threshold n) n x p)
unfolding reject
reject_lem zero k n x p h small acc = absurd (omega arith)
reject_lem (suc fuel) zero n x p h small acc = record {
  word = x;
  after = p;
  returned = ground arith;
  small = small;
}
reject_lem (suc fuel) (suc k) n x p h small acc =
    elim (Bool-cases (ltb (low_word x n) (threshold n))) [
      | inl low ↦ rw low (
          reject_lem fuel k n (next_u64 p).0 (next_u64 p).1 (omega arith) (next_u64-lt p)
            (subst (IsAccepted n) (looked_at-next k x p) acc))
      | inr enough ↦ rw enough (record { word = x; after = p; returned = refl; small = small })
    ]

range_word_lem :
    (fuel k n : ℕ) (p : Prng)
    → 0 < n
    → k < fuel
    → IsAccepted n (draw k p).0
    → Drawn n (range_word fuel n p)
unfolding range_word
range_word_lem fuel k n p h fits acc = elim (Bool-cases (ltb (low_word (next_u64 p).0 n) n)) [
  | inl low ↦ rw low (
      reject_lem fuel k n (next_u64 p).0 (next_u64 p).1 fits (next_u64-lt p)
        (subst (IsAccepted n) (looked_at-next k 0 p) acc))
  | inr enough ↦ rw enough (record {
    word = (next_u64 p).0;
    after = (next_u64 p).1;
    returned = refl;
    small = next_u64-lt p;
  })
]

range_of_word :
    (fuel lo hi n x : ℕ) (p p' : Prng)
    → sub64 hi lo ≡ n
    → range_word fuel n p ≡ some (x, p')
    → range fuel lo hi p ≡ some (add64 (high_word x n) lo, p')
unfolding range
range_of_word fuel lo hi n x p p' same drawn = rw (same, range, drawn, same) refl

-- range returns a number from lo up to hi, hi left out, once one of the words that its fuel lets it
-- draw is accepted by the rejection test.
pub range_bounds :
    (fuel k lo hi : ℕ) (p : Prng)
    → lo < hi
    → hi < 2 ^ 64
    → k < fuel
    → IsAccepted (hi - lo) (draw k p).0
    → (r : ℕ) × (p' : Prng) × (range fuel lo hi p ≡ some (r, p')) × (lo ≤ r) × (r < hi)
range_bounds fuel k lo hi p h small fits acc =
    let d = range_word_lem fuel k (hi - lo) p (omega arith) fits acc in
    let below = high_word-lt d.word (hi - lo) (omega arith) d.small in
    (
      add64 (high_word d.word (hi - lo)) lo,
      d.after,
      range_of_word fuel lo hi (hi - lo) d.word p d.after (omega arith) d.returned,
      omega arith,
      omega arith,
    )

reject-lt :
    (fuel t n x w : ℕ) (p p' : Prng) → x < 2 ^ 64 → reject fuel t n x p ≡ some (w, p') → w < 2 ^ 64
unfolding reject
reject-lt zero t n x w p p' small e = cc
reject-lt (suc fuel) t n x w p p' small e = elim (Bool-cases (ltb (low_word x n) t)) [
  | inl low ↦ reject-lt fuel t n (next_u64 p).0 w (next_u64 p).1 p' (next_u64-lt p) (ground arith)
  | inr enough ↦ let same : x ≡ w = ground arith in subst (λ y. y < 2 ^ 64) same small
]

range_word-lt : (fuel n w : ℕ) (p p' : Prng) → range_word fuel n p ≡ some (w, p') → w < 2 ^ 64
unfolding range_word
range_word-lt fuel n w p p' e = elim (Bool-cases (ltb (low_word (next_u64 p).0 n) n)) [
  | inl low ↦
      reject-lt fuel (threshold n) n (next_u64 p).0 w (next_u64 p).1 p' (next_u64-lt p)
        (ground arith)
  | inr enough ↦
      let same : (next_u64 p).0 ≡ w = ground arith in subst (λ y. y < 2 ^ 64) same (next_u64-lt p)
]

-- A number that range returns lies from lo up to hi, hi left out.
pub range-inside :
    (fuel lo hi r : ℕ) (p p' : Prng)
    → lo < hi
    → hi < 2 ^ 64
    → range fuel lo hi p ≡ some (r, p')
    → (lo ≤ r) × (r < hi)
unfolding range
range-inside fuel lo hi r p p' h small e = elim (Option-cases (range_word fuel (sub64 hi lo) p)) [
  | inl spent ↦ absurd (ground arith)
  | inr ((w, q), drawn) ↦
      let same : sub64 hi lo ≡ hi - lo = omega arith in
      let below =
        high_word-lt w (hi - lo) (omega arith) (range_word-lt fuel (sub64 hi lo) w p q drawn) in
      let is : add64 (high_word w (sub64 hi lo)) lo ≡ r = ground arith in
      let is' : add64 (high_word w (hi - lo)) lo ≡ r =
        subst (λ n. add64 (high_word w n) lo ≡ r) same is in
      (omega arith, omega arith)
]

-- What range does with one word: it draws again where the word is rejected.
one_round :
    (lo hi n : ℕ) (p : Prng)
    → sub64 hi lo ≡ n
    → 0 < n
    → range 1 lo hi p ≡ (
        if ltb (low_word (next_u64 p).0 n) (threshold n)
        then none
        else some (add64 (high_word (next_u64 p).0 n) lo, (next_u64 p).1))
unfolding range range_word reject
one_round lo hi n p same some_n =
    let below : threshold n < n = mod-lt (sub64 0 n) some_n in
    elim (Bool-cases (ltb (low_word (next_u64 p).0 n) n)) [
      | inr high ↦
          let accepted : ltb (low_word (next_u64 p).0 n) (threshold n) ≡ false = ground arith in
          rw (same, range, high, accepted, same) refl
      | inl low ↦ elim (Bool-cases (ltb (low_word (next_u64 p).0 n) (threshold n))) [
        | inl rejected ↦ rw (same, range, low, rejected) refl
        | inr accepted ↦ rw (same, range, low, accepted, same) refl
      ]
    ]

IsAccepted-ltb : (n x : ℕ) → (ltb (low_word x n) (threshold n) ≡ false) ↔ IsAccepted n x
IsAccepted-ltb n x = ground arith

-- Where a test of one word passes.
abbrev if_kept : Bool → ℕ × Prng → Option (ℕ × Prng)
if_kept rejected answer = if rejected then none else some answer

answers_iff :
    (b : Bool) (v u : ℕ) (q : Prng) → (if_kept b (v, q) ≡ some (u, q)) ↔ ((b ≡ false) × (v ≡ u))
answers_iff true v u q = ((λ h. cc), (λ h. cc))
answers_iff false v u q = ((λ h. (refl, cc)), (λ h. cc))

-- range is fair: of the words that the generator may give first, those for which it answers lo + r
-- with no further draw are 2^64 / n in a row, where n is hi - lo, whatever r below n is.
pub range-fair :
    (lo hi r : ℕ) (p : Prng)
    → lo < hi
    → hi < 2 ^ 64
    → r < hi - lo
    → (range 1 lo hi p ≡ some (lo + r, (next_u64 p).1)) ↔ (
        (first_word (hi - lo) r ≤ (next_u64 p).0)
        × ((next_u64 p).0 < first_word (hi - lo) r + 2 ^ 64 / (hi - lo)))
range-fair lo hi r p h small within =
    let n = hi - lo in
    let x = (next_u64 p).0 in
    let round = one_round lo hi n p (omega arith) (omega arith) in
    let below = high_word-lt x n (omega arith) (next_u64-lt p) in
    let fair = IsAccepted-iff n r x (omega arith) (omega arith) in
    let test =
      answers_iff (ltb (low_word x n) (threshold n)) (add64 (high_word x n) lo) (lo + r)
        (next_u64 p).1 in
    let passes = IsAccepted-ltb n x in
    (
      λ answered.
          let (accepted, same) = test.0 (sym round ∙ answered) in
          fair.0 (passes.0 accepted, omega arith),
      λ inside.
          let (accepted, same) = fair.1 inside in round ∙ test.1 (passes.1 accepted, omega arith),
    )

-- range with a first word that is accepted draws that word only.
pub range-first :
    (fuel lo hi : ℕ) (p : Prng)
    → lo < hi
    → hi < 2 ^ 64
    → IsAccepted (hi - lo) (next_u64 p).0
    → (r : ℕ) × (range (suc fuel) lo hi p ≡ some (r, (next_u64 p).1))
unfolding range range_word reject
range-first fuel lo hi p h small acc =
    let n = hi - lo in
    let same : sub64 hi lo ≡ n = omega arith in
    let accepted = (IsAccepted-ltb n (next_u64 p).0).1 acc in
    (
      add64 (high_word (next_u64 p).0 n) lo,
      elim (Bool-cases (ltb (low_word (next_u64 p).0 n) n)) [
        | inl low ↦ rw (same, range, low, accepted, same) refl
        | inr high ↦ rw (same, range, high, same) refl
      ],
    )
