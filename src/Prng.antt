-- ===== src/Prng.antt =====
-- sim/prng.cpp and prng.hpp: SplitMix64, xoshiro256**, and what is drawn from them. A double is a
-- value of an interface.
pub mod Range
pub mod Shuffle
mod Tests
use Prim.Native.Nat.{bit_or, bit_xor}
use sim_kv.Prelude.{
  ℕ, zero, suc, ◌+◌, ◌-◌, ◌*◌, ◌/◌, ◌%◌, ◌^◌, List, [], ◌∷◌, Bool, true, false, Option, none, some,
  ltb, if◌then◌else◌, add64, sub64, length, get_elem?,
}

-- uint64_t multiplication and left shift
abbrev pub mul64 : ℕ → ℕ → ℕ
mul64 a b = a * b % 2 ^ 64

abbrev pub shl64 : ℕ → ℕ → ℕ
shl64 x k = x * 2 ^ k % 2 ^ 64

abbrev pub shr64 : ℕ → ℕ → ℕ
shr64 x k = x / 2 ^ k

pub record Prng : Type 0 where
  pub s0 : ℕ
  pub s1 : ℕ
  pub s2 : ℕ
  pub s3 : ℕ

-- splitmix64: the state behind it, and the word
unfoldable pub splitmix64 : ℕ → ℕ × ℕ
splitmix64 state =
    let state' = add64 state 0x9e3779b97f4a7c15 in
    let z = mul64 (bit_xor state' (shr64 state' 30)) 0xbf58476d1ce4e5b9 in
    let z' = mul64 (bit_xor z (shr64 z 27)) 0x94d049bb133111eb in (state', bit_xor z' (shr64 z' 31))

unfoldable pub rotl64 : ℕ → ℕ → ℕ
rotl64 x k = bit_or (shl64 x k) (shr64 x (64 - k))

-- the constructor
unfoldable pub seeded : ℕ → Prng
seeded seed =
    let (seed1, w0) = splitmix64 seed in
    let (seed2, w1) = splitmix64 seed1 in
    let (seed3, w2) = splitmix64 seed2 in
    let (seed4, w3) = splitmix64 seed3 in record { s0 = w0; s1 = w1; s2 = w2; s3 = w3 }

unfoldable pub next_u64 : Prng → ℕ × Prng
next_u64 p =
    let result = mul64 (rotl64 (mul64 p.s1 5) 7) 9 in
    let t = shl64 p.s1 17 in
    let s2 = bit_xor p.s2 p.s0 in
    let s3 = bit_xor p.s3 p.s1 in
    let s1 = bit_xor p.s1 s2 in
    let s0 = bit_xor p.s0 s3 in
    (result, record { s0 = s0; s1 = s1; s2 = bit_xor s2 t; s3 = rotl64 s3 45 })

-- the 128-bit product, its high and its low word
abbrev pub high_word : ℕ → ℕ → ℕ
high_word x n = x * n / 2 ^ 64

abbrev pub low_word : ℕ → ℕ → ℕ
low_word x n = x * n % 2 ^ 64

-- `(-n) % n`
abbrev pub threshold : ℕ → ℕ
threshold n = sub64 0 n % n

-- the rejection loop, on fuel: the word that it ends with
unfoldable pub reject : ℕ → (t n x : ℕ) → Prng → Option (ℕ × Prng)
reject zero t n x p = none
reject (suc fuel) t n x p =
    let again = reject fuel t n (next_u64 p).0 (next_u64 p).1 in
    if ltb (low_word x n) t then again else some (x, p)

-- the word that range goes by
unfoldable pub range_word : (fuel n : ℕ) → Prng → Option (ℕ × Prng)
range_word fuel n p =
    let (x, p') = next_u64 p in
    if ltb (low_word x n) n then reject fuel (threshold n) n x p' else some (x, p')

-- Prng::range: `none` where the fuel runs out
unfoldable pub range : (fuel lo hi : ℕ) → Prng → Option (ℕ × Prng)
range fuel lo hi p =
    let n = sub64 hi lo in
    elim (range_word fuel n p) [ none ↦ none | some (x, p') ↦ some (add64 (high_word x n) lo, p') ]

-- What the code uses of double: the comparisons with 0 and 1, the product of a probability and
-- 2^64 - 1 cut to 64 bits, the product of a 53-bit number and 2^-53, sums, and the order.
pub record Doubles (D : Type 0) : Type 0 where
  pub le_zero : D → Bool
  pub ge_one : D → Bool
  pub scaled : D → ℕ
  pub unit_of : ℕ → D
  pub plus : D → D → D
  pub lt : D → D → Bool

unfoldable pub bernoulli : {D : Type 0} ⦃d : Doubles D⦄ → D → Prng → Bool × Prng
bernoulli ⦃d⦄ prob p =
    if d.le_zero prob
    then (false, p)
    else if d.ge_one prob
    then (true, p)
    else (ltb (next_u64 p).0 (d.scaled prob), (next_u64 p).1)

unfoldable pub unit : {D : Type 0} ⦃d : Doubles D⦄ → Prng → D × Prng
unit ⦃d⦄ p = (d.unit_of (shr64 (next_u64 p).0 11), (next_u64 p).1)

-- `v[i] = x`
abbrev pub set {ℓ} : {A : Type ℓ} → List A → ℕ → A → List A
set [] i v = []
set (x ∷ xs) zero v = v ∷ xs
set (x ∷ xs) (suc i) v = x ∷ set xs i v

-- `std::swap(v[i], v[j])`
unfoldable pub swap {ℓ} : {A : Type ℓ} → (i j : ℕ) → List A → List A
swap i j v = elim (get_elem? v i) [
  | none ↦ v
  | some x ↦ elim (get_elem? v j) [ none ↦ v | some y ↦ set (set v i y) j x ]
]

-- the loop of shuffle, from i down to 2
unfoldable pub shuffle_from {ℓ} :
    {A : Type ℓ} → (fuel i : ℕ) → List A → Prng → Option (List A × Prng)
shuffle_from fuel zero v p = some (v, p)
shuffle_from fuel (suc i) v p =
    let rest = λ (j : ℕ) (p' : Prng). shuffle_from fuel i (swap j i v) p' in
    if ltb 0 i
    then elim (range fuel 0 (suc i) p) [ none ↦ none | some (j, p') ↦ rest j p' ]
    else some (v, p)

unfoldable pub shuffle {ℓ} : {A : Type ℓ} → ℕ → List A → Prng → Option (List A × Prng)
shuffle fuel v p = shuffle_from fuel (length v) v p
