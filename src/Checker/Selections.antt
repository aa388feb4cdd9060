-- ===== src/Checker/Selections.antt =====
-- Which of the puts of unknown outcome a mask stands for.
use sim_kv.Prelude.{
  ℕ, zero, suc, ◌+◌, ◌*◌, ◌/◌, ◌%◌, ◌^◌, ◌<◌, ◌≡◌, refl, List, [], ◌∷◌, true, false, arith, length,
  Bool-cases, inl, inr, map, take, ◌==◌, if◌then◌else◌,
}
use sim_kv.Checker.{KeyOp, confirmed, masked}

-- Some of the elements, in their order.
pub data Selection {ℓ} {A : Type ℓ} : List A → List A → Type ℓ where
  done : Selection [] []
  with_it : (x : A) {xs ys : List A} → Selection xs ys → Selection (x ∷ xs) (x ∷ ys)
  without_it : (x : A) {xs ys : List A} → Selection xs ys → Selection xs (x ∷ ys)

module _ {ℓ} {A : Type ℓ} where
  pub Selection-nil : (xs : List A) → Selection [] xs
  Selection-nil [] = Selection.done
  Selection-nil (x ∷ xs) = Selection.without_it x (Selection-nil xs)

  pub Selection-self : (xs : List A) → Selection xs xs
  Selection-self [] = Selection.done
  Selection-self (x ∷ xs) = Selection.with_it x (Selection-self xs)

  pub Selection-take :
      (n : ℕ) (xs : List A) {ys : List A} → Selection ys (take n xs) → Selection ys xs
  Selection-take zero xs Selection.done = Selection-nil xs
  Selection-take (suc n) [] s = s
  Selection-take (suc n) (x ∷ xs) (Selection.with_it _ s) =
      Selection.with_it x (Selection-take n xs s)
  Selection-take (suc n) (x ∷ xs) (Selection.without_it _ s) =
      Selection.without_it x (Selection-take n xs s)

-- A mask picks a selection.
pub picked : ℕ → List KeyOp → List KeyOp
picked mask [] = []
picked mask (op ∷ ops) =
    let rest = picked (mask / 2) ops in if mask % 2 == 1 then op ∷ rest else rest

pub picked-Selection : (mask : ℕ) (ops : List KeyOp) → Selection (picked mask ops) ops
unfolding picked
picked-Selection mask [] = Selection.done
picked-Selection mask (op ∷ ops) =
    let rest = picked-Selection (mask / 2) ops in
    elim (Bool-cases (mask % 2 == 1)) [
      | inl set ↦ rw set (Selection.with_it op rest)
      | inr clear ↦ rw clear (Selection.without_it op rest)
    ]

pub masked-picked :
    (mask : ℕ) (ops : List KeyOp) → masked mask ops ≡ map confirmed (picked mask ops)
unfolding masked picked
masked-picked mask [] = refl
masked-picked mask (op ∷ ops) = elim (Bool-cases (mask % 2 == 1)) [
  | inl set ↦ rw (set, masked-picked (mask / 2) ops) refl
  | inr clear ↦ rw (clear, masked-picked (mask / 2) ops) refl
]

-- A selection is picked by a mask.
pub mask_of : {xs ys : List KeyOp} → Selection xs ys → ℕ
mask_of Selection.done = 0
mask_of (Selection.with_it x s) = 2 * mask_of s + 1
mask_of (Selection.without_it x s) = 2 * mask_of s

double_pow : (n : ℕ) → 2 ^ suc n ≡ 2 * 2 ^ n
double_pow n = omega arith

pub mask_of-lt : {xs ys : List KeyOp} (s : Selection xs ys) → mask_of s < 2 ^ length ys
unfolding mask_of
mask_of-lt Selection.done = omega arith
mask_of-lt (Selection.with_it x {ys = ys} s) = omega (arith, double_pow (length ys), mask_of-lt s)
mask_of-lt (Selection.without_it x {ys = ys} s) =
    omega (arith, double_pow (length ys), mask_of-lt s)

pub masked-mask_of :
    {xs ys : List KeyOp} (s : Selection xs ys) → masked (mask_of s) ys ≡ map confirmed xs
unfolding masked mask_of
masked-mask_of Selection.done = refl
masked-mask_of (Selection.with_it x s) =
    let half : (2 * mask_of s + 1) / 2 ≡ mask_of s = omega arith in
    let odd : ((2 * mask_of s + 1) % 2 == 1) ≡ true = ground arith in
    rw (odd, half, masked-mask_of s) refl
masked-mask_of (Selection.without_it x s) =
    let half : 2 * mask_of s / 2 ≡ mask_of s = omega arith in
    let even : (2 * mask_of s % 2 == 1) ≡ false = ground arith in
    rw (even, half, masked-mask_of s) refl
