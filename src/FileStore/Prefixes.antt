-- ===== src/FileStore/Prefixes.antt =====
-- Prefixes of lists of bytes, and the orders that they need.
use sim_kv.Prelude.{
  ℕ, zero, suc, ◌-◌, ◌≤◌, ◌<◌, ◌≡◌, refl, sym, ap, ◌∙◌, List, [], ◌∷◌, ◌++◌, false, ltb, length,
  drop, take, arith, append-nil,
}
use sim_kv.Types.{Bytes}
use sim_kv.DurableStore.{resize}

module _ {ℓ} {A : Type ℓ} where
  pub take-take : (k n : ℕ) (xs : List A) → k ≤ n → take k (take n xs) ≡ take k xs
  take-take zero n xs h = refl
  take-take (suc k) zero xs h = absurd (omega arith)
  take-take (suc k) (suc n) [] h = refl
  take-take (suc k) (suc n) (x ∷ xs) h = ap (λ t. x ∷ t) (take-take k n xs (omega arith))

  pub take-prefix :
      (k n : ℕ) (xs ys : List A) → k ≤ n → take n xs ≡ take n ys → take k xs ≡ take k ys
  take-prefix k n xs ys h e = sym (take-take k n xs h) ∙ ap (take k) e ∙ take-take k n ys h

  pub take-append-drop : (n : ℕ) (xs : List A) → take n xs ++ drop n xs ≡ xs
  take-append-drop zero xs = refl
  take-append-drop (suc n) [] = refl
  take-append-drop (suc n) (x ∷ xs) = ap (λ t. x ∷ t) (take-append-drop n xs)

pub not_lt : {m n : ℕ} → ltb m n ≡ false → n ≤ m
not_lt h = ground arith

pub le_of_lt : {m n : ℕ} → m < n → m ≤ n
le_of_lt h = omega arith

pub sub_zero : {m n : ℕ} → m ≤ n → m - n ≡ 0
sub_zero h = omega arith

pub resize-take : (n : ℕ) (bs : Bytes) → n ≤ length bs → resize n bs ≡ take n bs
resize-take n bs h = rw (sub_zero h) (append-nil (take n bs))

pub le_refl : {n : ℕ} → n ≤ n
le_refl = omega arith

pub le_antisymm : {m n : ℕ} → m ≤ n → n ≤ m → m ≡ n
le_antisymm h k = omega arith
