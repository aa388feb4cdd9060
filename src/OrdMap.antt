-- ===== src/OrdMap.antt =====
-- std::map and std::set: association lists in the order of their keys.
pub mod Laws
use Prim.Native.Nat.{Ordering, compare}
use Prim.Native.Nat.Ordering.{lt, eq, gt}
use sim_kv.Prelude.{ℕ, ◌≡◌, refl, List, [], ◌∷◌, Option, none, some, arith}

pub record Ord {ℓ} (K : Type ℓ) : Type ℓ where
  pub cmp : K → K → Ordering
  pub self_eq : (k : K) → cmp k k ≡ eq
  pub lt_chain : (i j k : K) → cmp i j ≡ lt → cmp j k ≡ lt → cmp i k ≡ lt
  pub flip_lt : (j k : K) → cmp j k ≡ lt → cmp k j ≡ gt
  pub flip_gt : (j k : K) → cmp j k ≡ gt → cmp k j ≡ lt
  pub eq_same : (j k : K) → cmp j k ≡ eq → j ≡ k

pub nat_refl : (a : ℕ) → compare a a ≡ eq
nat_refl a = ground arith

pub nat_eq : (a b : ℕ) → compare a b ≡ eq → a ≡ b
nat_eq a b h = ground arith

pub nat_gt : (a b : ℕ) → compare a b ≡ gt → compare b a ≡ lt
nat_gt a b h = ground arith

pub nat_lt : (a b : ℕ) → compare a b ≡ lt → compare b a ≡ gt
nat_lt a b h = ground arith

pub nat_trans : (a b c : ℕ) → compare a b ≡ lt → compare b c ≡ lt → compare a c ≡ lt
nat_trans a b c h k = ground arith

instance abbrev pub nat_ord : Ord ℕ
nat_ord = record {
  cmp = compare;
  self_eq = nat_refl;
  eq_same = nat_eq;
  flip_gt = nat_gt;
  flip_lt = nat_lt;
  lt_chain = nat_trans;
}

-- The order of std::string: byte by byte, a proper prefix first.
abbrev pub lex : List ℕ → List ℕ → Ordering
lex [] [] = eq
lex [] (b ∷ bs) = lt
lex (a ∷ as') [] = gt
lex (a ∷ as') (b ∷ bs) =
    let rest = lex as' bs in elim (compare a b) [ lt ↦ lt | eq ↦ rest | gt ↦ gt ]

pub lex_refl : (a : List ℕ) → lex a a ≡ eq
lex_refl [] = refl
lex_refl (x ∷ a) = ground (arith, lex_refl a)

pub lex-eq : (a b : List ℕ) → lex a b ≡ eq → a ≡ b
lex-eq [] [] h = refl
lex-eq [] (y ∷ b) h = cc
lex-eq (x ∷ a) [] h = cc
lex-eq (x ∷ a) (y ∷ b) h = ground (arith, lex-eq a b)

pub lex-gt : (a b : List ℕ) → lex a b ≡ gt → lex b a ≡ lt
lex-gt [] [] h = cc
lex-gt [] (y ∷ b) h = cc
lex-gt (x ∷ a) [] h = refl
lex-gt (x ∷ a) (y ∷ b) h = ground (arith, lex-gt a b)

pub lex-lt : (a b : List ℕ) → lex a b ≡ lt → lex b a ≡ gt
lex-lt [] [] h = cc
lex-lt [] (y ∷ b) h = refl
lex-lt (x ∷ a) [] h = cc
lex-lt (x ∷ a) (y ∷ b) h = ground (arith, lex-lt a b)

pub lex_trans : (a b c : List ℕ) → lex a b ≡ lt → lex b c ≡ lt → lex a c ≡ lt
lex_trans [] [] c h k = cc
lex_trans [] (y ∷ b) [] h k = cc
lex_trans [] (y ∷ b) (z ∷ c) h k = refl
lex_trans (x ∷ a) [] c h k = cc
lex_trans (x ∷ a) (y ∷ b) [] h k = cc
lex_trans (x ∷ a) (y ∷ b) (z ∷ c) h k = ground (arith, lex_trans a b c)

instance abbrev pub bytes_ord : Ord (List ℕ)
bytes_ord = record {
  cmp = lex;
  self_eq = lex_refl;
  eq_same = lex-eq;
  flip_gt = lex-gt;
  flip_lt = lex-lt;
  lt_chain = lex_trans;
}

abbrev pub OrdMap {ℓ κ} : Type ℓ → Type κ → Type (ℓ ⊔ κ)
OrdMap K V = List (K × V)

module _ {ℓ κ} {K : Type ℓ} {V : Type κ} ⦃o : Ord K⦄ where
  -- `m.find(k)`
  unfoldable pub find : K → OrdMap K V → Option V
  find k [] = none
  find k ((j, v) ∷ m) =
      let rest = find k m in elim (o.cmp k j) [ lt ↦ none | eq ↦ some v | gt ↦ rest ]

  -- `m[k] = v`
  unfoldable pub put : K → V → OrdMap K V → OrdMap K V
  put k v [] = (k, v) ∷ []
  put k v ((j, w) ∷ m) =
      let rest = put k v m in
      elim (o.cmp k j) [ lt ↦ (k, v) ∷ (j, w) ∷ m | eq ↦ (k, v) ∷ m | gt ↦ (j, w) ∷ rest ]

  -- `m.erase(k)`
  unfoldable pub erase : K → OrdMap K V → OrdMap K V
  erase k [] = []
  erase k ((j, w) ∷ m) =
      let rest = erase k m in elim (o.cmp k j) [ lt ↦ (j, w) ∷ m | eq ↦ m | gt ↦ (j, w) ∷ rest ]
