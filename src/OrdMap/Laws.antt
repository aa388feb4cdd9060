-- ===== src/OrdMap/Laws.antt =====
-- What a std::map keeps: the order of its keys, and one value for each.
use Prim.Native.Nat.{Ordering}
use Prim.Native.Nat.Ordering.{lt, eq, gt}
use sim_kv.Prelude.{◌≡◌, ◌≢◌, refl, [], ◌∷◌, ◌++◌, none, some, arith, ◌⊎◌, inl, inr}
use sim_kv.OrdMap.{Ord, OrdMap, find, put, erase}

module _ {ℓ κ} {K : Type ℓ} {V : Type κ} ⦃o : Ord K⦄ where
  -- Every key of `m` lies above `k`.
  abbrev pub Above : K → OrdMap K V → Type 0
  Above k [] = Unit
  Above k ((j, v) ∷ m) = (o.cmp k j ≡ lt) × Above k m

  abbrev pub IsSorted : OrdMap K V → Type 0
  IsSorted [] = Unit
  IsSorted ((k, v) ∷ m) = Above k m × IsSorted m

  pub Above-trans : (j k : K) (m : OrdMap K V) → o.cmp j k ≡ lt → Above k m → Above j m
  Above-trans j k [] h a = tt
  Above-trans j k ((i, v) ∷ m) h a = (o.lt_chain j k i h a.0, Above-trans j k m h a.1)

  Above-put : (j k : K) (v : V) (m : OrdMap K V) → o.cmp j k ≡ lt → Above j m → Above j (put k v m)
  unfolding put
  Above-put j k v [] h a = (h, tt)
  Above-put j k v ((i, w) ∷ m) h a = ground (arith, Above-put j k v m)

  pub put-IsSorted : (k : K) (v : V) (m : OrdMap K V) → IsSorted m → IsSorted (put k v m)
  unfolding put
  put-IsSorted k v [] s = (tt, tt)
  put-IsSorted k v ((i, w) ∷ m) s = ground (
    arith,
    put-IsSorted k v m,
    Above-put i k v m,
    Above-trans k i m,
    o.flip_gt k i,
    o.eq_same k i,
  )

  pub find-Above : (k : K) (m : OrdMap K V) → Above k m → find k m ≡ none
  unfolding find
  find-Above k [] a = refl
  find-Above k ((j, v) ∷ m) a = ground arith

  pub find-head : (k : K) (v : V) (m : OrdMap K V) → find k ((k, v) ∷ m) ≡ some v
  unfolding find
  find-head k v m = ground (arith, o.self_eq k)

  find-tail_by :
      (c : Ordering) (j k : K) (v : V) (m : OrdMap K V)
      → o.cmp j k ≡ c
      → Above k m
      → (find j m ≡ find j ((k, v) ∷ m)) ⊎ (find j m ≡ none)
  unfolding find
  find-tail_by lt j k v m e a = inr (find-Above j m (Above-trans j k m e a))
  find-tail_by eq j k v m e a = inr (rw (o.eq_same j k e) (find-Above k m a))
  find-tail_by gt j k v m e a = inl (rw (e, find) refl)

  -- What is found behind the first key is what is found from it on, or nothing.
  pub find-tail :
      (j k : K) (v : V) (m : OrdMap K V)
      → Above k m
      → (find j m ≡ find j ((k, v) ∷ m)) ⊎ (find j m ≡ none)
  find-tail j k v m a = find-tail_by (o.cmp j k) j k v m refl a

  -- A key reads back what was written.
  pub find-put_self : (k : K) (v : V) (m : OrdMap K V) → find k (put k v m) ≡ some v
  unfolding find put
  find-put_self k v [] = ground (arith, o.self_eq k)
  find-put_self k v ((j, w) ∷ m) = ground (arith, o.self_eq k, find-put_self k v m)

  -- Other keys read as before.
  pub find-put_ne :
      (k j : K) (v : V) (m : OrdMap K V) → j ≢ k → IsSorted m → find j (put k v m) ≡ find j m
  unfolding find put
  find-put_ne k j v [] n s = ground (arith, o.eq_same j k)
  find-put_ne k j v ((i, w) ∷ m) n s =
      ground (arith, find-put_ne k j v m, o.eq_same j k, o.eq_same k i, o.lt_chain j k i)

  pub find-erase_self : (k : K) (m : OrdMap K V) → IsSorted m → find k (erase k m) ≡ none
  unfolding find erase
  find-erase_self k [] s = refl
  find-erase_self k ((j, w) ∷ m) s =
      ground (arith, find-erase_self k m, find-Above k m, o.eq_same k j)

  pub find-erase_ne :
      (k j : K) (m : OrdMap K V) → j ≢ k → IsSorted m → find j (erase k m) ≡ find j m
  unfolding find erase
  find-erase_ne k j [] n s = refl
  find-erase_ne k j ((i, w) ∷ m) n s =
      ground (
        arith,
        find-erase_ne k j m,
        o.eq_same k i,
        o.eq_same j i,
        find-Above j m,
        Above-trans j i m,
      )

  Above-erase : (j k : K) (m : OrdMap K V) → Above j m → Above j (erase k m)
  unfolding erase
  Above-erase j k [] a = tt
  Above-erase j k ((i, w) ∷ m) a = ground (arith, Above-erase j k m)

  pub erase-IsSorted : (k : K) (m : OrdMap K V) → IsSorted m → IsSorted (erase k m)
  unfolding erase
  erase-IsSorted k [] s = tt
  erase-IsSorted k ((i, w) ∷ m) s = ground (arith, erase-IsSorted k m, Above-erase i k m)

  -- Writing a key above all others appends it.
  abbrev pub Below : K → OrdMap K V → Type 0
  Below k [] = Unit
  Below k ((j, v) ∷ m) = (o.cmp j k ≡ lt) × Below k m

  pub put-Below : (k : K) (v : V) (m : OrdMap K V) → Below k m → put k v m ≡ m ++ (k, v) ∷ []
  unfolding put
  put-Below k v [] b = refl
  put-Below k v ((j, w) ∷ m) b = ground (arith, put-Below k v m, o.flip_lt j k)
