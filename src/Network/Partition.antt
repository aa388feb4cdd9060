-- ===== src/Network/Partition.antt =====
-- What a partition lets through.
use mathlib.Core.List.{Mem, mem-cons_self, mem-cons_of_mem}
use sim_kv.Prelude.{
  ℕ, zero, suc, ◌-◌, ◌≤◌, ◌≡◌, refl, sym, ap, ◌∙◌, subst, ◌⊎◌, inl, inr, List, [], ◌∷◌, true, some,
  ◌==◌, ==_iff, All, Bool-cases, Option-cases, get_elem?, arith,
}
use sim_kv.OrdMap.{OrdMap, find, put, nat_ord}
use sim_kv.OrdMap.Laws.{IsSorted, put-IsSorted, find-put_self, find-put_ne}
use sim_kv.Types.{Bytes}
use sim_kv.Prng.{Doubles}
use sim_kv.Simulator.{Simulator}
use sim_kv.Network.{Network, Message, assign_group, assign_groups, partition, partitioned, send}

assign_group-IsSorted :
    (g : ℕ) (ids : List ℕ) (m : OrdMap ℕ ℕ) → IsSorted m → IsSorted (assign_group g ids m)
unfolding assign_group
assign_group-IsSorted g [] m h = h
assign_group-IsSorted g (id ∷ ids) m h =
    assign_group-IsSorted g ids (put id g m) (put-IsSorted id g m h)

some_inj {ℓ} : {A : Type ℓ} {x y : A} → some x ≡ some y → x ≡ y
some_inj h = cc

front : (i : ℕ) (ids : List ℕ) (rest : List (List ℕ)) → i ≡ 0 → get_elem? (ids ∷ rest) i ≡ some ids
front zero ids rest h = refl
front (suc i) ids rest h = absurd (omega arith)

behind :
    (i h g : ℕ) (ids : List ℕ) (rest : List (List ℕ)) (found : List ℕ)
    → h - g ≡ suc i
    → get_elem? rest i ≡ some found
    → get_elem? (ids ∷ rest) (h - g) ≡ some found
behind i h g ids rest found e at_i = rw e at_i

-- A node's group is that of the list, if it stands in the list, or what it was.
find-assign_group :
    (id g h : ℕ) (ids : List ℕ) (m : OrdMap ℕ ℕ)
    → IsSorted m
    → find id (assign_group g ids m) ≡ some h
    → ((h ≡ g) × Mem id ids) ⊎ (find id m ≡ some h)
unfolding assign_group
find-assign_group id g h [] m s e = inr e
find-assign_group id g h (x ∷ ids) m s e =
    elim (find-assign_group id g h ids (put x g m) (put-IsSorted x g m s) e) [
      | inl (same, there) ↦ inl (same, mem-cons_of_mem x there)
      | inr before ↦ elim (Bool-cases (id == x)) [
        | inl here ↦
            let here' : id ≡ x = ground arith in
            inl (cc (find-put_self x g m), subst (λ y. Mem y (x ∷ ids)) (sym here') mem-cons_self)
        | inr other ↦ inr (sym (find-put_ne x id g m (λ p. ground arith) s) ∙ before)
      ]
    ]

-- A node has the number of a group that it stands in.
find-assign_groups :
    (id g h : ℕ) (groups : List (List ℕ)) (m : OrdMap ℕ ℕ)
    → IsSorted m
    → find id (assign_groups g groups m) ≡ some h
    → ((g ≤ h) × ((ids : List ℕ) × (get_elem? groups (h - g) ≡ some ids) × Mem id ids))
      ⊎ (find id m ≡ some h)
unfolding assign_groups
find-assign_groups id g h [] m s e = inr e
find-assign_groups id g h (ids ∷ rest) m s e =
    elim (find-assign_groups id (suc g) h rest (assign_group g ids m)
      (assign_group-IsSorted g ids m s) e) [
        | inl (le, (found, at_h, there)) ↦
            inl (
              omega arith,
              (found, behind (h - suc g) h g ids rest found (omega arith) at_h, there),
            )
        | inr before ↦ elim (find-assign_group id g h ids m s before) [
          | inl (same, there) ↦
              inl (omega arith, (ids, front (h - g) ids rest (omega arith), there))
          | inr earlier ↦ inr earlier
        ]
      ]

-- No group holds both nodes.
abbrev pub Apart : ℕ → ℕ → List (List ℕ) → Type 0
Apart from to groups = All (λ ids. ¬ (Mem from ids × Mem to ids)) groups

Apart-at :
    (i from to : ℕ) (groups : List (List ℕ)) (ids : List ℕ)
    → Apart from to groups
    → get_elem? groups i ≡ some ids
    → ¬ (Mem from ids × Mem to ids)
Apart-at i from to [] ids a e p = cc
Apart-at zero from to (g ∷ groups) ids (a, as') e p =
    a (subst (λ l. Mem from l × Mem to l) (sym (some_inj e)) p)
Apart-at (suc i) from to (g ∷ groups) ids (a, as') e p = Apart-at i from to groups ids as' e p

same_group :
    (from to h : ℕ) (groups : List (List ℕ))
    → Apart from to groups
    → find from (assign_groups 0 groups []) ≡ some h
    → find to (assign_groups 0 groups []) ≡ some h
    → ⊥
unfolding find
same_group from to h groups apart e f = elim (find-assign_groups from 0 h groups [] tt e) [
  | inr none_left ↦ cc
  | inl (le, (ids, at_h, there)) ↦ elim (find-assign_groups to 0 h groups [] tt f) [
    | inr none_left ↦ cc
    | inl (le', (ids', at_h', there')) ↦
        Apart-at (h - 0) from to groups ids apart at_h
          (there, subst (λ l. Mem to l) (some_inj (sym at_h' ∙ at_h)) there')
  ]
]

-- After a partition, two nodes that no group holds together are cut off from each other: a node
-- that no group names is cut off from every node, itself included.
pub partitioned-partition :
    {D H : Type 0} (net : Network D H) (groups : List (List ℕ)) (from to : ℕ)
    → Apart from to groups
    → partitioned from to (partition groups net) ≡ true
unfolding partitioned partition
partitioned-partition net groups from to apart =
    elim (Option-cases (find from (assign_groups 0 groups []))) [
      | inl none_from ↦ rw none_from refl
      | inr (g, at_g) ↦ elim (Option-cases (find to (assign_groups 0 groups []))) [
        | inl none_to ↦ rw (at_g, none_to) refl
        | inr (h, at_h) ↦ elim (Bool-cases (g == h)) [
          | inr differ ↦ rw (at_g, at_h, differ) refl
          | inl equal ↦
              absurd
                (same_group from to h groups apart (at_g ∙ ap some ((==_iff g h).0 equal)) at_h)
        ]
      ]
    ]

module _ {D H A : Type 0} ⦃doubles : Doubles D⦄ (deliver : H → Message → A) where
  -- A message between two nodes that no group of a partition holds together is lost, and draws no
  -- random number: the simulator is as before.
  pub send-partition :
      (fuel from to : ℕ) (payload : Bytes) (net : Network D H) (sim : Simulator A)
      (groups : List (List ℕ))
      → Apart from to groups
      → send deliver fuel from to payload (partition groups net) sim ≡ some sim
  unfolding send
  send-partition fuel from to payload net sim groups apart =
      rw (partitioned-partition net groups from to apart, send) refl
