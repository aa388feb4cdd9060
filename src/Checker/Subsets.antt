-- ===== src/Checker/Subsets.antt =====
-- The check of one key tries every selection of the puts of unknown outcome.
use mathlib.Core.List.Perm
use mathlib.Core.List.{Pairwise}
use sim_kv.Prelude.{
  ℕ, zero, suc, ◌+◌, ◌^◌, ◌<◌, ◌≤◌, ◌≡◌, refl, sym, ap, subst, List, [], ◌∷◌, ◌++◌, true, false,
  ◌&&◌, arith, length, none, Bool-cases, inl, inr, ◌⊎◌, ◌≢◌, All, map, leb, ==_iff, append-nil,
  take, ◌==◌,
}
use sim_kv.Checker.{
  KeyOp, Slot, Certainty, is_skipped, is_uncertain, is_certain, try_subset, certain_ops,
  uncertain_puts, classify, confirmed, masked, try_masks, try_singles, try_some, cap, is_nil,
  check_key_linearizable,
}
use sim_kv.Checker.Linearizable.{
  Linearization, settled, doubtful_puts, certain_ops-settled, uncertain_puts-doubtful,
}
use sim_kv.Checker.Register.{
  RegisterOrder, Linearization-RegisterOrder, RegisterOrder-Linearization,
}
use sim_kv.Checker.Search.{remaining, IsReturned, wg_check_sound}
use sim_kv.Checker.Complete.{wg_check_complete}
use sim_kv.Checker.Selections.{
  Selection, Selection-nil, Selection-self, Selection-take, picked, picked-Selection, masked-picked,
  mask_of, mask_of-lt, masked-mask_of,
}

-- The answers on one key are explained: the settled operations have a linearization together with
-- some of the puts that a crash left in doubt, which then took effect. Every other operation is left
-- out: those that are pending, those answered with a timeout or by a node that does not lead, and
-- what is not a put and was answered by a crash.
pub record IsExplained (ops : List KeyOp) : Type 0 where
  pub chosen : List KeyOp
  pub selection : Selection chosen (doubtful_puts ops)
  pub linearization : RegisterOrder (settled ops ++ map confirmed chosen)

-- The same over the lists that the search goes by.
record IsFound (ops : List KeyOp) : Type 0 where
  chosen : List KeyOp
  selection : Selection chosen (uncertain_puts ops)
  linearization : Linearization none (certain_ops ops ++ map confirmed chosen)

IsFound-IsExplained : (ops : List KeyOp) → IsFound ops → IsExplained ops
IsFound-IsExplained ops f = record {
  chosen = f.chosen;
  selection = subst (Selection f.chosen) (uncertain_puts-doubtful ops) f.selection;
  linearization = Linearization-RegisterOrder (settled ops ++ map confirmed f.chosen) (
      subst (λ l. Linearization none (l ++ map confirmed f.chosen)) (certain_ops-settled ops)
        f.linearization);
}

IsExplained-IsFound : (ops : List KeyOp) → IsExplained ops → IsFound ops
IsExplained-IsFound ops f = record {
  chosen = f.chosen;
  selection = subst (Selection f.chosen) (sym (uncertain_puts-doubtful ops)) f.selection;
  linearization =
      subst (λ l. Linearization none (l ++ map confirmed f.chosen)) (sym (certain_ops-settled ops))
        (RegisterOrder-Linearization (settled ops ++ map confirmed f.chosen) f.linearization);
}

fresh : List KeyOp → List Slot
fresh ops = map (λ (o : KeyOp). (o, false)) ops

remaining-fresh : (ops : List KeyOp) → remaining (fresh ops) ≡ ops
unfolding fresh
remaining-fresh [] = refl
remaining-fresh (op ∷ ops) = ap (λ l. op ∷ l) (remaining-fresh ops)

fresh-IsReturned :
    (ops : List KeyOp) → All (λ op. op.pending ≡ false) ops → All IsReturned (fresh ops)
unfolding fresh
fresh-IsReturned [] r = tt
fresh-IsReturned (op ∷ ops) (r, rs) = (r, fresh-IsReturned ops rs)

try_subset_sound :
    (ops : List KeyOp)
    → All (λ op. op.pending ≡ false) ops
    → try_subset ops ≡ true
    → Linearization none ops
unfolding try_subset fresh
try_subset_sound [] r h = record {
  order = [];
  permutes = Perm.refl [];
  legal = tt;
  respects = Pairwise.nil;
}
try_subset_sound (op ∷ ops) r h = subst (Linearization none) (remaining-fresh (op ∷ ops)) (
    wg_check_sound (length (op ∷ ops)) (fresh (op ∷ ops)) none (fresh-IsReturned (op ∷ ops) r)
      (ap length (remaining-fresh (op ∷ ops))) h)

try_subset_complete :
    (ops : List KeyOp)
    → All (λ op. op.pending ≡ false) ops
    → Linearization none ops
    → try_subset ops ≡ true
unfolding try_subset fresh
try_subset_complete [] r h = refl
try_subset_complete (op ∷ ops) r lin =
    wg_check_complete (length (op ∷ ops)) (fresh (op ∷ ops)) none (fresh-IsReturned (op ∷ ops) r)
      (ap length (remaining-fresh (op ∷ ops)))
      (subst (Linearization none) (sym (remaining-fresh (op ∷ ops))) lin)

nil_of_test {ℓ} : {A : Type ℓ} (xs : List A) → is_nil xs ≡ true → xs ≡ []
nil_of_test [] h = refl
nil_of_test (x ∷ xs) h = cc

-- The loop over the masks succeeds exactly if one of them does.
try_masks_sound :
    (count mask : ℕ) (sure puts : List KeyOp)
    → try_masks count mask sure puts ≡ true
    → (k : ℕ) × (try_subset (sure ++ masked k puts) ≡ true)
unfolding try_masks
try_masks_sound zero mask sure puts h = absurd (cc)
try_masks_sound (suc count) mask sure puts h =
    elim (Bool-cases (try_subset (sure ++ masked mask puts))) [
      | inl found ↦ (mask, found)
      | inr lost ↦ try_masks_sound count (suc mask) sure puts (ground arith)
    ]

try_masks_complete :
    (count mask k : ℕ) (sure puts : List KeyOp)
    → mask ≤ k
    → k < mask + count
    → try_subset (sure ++ masked k puts) ≡ true
    → try_masks count mask sure puts ≡ true
unfolding try_masks
try_masks_complete zero mask k sure puts low high h = absurd (omega arith)
try_masks_complete (suc count) mask k sure puts low high h = elim (Bool-cases (mask == k)) [
  | inl here ↦ rw ((==_iff mask k).0 here, h) refl
  | inr later ↦
      ground
        (arith, try_masks_complete count (suc mask) k sure puts (ground arith) (ground arith) h)
]

-- What the loop over single puts, and the shortcut past the cap, may find.
try_singles_sound :
    (sure puts : List KeyOp)
    → try_singles sure puts ≡ true
    → (chosen : List KeyOp) × Selection chosen puts
      × (try_subset (sure ++ map confirmed chosen) ≡ true)
unfolding try_singles
try_singles_sound sure [] h = absurd (cc)
try_singles_sound sure (op ∷ ops) h = elim (Bool-cases (try_subset (sure ++ confirmed op ∷ []))) [
  | inl found ↦ (op ∷ [], Selection.with_it op (Selection-nil ops), found)
  | inr lost ↦
      let (chosen, s, found) = try_singles_sound sure ops (ground arith) in
      (chosen, Selection.without_it op s, found)
]

try_some_sound :
    (sure puts : List KeyOp)
    → try_some sure puts ≡ true
    → (chosen : List KeyOp) × Selection chosen puts
      × (try_subset (sure ++ map confirmed chosen) ≡ true)
unfolding try_some
try_some_sound sure puts h = elim (Bool-cases (try_subset sure)) [
  | inl nothing ↦ ([], Selection-nil puts, rw append-nil nothing)
  | inr lost ↦ elim (Bool-cases (try_subset (sure ++ map confirmed puts))) [
    | inl all ↦ (puts, Selection-self puts, all)
    | inr lost' ↦
        let (chosen, s, found) = try_singles_sound sure (take cap puts) (ground arith) in
        (chosen, Selection-take cap puts s, found)
  ]
]

-- The operations that are searched have returned.
Certainty-cases : (c : Certainty) → (c ≡ is_skipped) ⊎ (c ≡ is_uncertain) ⊎ (c ≡ is_certain)
Certainty-cases is_skipped = inl refl
Certainty-cases is_uncertain = inr (inl refl)
Certainty-cases is_certain = inr (inr refl)

classify-pending : (op : KeyOp) → classify op ≢ is_skipped → op.pending ≡ false
unfolding classify
classify-pending op h = ground arith

certain-returned : (ops : List KeyOp) → All (λ op. op.pending ≡ false) (certain_ops ops)
unfolding certain_ops
certain-returned [] = tt
certain-returned (op ∷ ops) = elim (Certainty-cases (classify op)) [
  | inl e ↦ rw (e, All) (certain-returned ops)
  | inr (inl e) ↦ rw (e, All) (certain-returned ops)
  | inr (inr e) ↦ rw (e, All) (classify-pending op (λ s. cc), certain-returned ops)
]

uncertain-returned : (ops : List KeyOp) → All (λ op. op.pending ≡ false) (uncertain_puts ops)
unfolding uncertain_puts
uncertain-returned [] = tt
uncertain-returned (op ∷ ops) = elim (Certainty-cases (classify op)) [
  | inl e ↦ rw (e, All) (uncertain-returned ops)
  | inr (inl e) ↦ rw (e, All) (classify-pending op (λ s. cc), uncertain-returned ops)
  | inr (inr e) ↦ rw (e, All) (uncertain-returned ops)
]

chosen-returned :
    {xs ys : List KeyOp}
    → Selection xs ys
    → All (λ op. op.pending ≡ false) ys
    → All (λ op. op.pending ≡ false) (map confirmed xs)
chosen-returned Selection.done r = tt
chosen-returned (Selection.with_it x s) (r, rs) = (r, chosen-returned s rs)
chosen-returned (Selection.without_it x s) (r, rs) = chosen-returned s rs

All-append {ℓ κ} :
    {A : Type ℓ} (P : A → Type κ) (xs ys : List A) → All P xs → All P ys → All P (xs ++ ys)
All-append P [] ys p q = q
All-append P (x ∷ xs) ys (p, ps) q = (p, All-append P xs ys ps q)

combined-returned :
    (ops : List KeyOp) {chosen : List KeyOp}
    → Selection chosen (uncertain_puts ops)
    → All (λ op. op.pending ≡ false) (certain_ops ops ++ map confirmed chosen)
combined-returned ops {chosen} s =
    All-append _ (certain_ops ops) (map confirmed chosen) (certain-returned ops)
      (chosen-returned s (uncertain-returned ops))

accept :
    (ops chosen : List KeyOp)
    → Selection chosen (uncertain_puts ops)
    → try_subset (certain_ops ops ++ map confirmed chosen) ≡ true
    → IsExplained ops
accept ops chosen s h = IsFound-IsExplained ops (record {
  chosen = chosen;
  selection = s;
  linearization =
      try_subset_sound (certain_ops ops ++ map confirmed chosen) (combined-returned ops s) h;
})

-- Nothing to search: the empty order.
accept_nothing :
    (ops : List KeyOp)
    → is_nil (certain_ops ops) && is_nil (uncertain_puts ops) ≡ true
    → IsExplained ops
unfolding try_subset
accept_nothing ops h =
    accept ops [] (Selection-nil (uncertain_puts ops))
      (rw (nil_of_test (certain_ops ops) (ground arith)) refl)

-- If the check of one key passes, its answers are explained.
pub check_key_linearizable_sound :
    (ops : List KeyOp) → check_key_linearizable ops ≡ true → IsExplained ops
unfolding check_key_linearizable
check_key_linearizable_sound ops h =
    elim (Bool-cases (is_nil (certain_ops ops) && is_nil (uncertain_puts ops))) [
      | inl nothing ↦ accept_nothing ops nothing
      | inr something ↦ elim (Bool-cases (leb (length (uncertain_puts ops)) cap)) [
        | inl few ↦
            let (mask, found) =
              try_masks_sound (2 ^ length (uncertain_puts ops)) 0 (certain_ops ops)
                (uncertain_puts ops) (ground arith) in
            accept ops (picked mask (uncertain_puts ops))
              (picked-Selection mask (uncertain_puts ops))
              (subst (λ l. try_subset (certain_ops ops ++ l) ≡ true)
                (masked-picked mask (uncertain_puts ops)) found)
        | inr many ↦
            let (chosen, s, found) =
              try_some_sound (certain_ops ops) (uncertain_puts ops) (ground arith) in
            accept ops chosen s found
      ]
    ]

-- If there are no more than 15 puts that a crash left in doubt, the check of one key passes
-- whenever its answers are explained.
pub check_key_linearizable_complete :
    (ops : List KeyOp)
    → length (doubtful_puts ops) ≤ 15
    → IsExplained ops
    → check_key_linearizable ops ≡ true
unfolding check_key_linearizable
check_key_linearizable_complete ops few explained =
    let lin = IsExplained-IsFound ops explained in
    let same = ap length (uncertain_puts-doubtful ops) in
    let found =
      try_masks_complete (2 ^ length (uncertain_puts ops)) 0 (mask_of lin.selection)
        (certain_ops ops) (uncertain_puts ops) (omega arith)
        (omega (arith, mask_of-lt lin.selection))
        (rw (masked-mask_of lin.selection)
          (try_subset_complete _ (combined-returned ops lin.selection) lin.linearization)) in
    ground arith
