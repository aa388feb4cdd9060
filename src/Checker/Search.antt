-- ===== src/Checker/Search.antt =====
-- The search finds a linearization exactly where there is one.
use mathlib.Core.List.{
  Mem, Pairwise, perm_middle, forall_mem-cons, not-mem-nil, mem-append_left, mem-append_right,
  mem-append,
}
use mathlib.Core.List.Perm
use mathlib.Core.Logic.Or
use sim_kv.Prelude.{
  ℕ, zero, suc, ◌≡◌, refl, sym, ap, ◌∙◌, subst, ◌↔◌, List, [], ◌∷◌, ◌++◌, append_assoc, Bool, true,
  false, ◌&&◌, arith, length, length-append, Bool-cases, inl, inr, All, ltb,
}
use sim_kv.Checker.{
  KeyOp, KvState, Slot, eligible, may_come_next, try_slots, wg_check, apply_model, response_matches,
}
use sim_kv.Checker.Linearizable.{Precedes, Linearization}

nil_of_length {ℓ} : {A : Type ℓ} {xs : List A} → length xs ≡ 0 → xs ≡ []
nil_of_length {xs = []} h = refl
nil_of_length {xs = x ∷ xs} h = absurd (omega arith)

-- The operations that are not placed.
abbrev pub remaining : List Slot → List KeyOp
remaining [] = []
remaining ((op, true) ∷ slots) = remaining slots
remaining ((op, false) ∷ slots) = op ∷ remaining slots

-- The operation of the slot has returned.
abbrev pub IsReturned : Slot → Type 0
IsReturned slot = slot.0.pending ≡ false

module _ {ℓ κ} {A : Type ℓ} (P : A → Type κ) where
  pub All-middle : (x : A) (xs ys : List A) → All P (xs ++ x ∷ ys) → All P xs × P x × All P ys
  All-middle x [] ys (p, ps) = (tt, p, ps)
  All-middle x (z ∷ xs) ys (p, ps) = let (a, b, c) = All-middle x xs ys ps in ((p, a), b, c)

  pub middle-All : (x : A) (xs ys : List A) → All P xs → P x → All P ys → All P (xs ++ x ∷ ys)
  middle-All x [] ys a b c = (b, c)
  middle-All x (z ∷ xs) ys (p, a) b c = (p, middle-All x xs ys a b c)

remaining-append : (a b : List Slot) → remaining (a ++ b) ≡ remaining a ++ remaining b
remaining-append [] b = refl
remaining-append ((op, true) ∷ a) b = remaining-append a b
remaining-append ((op, false) ∷ a) b = ap (λ l. op ∷ l) (remaining-append a b)

-- None of the operations preceded `op`.
abbrev pub Free : KeyOp → List KeyOp → Type 0
Free op ops = (b : KeyOp) → Mem b ops → ¬ (Precedes b op)

Free-cons :
    (op o : KeyOp) (ops : List KeyOp) → Free op (o ∷ ops) ↔ ((¬ (Precedes o op)) × Free op ops)
Free-cons op o ops = forall_mem-cons (λ b. hlevel)

Free-nil : (op : KeyOp) → Free op []
Free-nil op b m = absurd (not-mem-nil m)

-- An operation may come next exactly if no remaining one preceded it.
eligible_sound :
    (op : KeyOp) (slots : List Slot)
    → All IsReturned slots
    → eligible op slots ≡ true
    → Free op (remaining slots)
unfolding eligible
eligible_sound op [] r h = Free-nil op
eligible_sound op ((o, true) ∷ slots) (r, rs) h = eligible_sound op slots rs h
eligible_sound op ((o, false) ∷ slots) (r, rs) h =
    (Free-cons op o (remaining slots)).1
      (λ (p, q). ground arith, eligible_sound op slots rs (ground arith))

pub eligible_complete :
    (op : KeyOp) (slots : List Slot)
    → All IsReturned slots
    → Free op (remaining slots)
    → eligible op slots ≡ true
unfolding eligible
eligible_complete op [] r h = refl
eligible_complete op ((o, true) ∷ slots) (r, rs) h = eligible_complete op slots rs h
eligible_complete op ((o, false) ∷ slots) (r, rs) h =
    let (a, b) = (Free-cons op o (remaining slots)).0 h in
    elim (Bool-cases (ltb 0 o.ret && ltb o.ret op.invoke)) [
      | inl early ↦ absurd (a (ground arith))
      | inr late ↦ rw (r, late) (eligible_complete op slots rs b)
    ]

Free-append : (op : KeyOp) (xs ys : List KeyOp) → Free op xs → Free op ys → Free op (xs ++ ys)
Free-append op xs ys f g b m = λ p. Or.elim (hlevel) (mem-append.0 m) (λ h. f b h p) (λ h. g b h p)

pub Free-left : (op : KeyOp) (xs ys : List KeyOp) → Free op (xs ++ ys) → Free op xs
Free-left op xs ys f b m = f b (mem-append_left ys m)

pub Free-right : (op : KeyOp) (xs ys : List KeyOp) → Free op (xs ++ ys) → Free op ys
Free-right op xs ys f b m = f b (mem-append_right xs m)

-- One step of an order: `op`, and an order of the others.
extend :
    (op : KeyOp) (s : KvState) (before after : List KeyOp)
    → response_matches op (apply_model s op).1 ≡ true
    → Free op before
    → Free op after
    → Linearization (apply_model s op).0 (before ++ after)
    → Linearization s (before ++ op ∷ after)
extend op s before after right free_before free_after lin = record {
  order = op ∷ lin.order;
  permutes = Perm.trans (Perm.cons op lin.permutes) (Perm.symm (perm_middle before after));
  legal = (right, lin.legal);
  respects =
      Pairwise.cons
        (λ b m.
          Free-append op before after free_before free_after b ((Perm.mem_iff lin.permutes).0 m))
        lin.respects;
}

-- Placing an operation takes it out of those that remain.
pub remaining-middle :
    (op : KeyOp) (b a : List Slot)
    → remaining (b ++ (op, false) ∷ a) ≡ remaining b ++ op ∷ remaining a
remaining-middle op b a = remaining-append b ((op, false) ∷ a)

pub remaining-placed :
    (op : KeyOp) (b a : List Slot) → remaining (b ++ (op, true) ∷ a) ≡ remaining b ++ remaining a
remaining-placed op b a = remaining-append b ((op, true) ∷ a)

pub length-placed :
    (op : KeyOp) (b a : List Slot)
    → length (remaining (b ++ (op, false) ∷ a)) ≡ suc (length (remaining (b ++ (op, true) ∷ a)))
length-placed op b a =
    rw (remaining-middle op b a, remaining-placed op b a)
      (omega (
        arith,
        length-append (remaining b) (op ∷ remaining a),
        length-append (remaining b) (remaining a),
      ))

-- What a search that stands behind the choice of an operation must be.
abbrev pub FindsOrder : (List Slot → KvState → Bool) → ℕ → Type 0
FindsOrder next left =
    (slots : List Slot) (s : KvState)
    → All IsReturned slots
    → length (remaining slots) ≡ left
    → next slots s ≡ true
    → Linearization s (remaining slots)

hit_sound :
    (next : List Slot → KvState → Bool) (left : ℕ) (s : KvState) (op : KeyOp) (b a : List Slot)
    → FindsOrder next left
    → All IsReturned (b ++ (op, false) ∷ a)
    → length (remaining (b ++ (op, false) ∷ a)) ≡ suc left
    → may_come_next s (op, false) b a ≡ true
    → next (b ++ (op, true) ∷ a) (apply_model s op).0 ≡ true
    → Linearization s (remaining (b ++ (op, false) ∷ a))
unfolding may_come_next
hit_sound next left s op b a ih r n may found =
    let (rb, ro, ra) = All-middle IsReturned (op, false) b a r in
    let lin =
      ih (b ++ (op, true) ∷ a) (apply_model s op).0 (middle-All IsReturned _ b a rb ro ra)
        (omega (arith, length-placed op b a)) found in
    rw (remaining-middle op b a) (
      extend op s (remaining b) (remaining a) (ground arith) (eligible_sound op b rb (ground arith))
        (eligible_sound op a ra (ground arith))
        (subst (Linearization (apply_model s op).0) (remaining-placed op b a) lin))

try_sound :
    (next : List Slot → KvState → Bool) (left : ℕ) (s : KvState) (all before slots : List Slot)
    → before ++ slots ≡ all
    → FindsOrder next left
    → All IsReturned all
    → length (remaining all) ≡ suc left
    → try_slots next s before slots ≡ true
    → Linearization s (remaining all)
unfolding try_slots
try_sound next left s all before [] e ih r n h = cc
try_sound next left s all before ((op, true) ∷ after) e ih r n h =
    try_sound next left s all (before ++ (op, true) ∷ []) after
      (append_assoc before ((op, true) ∷ []) after ∙ e) ih r n (unfold may_come_next in h)
try_sound next left s all before ((op, false) ∷ after) e ih r n h =
    let onward =
      try_sound next left s all (before ++ (op, false) ∷ []) after
        (append_assoc before ((op, false) ∷ []) after ∙ e) ih r n in
    elim (Bool-cases (may_come_next s (op, false) before after)) [
      | inr no_way ↦ onward (ground arith)
      | inl may ↦ elim (Bool-cases (next (before ++ (op, true) ∷ after) (apply_model s op).0)) [
        | inr lost ↦ onward (ground arith)
        | inl found ↦
            subst (λ l. Linearization s (remaining l)) e
              (hit_sound next left s op before after ih (subst (All IsReturned) (sym e) r)
                (ap (λ l. length (remaining l)) e ∙ n) may found)
      ]
    ]

pub wg_check_sound : (left : ℕ) → FindsOrder (wg_check left) left
unfolding wg_check
wg_check_sound zero slots s r n h =
    rw (nil_of_length n)
      (record { order = []; permutes = Perm.refl []; legal = tt; respects = Pairwise.nil })
wg_check_sound (suc left) slots s r n h =
    try_sound (wg_check left) left s slots [] slots refl (wg_check_sound left) r n h
