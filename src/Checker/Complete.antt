-- ===== src/Checker/Complete.antt =====
-- The search misses no linearization.
use mathlib.Core.Bool.{Bool-set}
use mathlib.Core.List.{
  Mem, Perm, Pairwise, perm_middle, mem-cons_self, eq-or-mem_of_mem-cons, not-mem-nil,
  Pairwise-cons,
}
use mathlib.Core.List.Perm
use mathlib.Core.Logic.Or
use sim_kv.Prelude.{
  ℕ, zero, suc, ◌≡◌, refl, sym, ap, ◌∙◌, subst, List, [], ◌∷◌, ◌++◌, append_assoc, Bool, true,
  false, arith, length, All,
}
use sim_kv.Checker.{KeyOp, KvState, Slot, may_come_next, try_slots, wg_check, apply_model}
use sim_kv.Checker.Linearizable.{Precedes, IsLegal, Linearization}
use sim_kv.Checker.Search.{
  remaining, IsReturned, All-middle, middle-All, eligible_complete, Free-left, Free-right,
  remaining-middle, remaining-placed, length-placed,
}

-- The choice of `op` succeeds wherever it stands among the slots.
abbrev Succeeds : (List Slot → KvState → Bool) → KvState → KeyOp → List Slot → Type 0
Succeeds next s op all =
    (b a : List Slot)
    → b ++ (op, false) ∷ a ≡ all
    → (may_come_next s (op, false) b a ≡ true)
      × (next (b ++ (op, true) ∷ a) (apply_model s op).0 ≡ true)

placed_never : (s : KvState) (op : KeyOp) (b a : List Slot) → may_come_next s (op, true) b a ≡ false
unfolding may_come_next
placed_never s op b a = refl

try_hit :
    (next : List Slot → KvState → Bool) (s : KvState) (op : KeyOp) (all before slots : List Slot)
    → before ++ slots ≡ all
    → Succeeds next s op all
    → Mem op (remaining slots)
    → try_slots next s before slots ≡ true
unfolding try_slots
try_hit next s op all before [] e win m = absurd (not-mem-nil m)
try_hit next s op all before ((o, true) ∷ after) e win m = rw (placed_never s o before after) (
    try_hit next s op all (before ++ (o, true) ∷ []) after
      (append_assoc before ((o, true) ∷ []) after ∙ e) win m)
try_hit next s op all before ((o, false) ∷ after) e win m =
    let onward =
      try_hit next s op all (before ++ (o, false) ∷ []) after
        (append_assoc before ((o, false) ∷ []) after ∙ e) win in
    Or.elim (Bool-set _ _) (eq-or-mem_of_mem-cons m)
      (λ same.
        let (may, found) = win before after (ap (λ x. before ++ (x, false) ∷ after) same ∙ e) in
        rw (← same, may, found) refl)
      (λ later. ground (arith, onward later))

-- The first operation of an order may be placed, and the others have an order.
hit_complete :
    (left : ℕ) (s : KvState) (op : KeyOp) (order : List KeyOp) (b a : List Slot)
    → ((slots : List Slot) (s' : KvState)
        → All IsReturned slots
        → length (remaining slots) ≡ left
        → Linearization s' (remaining slots)
        → wg_check left slots s' ≡ true)
    → All IsReturned (b ++ (op, false) ∷ a)
    → length (remaining (b ++ (op, false) ∷ a)) ≡ suc left
    → Perm (op ∷ order) (remaining (b ++ (op, false) ∷ a))
    → IsLegal s (op ∷ order)
    → Pairwise (λ x y. ¬ (Precedes y x)) (op ∷ order)
    → (may_come_next s (op, false) b a ≡ true)
      × (wg_check left (b ++ (op, true) ∷ a) (apply_model s op).0 ≡ true)
unfolding may_come_next
hit_complete left s op order b a ih r n perm (right, legal) pairs =
    let (rb, ro, ra) = All-middle IsReturned (op, false) b a r in
    let rest = Perm.cons_inv (
      Perm.trans (subst (λ l. Perm (op ∷ order) l) (remaining-middle op b a) perm)
        (perm_middle (remaining b) (remaining a))) in
    let (free, later) = Pairwise-cons.0 pairs in
    let both =
      λ (x : KeyOp) (m : Mem x (remaining b ++ remaining a)). free x ((Perm.mem_iff rest).1 m) in
    let fb = eligible_complete op b rb (Free-left op (remaining b) (remaining a) both) in
    let fa = eligible_complete op a ra (Free-right op (remaining b) (remaining a) both) in
    (
      ground arith,
      ih (b ++ (op, true) ∷ a) (apply_model s op).0 (middle-All IsReturned _ b a rb ro ra)
          (omega (arith, length-placed op b a))
          (record {
            order = order;
            permutes = subst (λ l. Perm order l) (sym (remaining-placed op b a)) rest;
            legal = legal;
            respects = later;
          }),
    )

start :
    (left : ℕ) (slots : List Slot) (s : KvState) (order : List KeyOp)
    → ((slots' : List Slot) (s' : KvState)
        → All IsReturned slots'
        → length (remaining slots') ≡ left
        → Linearization s' (remaining slots')
        → wg_check left slots' s' ≡ true)
    → All IsReturned slots
    → length (remaining slots) ≡ suc left
    → Perm order (remaining slots)
    → IsLegal s order
    → Pairwise (λ x y. ¬ (Precedes y x)) order
    → try_slots (wg_check left) s [] slots ≡ true
start left slots s [] ih r n perm legal pairs = absurd (omega (arith, ap length (Perm.nil-eq perm)))
start left slots s (op ∷ order) ih r n perm legal pairs =
    try_hit (wg_check left) s op slots [] slots refl
      (λ b a e.
        hit_complete left s op order b a ih (subst (All IsReturned) (sym e) r)
          (ap (λ l. length (remaining l)) e ∙ n)
          (subst (λ l. Perm (op ∷ order) (remaining l)) (sym e) perm) legal pairs)
      ((Perm.mem_iff perm).0 mem-cons_self)

pub wg_check_complete :
    (left : ℕ) (slots : List Slot) (s : KvState)
    → All IsReturned slots
    → length (remaining slots) ≡ left
    → Linearization s (remaining slots)
    → wg_check left slots s ≡ true
unfolding wg_check
wg_check_complete zero slots s r n lin = refl
wg_check_complete (suc left) slots s r n lin =
    start left slots s lin.order (wg_check_complete left) r n lin.permutes lin.legal lin.respects
