-- ===== src/Checker/Linearizable.antt =====
-- What it means that operations on one key are linearizable.
use mathlib.Core.List.{Perm, Pairwise}
use sim_kv.Prelude.{
  ◌<◌, ◌≡◌, List, [], ◌∷◌, Bool, true, false, not, ◌&&◌, ◌||◌, if◌then◌else◌, codes, refl, arith,
}
use sim_kv.History.{OpKind, op_put}
use sim_kv.Types.{Bytes}
use sim_kv.KvStore.{bytes_eq}
use sim_kv.KvStore.Refinement.{bytes_eq_iff}
use sim_kv.Checker.{
  KeyOp, KvState, apply_model, response_matches, classify, certain_ops, uncertain_puts,
}

-- An operation that returned before the other was invoked.
abbrev pub Precedes : KeyOp → KeyOp → Type 0
Precedes a b = (0 < a.ret) × (a.ret < b.invoke)

-- The observed responses are those of the model, one operation after the other.
abbrev pub IsLegal : KvState → List KeyOp → Type 0
IsLegal state [] = Unit
IsLegal state (op ∷ ops) =
    (response_matches op (apply_model state op).1 ≡ true) × IsLegal (apply_model state op).0 ops

-- An order of all the operations in which each gets its response, and none stands before one that
-- preceded it.
pub record Linearization (state : KvState) (ops : List KeyOp) : Type 0 where
  pub order : List KeyOp
  pub permutes : Perm order ops
  pub legal : IsLegal state order
  pub respects : Pairwise (λ a b. ¬ (Precedes b a)) order

-- Whether an operation was answered, and not by one of the three errors that say nothing of its effect.
abbrev pub is_settled : KeyOp → Bool
is_settled op =
    not op.pending
    && (not (bytes_eq op.response (codes "timeout"))
        && (not (bytes_eq op.response (codes "not_leader"))
            && not (bytes_eq op.response (codes "node_crashed"))))

-- Whether the answer is that the node crashed.
abbrev pub is_in_doubt : KeyOp → Bool
is_in_doubt op = not op.pending && bytes_eq op.response (codes "node_crashed")

abbrev pub writes : OpKind → Bool
writes op_put = true
writes _ = false

-- The operations that have an answer which tells their effect.
unfoldable pub settled : List KeyOp → List KeyOp
settled [] = []
settled (op ∷ ops) = let rest = settled ops in if is_settled op then op ∷ rest else rest

-- The puts that a crash left in doubt.
unfoldable pub doubtful_puts : List KeyOp → List KeyOp
doubtful_puts [] = []
doubtful_puts (op ∷ ops) =
    let rest = doubtful_puts ops in if is_in_doubt op && writes op.kind then op ∷ rest else rest

pub certain_ops-settled : (ops : List KeyOp) → certain_ops ops ≡ settled ops
unfolding certain_ops settled classify
certain_ops-settled [] = refl
certain_ops-settled (op ∷ ops) = ground (arith, certain_ops-settled ops)

crashed_answer :
    (answer : Bytes)
    → answer ≡ codes "node_crashed"
    → (bytes_eq answer (codes "timeout") || bytes_eq answer (codes "not_leader")) ≡ false
unfolding bytes_eq
crashed_answer answer e = rw e refl

not_both :
    (op : KeyOp)
    → bytes_eq op.response (codes "node_crashed") ≡ true
    → (bytes_eq op.response (codes "timeout") || bytes_eq op.response (codes "not_leader")) ≡ false
not_both op h = crashed_answer op.response (bytes_eq_iff op.response (codes "node_crashed") h)

pub uncertain_puts-doubtful : (ops : List KeyOp) → uncertain_puts ops ≡ doubtful_puts ops
unfolding uncertain_puts doubtful_puts classify
uncertain_puts-doubtful [] = refl
uncertain_puts-doubtful (op ∷ ops) = ground (arith, uncertain_puts-doubtful ops, not_both op)
