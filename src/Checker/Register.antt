-- ===== src/Checker/Register.antt =====
-- The register that the operations on one key must behave like, and the model of the checker.
use mathlib.Core.List.{Perm, Pairwise}
use sim_kv.Prelude.{
  ◌≡◌, refl, sym, ap, ◌∙◌, ◌↔◌, inl, inr, List, [], ◌∷◌, Bool, true, false, Bool-cases, none, some,
  if◌then◌else◌, codes, subst,
}
use sim_kv.Types.{Bytes}
use sim_kv.KvStore.{bytes_eq, value_or_empty}
use sim_kv.KvStore.Refinement.{bytes_eq_iff, bytes_ne}
use sim_kv.History.{OpKind, op_put, op_get, op_cas}
use sim_kv.Checker.{
  KeyOp, KvState, apply_model, apply_kind, response_matches, kind_matches, iff_bool,
}
use sim_kv.Checker.Linearizable.{Precedes, IsLegal, Linearization}

-- The value that a key reads as: the empty string while nothing was written.
abbrev read_as : KvState → Bytes
read_as none = []
read_as (some v) = v

-- The answers of a register: a put succeeds, a get gives the value, and a compare-and-set succeeds
-- exactly where the value is the expected one.
abbrev pub Fits : OpKind → KvState → KeyOp → Type 0
Fits op_put state op = op.ok ≡ true
Fits op_get state op = op.response ≡ read_as state
Fits op_cas state op = (op.ok ≡ true) ↔ (read_as state ≡ op.expected)

-- What it holds afterwards.
abbrev pub state_after : OpKind → KvState → KeyOp → KvState
state_after op_put state op = some op.value
state_after op_get state op = state
state_after op_cas state op = if op.ok then some op.value else state

-- Operations that a register answers so, one after the other.
abbrev pub IsRegisterRun : KvState → List KeyOp → Type 0
IsRegisterRun state [] = Unit
IsRegisterRun state (op ∷ ops) =
    Fits op.kind state op × IsRegisterRun (state_after op.kind state op) ops

bytes_eq_both : (a b : Bytes) → (bytes_eq a b ≡ true) ↔ (a ≡ b)
bytes_eq_both a b = (
  bytes_eq_iff a b,
  λ e. elim (Bool-cases (bytes_eq a b)) [
    | inl same ↦ same
    | inr other ↦ absurd (bytes_ne a b other e)
  ],
)

read_as_value : (state : KvState) → value_or_empty state ≡ read_as state
read_as_value none = refl
read_as_value (some v) = refl

-- The model's outcome of a compare-and-set.
abbrev cas_outcome : Bool → KeyOp → KvState → KvState × Bytes
cas_outcome same op state =
    if same then (some op.value, codes "ok") else (state, codes "cas_mismatch")

cas_response :
    (same : Bool) (op : KeyOp) (state : KvState)
    → bytes_eq (cas_outcome same op state).1 (codes "ok") ≡ same
unfolding bytes_eq
cas_response true op state = refl
cas_response false op state = refl

iff_bool_iff : (a b : Bool) → (iff_bool a b ≡ true) ↔ ((a ≡ true) ↔ (b ≡ true))
iff_bool_iff true true = ((λ h. ((λ k. k), (λ k. k))), (λ h. refl))
iff_bool_iff true false = ((λ h. cc), (λ h. h.0 refl))
iff_bool_iff false true = ((λ h. cc), (λ h. h.1 refl))
iff_bool_iff false false = ((λ h. ((λ k. k), (λ k. k))), (λ h. refl))

expects :
    (state : KvState) (op : KeyOp)
    → (bytes_eq (value_or_empty state) op.expected ≡ true) ↔ (read_as state ≡ op.expected)
expects state op =
    subst (λ v. (bytes_eq (value_or_empty state) op.expected ≡ true) ↔ (v ≡ op.expected))
      (read_as_value state) (bytes_eq_both (value_or_empty state) op.expected)

Fits-iff :
    (k : OpKind) (state : KvState) (op : KeyOp)
    → (kind_matches k op (apply_kind k state op).1 ≡ true) ↔ Fits k state op
unfolding kind_matches apply_kind
Fits-iff op_put state op = ((λ h. h), (λ h. h))
Fits-iff op_get state op =
    subst (λ v. (bytes_eq op.response v ≡ true) ↔ (op.response ≡ read_as state))
      (sym (read_as_value state)) (bytes_eq_both op.response (read_as state))
Fits-iff op_cas state op =
    let same = bytes_eq (value_or_empty state) op.expected in
    let response = ap (iff_bool op.ok) (cas_response same op state) in
    let both = iff_bool_iff op.ok same in
    let known = expects state op in
    (
      λ h. let k = both.0 (sym response ∙ h) in ((λ o. known.0 (k.0 o)), (λ e. k.1 (known.1 e))),
      λ f. response ∙ both.1 ((λ o. known.1 (f.0 o)), (λ e. f.1 (known.0 e))),
    )

state_after-apply_kind :
    (k : OpKind) (state : KvState) (op : KeyOp)
    → Fits k state op
    → (apply_kind k state op).0 ≡ state_after k state op
unfolding apply_kind
state_after-apply_kind op_put state op h = refl
state_after-apply_kind op_get state op h = refl
state_after-apply_kind op_cas state op h =
    let known = expects state op in
    elim (Bool-cases (bytes_eq (value_or_empty state) op.expected)) [
      | inl same ↦ rw (same, h.1 (known.0 same)) refl
      | inr other ↦ elim (Bool-cases op.ok) [
        | inl succeeded ↦ absurd (cc (other, known.1 (h.0 succeeded)))
        | inr failed ↦ rw (other, failed) refl
      ]
    ]

IsLegal-IsRegisterRun :
    (state : KvState) (ops : List KeyOp) → IsLegal state ops → IsRegisterRun state ops
unfolding response_matches apply_model
IsLegal-IsRegisterRun state [] h = tt
IsLegal-IsRegisterRun state (op ∷ ops) (answers, rest) =
    let fits = (Fits-iff op.kind state op).0 answers in
    (
      fits,
      IsLegal-IsRegisterRun (state_after op.kind state op) ops
          (subst (λ s. IsLegal s ops) (state_after-apply_kind op.kind state op fits) rest),
    )

IsRegisterRun-IsLegal :
    (state : KvState) (ops : List KeyOp) → IsRegisterRun state ops → IsLegal state ops
unfolding response_matches apply_model
IsRegisterRun-IsLegal state [] h = tt
IsRegisterRun-IsLegal state (op ∷ ops) (fits, rest) = (
  (Fits-iff op.kind state op).1 fits,
  subst (λ s. IsLegal s ops) (sym (state_after-apply_kind op.kind state op fits))
      (IsRegisterRun-IsLegal (state_after op.kind state op) ops rest),
)

-- An order of all the operations that a register answers as they were answered, in which none stands
-- before one that preceded it.
pub record RegisterOrder (ops : List KeyOp) : Type 0 where
  pub order : List KeyOp
  pub permutes : Perm order ops
  pub run : IsRegisterRun none order
  pub respects : Pairwise (λ a b. ¬ (Precedes b a)) order

pub Linearization-RegisterOrder : (ops : List KeyOp) → Linearization none ops → RegisterOrder ops
Linearization-RegisterOrder ops l = record {
  order = l.order;
  permutes = l.permutes;
  run = IsLegal-IsRegisterRun none l.order l.legal;
  respects = l.respects;
}

pub RegisterOrder-Linearization : (ops : List KeyOp) → RegisterOrder ops → Linearization none ops
RegisterOrder-Linearization ops l = record {
  order = l.order;
  permutes = l.permutes;
  legal = IsRegisterRun-IsLegal none l.order l.run;
  respects = l.respects;
}
