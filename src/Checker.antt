-- ===== src/Checker.antt =====
-- checker/own_checker.cpp: whether the history of each key is linearizable, by search.
pub mod Linearizable
pub mod Register
pub mod Search
pub mod Complete
pub mod Selections
pub mod Subsets
pub mod Keys
mod Tests
use sim_kv.Prelude.{
  ℕ, zero, suc, ◌+◌, ◌-◌, ◌/◌, ◌%◌, ◌^◌, List, [], ◌∷◌, ◌++◌, map, Bool, true, false, not, ◌&&◌,
  ◌||◌, Option, none, some, ltb, leb, ◌==◌, if◌then◌else◌, length, min, codes, take,
}
use sim_kv.Types.{Bytes}
use sim_kv.OrdMap.{OrdMap, find, put, bytes_ord}
use sim_kv.KvStore.{bytes_eq, value_or_empty}
use sim_kv.History.{OpKind, op_put, op_get, op_cas, HistoryEntry, History}

pub record KeyOp : Type 0 where
  pub kind : OpKind
  pub value : Bytes
  pub expected : Bytes
  pub invoke : ℕ
  pub ret : ℕ
  pub response : Bytes
  pub ok : Bool
  pub pending : Bool

-- The value of the key, or none while nothing was written.
abbrev pub KvState : Type 0
KvState = Option Bytes

-- the state after an operation, and the response that the model expects
unfoldable pub apply_kind : OpKind → KvState → KeyOp → KvState × Bytes
apply_kind op_put state op = (some op.value, codes "ok")
apply_kind op_get state op = (state, value_or_empty state)
apply_kind op_cas state op =
    if bytes_eq (value_or_empty state) op.expected
    then (some op.value, codes "ok")
    else (state, codes "cas_mismatch")

unfoldable pub apply_model : KvState → KeyOp → KvState × Bytes
apply_model state op = apply_kind op.kind state op

abbrev pub iff_bool : Bool → Bool → Bool
iff_bool true b = b
iff_bool false b = not b

unfoldable pub kind_matches : OpKind → KeyOp → Bytes → Bool
kind_matches op_get op expected_resp = bytes_eq op.response expected_resp
kind_matches op_put op expected_resp = op.ok
kind_matches op_cas op expected_resp = iff_bool op.ok (bytes_eq expected_resp (codes "ok"))

unfoldable pub response_matches : KeyOp → Bytes → Bool
response_matches op expected_resp = kind_matches op.kind op expected_resp

-- An operation, and its flag in `linearized`.
abbrev pub Slot : Type 0
Slot = KeyOp × Bool

-- the loop over j that asks whether an operation may come next; the slot of the operation itself,
-- which the source skips, is not in the list
unfoldable pub eligible : KeyOp → List Slot → Bool
eligible op [] = true
eligible op ((other, placed) ∷ slots) =
    let rest = eligible op slots in
    if placed || other.pending
    then rest
    else if ltb 0 other.ret && ltb other.ret op.invoke
    then false
    else rest

-- the test of one operation, before it is tried
unfoldable pub may_come_next : KvState → Slot → (before after : List Slot) → Bool
may_come_next state (op, placed) before after =
    not placed
    && (not op.pending
        && ((eligible op before && eligible op after)
            && response_matches op (apply_model state op).1))

-- the loop over i of wg_check; `next` is the call behind the operation
unfoldable pub try_slots :
    (List Slot → KvState → Bool) → KvState → (before slots : List Slot) → Bool
try_slots next state before [] = false
try_slots next state before ((op, placed) ∷ after) =
    let onward = try_slots next state (before ++ (op, placed) ∷ []) after in
    let found = next (before ++ (op, true) ∷ after) (apply_model state op).0 in
    if may_come_next state (op, placed) before after
    then (if found then true else onward)
    else onward

-- wg_check, with the number of operations that are not placed in place of `n_done`
unfoldable pub wg_check : ℕ → List Slot → KvState → Bool
wg_check zero slots state = true
wg_check (suc left) slots state = try_slots (wg_check left) state [] slots

-- the closure try_subset
unfoldable pub try_subset : List KeyOp → Bool
try_subset [] = true
try_subset (op ∷ ops) =
    wg_check (length (op ∷ ops)) (map (λ (o : KeyOp). (o, false)) (op ∷ ops)) none

-- where an operation goes before the search
pub data Certainty : Type 0 where
  is_skipped is_uncertain is_certain : Certainty

abbrev pub is_put : OpKind → Bool
is_put op_put = true
is_put _ = false

unfoldable pub classify : KeyOp → Certainty
classify op =
    if op.pending
    then is_skipped
    else if bytes_eq op.response (codes "timeout") || bytes_eq op.response (codes "not_leader")
    then is_skipped
    else if bytes_eq op.response (codes "node_crashed")
    then (if is_put op.kind then is_uncertain else is_skipped)
    else is_certain

unfoldable pub certain_ops : List KeyOp → List KeyOp
certain_ops [] = []
certain_ops (op ∷ ops) =
    let rest = certain_ops ops in
    elim (classify op) [ is_skipped ↦ rest | is_uncertain ↦ rest | is_certain ↦ op ∷ rest ]

unfoldable pub uncertain_puts : List KeyOp → List KeyOp
uncertain_puts [] = []
uncertain_puts (op ∷ ops) =
    let rest = uncertain_puts ops in
    elim (classify op) [ is_skipped ↦ rest | is_uncertain ↦ op ∷ rest | is_certain ↦ rest ]

-- an uncertain put that took effect
abbrev pub confirmed : KeyOp → KeyOp
confirmed op = record op { ok = true }

-- the puts whose bit is set in the mask
unfoldable pub masked : ℕ → List KeyOp → List KeyOp
masked mask [] = []
masked mask (op ∷ ops) =
    let rest = masked (mask / 2) ops in if mask % 2 == 1 then confirmed op ∷ rest else rest

-- the loop over the masks, from the last of `count` on
unfoldable pub try_masks : (count mask : ℕ) → (certain puts : List KeyOp) → Bool
try_masks zero mask certain puts = false
try_masks (suc count) mask certain puts =
    let onward = try_masks count (suc mask) certain puts in
    if try_subset (certain ++ masked mask puts) then true else onward

-- the loop that tries one put at a time
unfoldable pub try_singles : (certain puts : List KeyOp) → Bool
try_singles certain [] = false
try_singles certain (op ∷ ops) =
    let onward = try_singles certain ops in
    if try_subset (certain ++ confirmed op ∷ []) then true else onward

abbrev pub cap : ℕ
cap = 15

unfoldable pub try_some : (certain puts : List KeyOp) → Bool
try_some certain puts =
    if try_subset certain
    then true
    else if try_subset (certain ++ map confirmed puts)
    then true
    else try_singles certain (take cap puts)

abbrev pub is_nil {ℓ} : {A : Type ℓ} → List A → Bool
is_nil [] = true
is_nil (x ∷ xs) = false

-- check_key_linearizable
unfoldable pub check_key_linearizable : List KeyOp → Bool
check_key_linearizable ops =
    let certain = certain_ops ops in
    let puts = uncertain_puts ops in
    if is_nil certain && is_nil puts
    then true
    else if leb (length puts) cap
    then try_masks (2 ^ length puts) 0 certain puts
    else try_some certain puts

-- what a history keeps of one key, and the record that the check goes by
abbrev pub key_op : HistoryEntry → KeyOp
key_op e = record {
  kind = e.kind;
  value = e.value;
  expected = e.expected;
  invoke = e.invoke;
  ret = e.ret;
  response = e.response;
  ok = e.ok;
  pending = e.pending;
}

abbrev pub ops_or_empty : Option (List KeyOp) → List KeyOp
ops_or_empty none = []
ops_or_empty (some ops) = ops

-- `per_key[e.key].push_back`, for the entries that have returned
unfoldable pub add_entry : HistoryEntry → OrdMap Bytes (List KeyOp) → OrdMap Bytes (List KeyOp)
add_entry e per_key =
    if e.pending
    then per_key
    else put e.key (ops_or_empty (find e.key per_key) ++ key_op e ∷ []) per_key

unfoldable pub by_key : History → OrdMap Bytes (List KeyOp) → OrdMap Bytes (List KeyOp)
by_key [] per_key = per_key
by_key (e ∷ es) per_key = by_key es (add_entry e per_key)

pub record CheckResult : Type 0 where
  pub ok : Bool
  pub failing_key : Bytes
  pub reason : Bytes

-- the loop over the keys
unfoldable pub check_keys : OrdMap Bytes (List KeyOp) → CheckResult
check_keys [] = record { ok = true; failing_key = []; reason = [] }
check_keys ((key, ops) ∷ rest) =
    let onward = check_keys rest in
    if not (check_key_linearizable ops)
    then record {
      ok = false;
      failing_key = key;
      reason = codes "non-linearizable history for key " ++ key;
    }
    else onward

unfoldable pub check_linearizable : History → CheckResult
check_linearizable history = check_keys (by_key history [])
