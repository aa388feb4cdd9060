-- ===== src/Workload/Draws.antt =====
-- What the clients of harness/workload.cpp draw: keys, values, kinds of operation.
use sim_kv.Prelude.{
  ℕ, zero, suc, ◌+◌, ◌/◌, ◌%◌, [], ◌∷◌, ◌++◌, Option, none, some, ltb, if◌then◌else◌, codes,
}
use sim_kv.Types.{Bytes, Command, cmd_put, cmd_get, cmd_cas}
use sim_kv.Prng.{Prng, Doubles, range, unit}
use sim_kv.History.{OpKind, op_put, op_get, op_cas}

pub record WorkloadConfig (D : Type 0) : Type 0 where
  pub num_clients : ℕ
  pub num_keys : ℕ
  pub total_ops : ℕ
  pub think_time : ℕ
  pub put_prob : D
  pub get_prob : D

-- `std::format("{}", n)` for a 64-bit number, which has at most 20 digits
unfoldable pub decimal_loop : (rounds n : ℕ) → Bytes → Bytes
decimal_loop zero n digits = digits
decimal_loop (suc rounds) n digits =
    let rest = decimal_loop rounds (n / 10) ((48 + n % 10) ∷ digits) in
    if ltb n 10 then (48 + n) ∷ digits else rest

unfoldable pub decimal : ℕ → Bytes
decimal n = decimal_loop 20 n []

-- What issue_op draws: the operation as the history has it, and the command.
pub record Choice : Type 0 where
  pub kind : OpKind
  pub key : Bytes
  pub val : Bytes
  pub exp : Bytes
  pub cmd : Command

unfoldable pub random_value : ℕ → Prng → Option (Bytes × Prng)
random_value fuel p = elim (range fuel 0 100 p) [
  | none ↦ none
  | some (v, p') ↦ some (codes "v" ++ decimal v, p')
]

-- the switch on the kind
unfoldable pub fill_in : ℕ → OpKind → Bytes → Prng → Option (Choice × Prng)
fill_in fuel op_put key p = elim (random_value fuel p) [
  | none ↦ none
  | some (val, p1) ↦
      some (record { kind = op_put; key = key; val = val; exp = []; cmd = cmd_put key val }, p1)
]
fill_in fuel op_get key p =
    some (record { kind = op_get; key = key; val = []; exp = []; cmd = cmd_get key }, p)
fill_in fuel op_cas key p = elim (random_value fuel p) [
  | none ↦ none
  | some (exp, p1) ↦ elim (random_value fuel p1) [
    | none ↦ none
    | some (val, p2) ↦
        some
          (record { kind = op_cas; key = key; val = val; exp = exp; cmd = cmd_cas key exp val }, p2)
  ]
]

module _ {D : Type 0} ⦃doubles : Doubles D⦄ where
  unfoldable pub random_key : ℕ → WorkloadConfig D → Prng → Option (Bytes × Prng)
  random_key fuel cfg p = elim (range fuel 0 cfg.num_keys p) [
    | none ↦ none
    | some (k, p') ↦ some (codes "k" ++ decimal k, p')
  ]

  unfoldable pub random_op_kind : WorkloadConfig D → Prng → OpKind × Prng
  random_op_kind cfg p =
      let (r, p') = unit p in
      if doubles.lt r cfg.put_prob
      then (op_put, p')
      else if doubles.lt r (doubles.plus cfg.put_prob cfg.get_prob)
      then (op_get, p')
      else (op_cas, p')

  unfoldable pub choose : ℕ → WorkloadConfig D → Prng → Option (Choice × Prng)
  choose fuel cfg p =
      let (kind, p1) = random_op_kind cfg p in
      elim (random_key fuel cfg p1) [ none ↦ none | some (key, p2) ↦ fill_in fuel kind key p2 ]
