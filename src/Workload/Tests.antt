-- ===== src/Workload/Tests.antt =====
-- One client that issues one operation, which times out.
use sim_kv.Prelude.{
  ℕ, ◌+◌, ◌*◌, ◌/◌, ◌≡◌, refl, [], ◌∷◌, true, false, Option, none, some, leb, ltb, get_elem?,
  length, arith,
}
use sim_kv.EventQueue
use sim_kv.EventQueue.{insert_event}
use sim_kv.OrdMap.{find}
use sim_kv.Prng.{
  Doubles, seeded, splitmix64, rotl64, next_u64, reject, range_word, range, unit, bernoulli,
}
use sim_kv.Simulator
use sim_kv.Simulator.{Simulator, schedule, schedule_at, random_range}
use sim_kv.Network.{Network, partitioned, flip, deliver_later, duplicate, send}
use sim_kv.History.{op_put, HistoryEntry, record_invoke, record_return}
use sim_kv.Workload
use sim_kv.Workload.{
  ClientState, Workload, Harness, Closures, done, rotate, invoke, issue_for, issue_op, complete,
  on_timeout,
}
use sim_kv.Workload.Draws.{
  WorkloadConfig, random_key, random_value, random_op_kind, fill_in, choose, decimal, decimal_loop,
}
use sim_kv.Workload.Loop.{IsClosed}
use sim_kv.Workload.Runs.{Step, Reaches, Reaches-IsClosed, done_lem}

-- Thousandths.
instance abbrev thousandths : Doubles ℕ
thousandths = record {
  le_zero = λ p. leb p 0;
  ge_one = λ p. leb 1000 p;
  scaled = λ p. p * 18446744073709551;
  unit_of = λ w. w / 9007199254740;
  plus = λ p q. p + q;
  lt = λ p q. ltb p q;
}

abbrev one_op : WorkloadConfig ℕ
one_op = record {
  num_clients = 1;
  num_keys = 8;
  total_ops = 1;
  think_time = 5000;
  put_prob = 0;
  get_prob = 1000;
}

-- Actions and handlers are numbers.
abbrev calls : Closures ℕ ℕ
calls = record { issue = λ i. i; timeout = λ i. i + 10; reply = λ i. i + 20; deliver = λ fn m. fn }

abbrev quiet : Network ℕ ℕ
quiet = record {
  cfg = record { min_latency = 1; max_latency = 8; drop_prob = 0; dup_prob = 0 };
  handlers = [];
  partition_group = [];
  is_partitioned = false;
}

abbrev begun : Harness ℕ ℕ ℕ
begun = record {
  workload = Workload.created one_op (1 ∷ []);
  history = [];
  sim = Simulator.created 7;
  net = quiet;
}

abbrev value_or {ℓ} : {A : Type ℓ} → A → Option A → A
value_or a none = a
value_or a (some b) = b

abbrev asked : Harness ℕ ℕ ℕ
asked = value_or begun (issue_op calls 4 0 begun)

asked_lem : issue_op calls 4 0 begun ≡ some asked
unfolding issue_op issue_for invoke choose fill_in random_key random_value random_op_kind decimal
    decimal_loop send partitioned flip deliver_later duplicate bernoulli unit range range_word
    reject next_u64 rotl64 seeded splitmix64 schedule schedule_at record_invoke Workload.created
    Simulator.created EventQueue.push insert_event find random_range
asked_lem = refl

abbrev given_up : Harness ℕ ℕ ℕ
given_up = on_timeout calls 0 asked

abbrev whole_run : Reaches calls begun given_up
whole_run =
    Reaches.step (Step.issued 4 0 asked_lem)
      (Reaches.step (Step.timed_out 0 refl) (Reaches.at_once refl))

Reaches-IsClosed_example : IsClosed given_up.workload given_up.history
Reaches-IsClosed_example =
    Reaches-IsClosed calls one_op (1 ∷ []) (Simulator.created 7) quiet given_up (omega arith)
      whole_run

abbrev no_entry : HistoryEntry
no_entry = record {
  client_id = 0;
  request_id = 0;
  kind = op_put;
  key = [];
  value = [];
  expected = [];
  invoke = 0;
  ret = 0;
  response = [];
  ok = false;
  pending = true;
}

abbrev only_entry : HistoryEntry
only_entry = value_or no_entry (get_elem? given_up.history 0)

given_up-done : done given_up.workload ≡ true
unfolding issue_op issue_for invoke choose fill_in random_key random_value random_op_kind decimal
    decimal_loop send partitioned flip deliver_later duplicate bernoulli unit range range_word
    reject next_u64 rotl64 seeded splitmix64 schedule schedule_at record_invoke Workload.created
    Simulator.created EventQueue.push insert_event find random_range on_timeout complete
    record_return done rotate
given_up-done = refl

given_up-entry : get_elem? given_up.history 0 ≡ some only_entry
unfolding issue_op issue_for invoke choose fill_in random_key random_value random_op_kind decimal
    decimal_loop send partitioned flip deliver_later duplicate bernoulli unit range range_word
    reject next_u64 rotl64 seeded splitmix64 schedule schedule_at record_invoke Workload.created
    Simulator.created EventQueue.push insert_event find random_range on_timeout complete
    record_return rotate
given_up-entry = refl

done_lem_example :
    (length given_up.history ≡ given_up.workload.cfg.total_ops) × (only_entry.pending ≡ false)
done_lem_example =
    done_lem calls given_up 0 only_entry
      (Reaches-IsClosed calls one_op (1 ∷ []) (Simulator.created 7) quiet given_up (omega arith)
        whole_run)
      given_up-done given_up-entry
