-- ===== src/FaultInjector/Tests.antt =====
-- A partition of three nodes.
use sim_kv.Prelude.{ℕ, zero, suc, ◌+◌, ◌*◌, ◌/◌, ◌≡◌, [], ◌∷◌, true, false, some, leb, ltb, arith}
use sim_kv.Prng.{Doubles, seeded, splitmix64, rotl64, next_u64}
use sim_kv.Prng.Range.{draw}
use sim_kv.Prng.Shuffle.{Lucky}
use sim_kv.Simulator
use sim_kv.Simulator.{Simulator, schedule, schedule_at, random_range}
use sim_kv.Node.{RaftConfig}
use sim_kv.Node.Lifecycle.{new_node}
use sim_kv.FaultInjector.{FaultConfig, FaultClosures, Spikes, Faults, ids_of, inject_partition}
use sim_kv.FaultInjector.Groups.{HasDraws, IsSplit, inject_partition-IsSplit}

-- Thousandths.
instance abbrev thousandths : Doubles ℕ
thousandths = record {
  le_zero = λ p. leb p 0;
  ge_one = λ p. leb 1000 p;
  scaled = λ p. p * 18446744073709551;
  unit_of = λ w. w / 9007199254740;
  plus = λ p q. p + q;
  lt = λ p q. ltb p q;
}

abbrev rates : FaultConfig ℕ
rates = record {
  fault_rate = 50;
  check_interval = 200000;
  partition_duration = 800000;
  crash_min_down = 300000;
  crash_max_down = 1000000;
  partition_prob = 400;
  drop_raise_prob = 200;
  dup_raise_prob = 100;
}

abbrev calls : FaultClosures ℕ ℕ
calls = record {
  tick = 0;
  heal = 1;
  restart = λ i. i + 2;
  restore_drop = λ p. p;
  restore_dup = λ p. p;
}

abbrev spikes : Spikes ℕ
spikes = record { drop_step = 300; drop_cap = 600; dup_step = 200; dup_cap = 400 }

abbrev test_config : RaftConfig
test_config = record {
  election_timeout_lo = 150;
  heartbeat_interval = 50;
  client_timeout = 500;
  max_entries_per_ae = 64;
  snapshot_threshold = 0;
  read_timeout = 100;
  bug_commit_prior_term = false;
  bug_skip_vote_uptodate = false;
}

abbrev cluster : Faults ℕ ℕ ℕ
cluster = record {
  injector = record { cfg = rates; running = true; tick_id = 0 };
  sim = Simulator.created 7;
  net = record {
    cfg = record { min_latency = 1; max_latency = 8; drop_prob = 0; dup_prob = 0 };
    handlers = [];
    partition_group = [];
    is_partitioned = false;
  };
  nodes =
      new_node 1 (2 ∷ 3 ∷ []) test_config
      ∷ new_node 2 (1 ∷ 3 ∷ []) test_config
      ∷ new_node 3 (1 ∷ 2 ∷ []) test_config
      ∷ [];
}

three_words : Lucky 3 3 cluster.sim.prng
unfolding draw next_u64 rotl64 seeded splitmix64 Simulator.created
three_words zero zero h some_i within = absurd (omega arith)
three_words zero (suc zero) h some_i within = omega arith
three_words zero (suc (suc zero)) h some_i within = omega arith
three_words zero (suc (suc (suc zero))) h some_i within = omega arith
three_words zero (suc (suc (suc (suc n)))) h some_i within = absurd (omega arith)
three_words (suc zero) zero h some_i within = absurd (omega arith)
three_words (suc zero) (suc zero) h some_i within = omega arith
three_words (suc zero) (suc (suc zero)) h some_i within = omega arith
three_words (suc zero) (suc (suc (suc zero))) h some_i within = omega arith
three_words (suc zero) (suc (suc (suc (suc n)))) h some_i within = absurd (omega arith)
three_words (suc (suc zero)) zero h some_i within = absurd (omega arith)
three_words (suc (suc zero)) (suc zero) h some_i within = omega arith
three_words (suc (suc zero)) (suc (suc zero)) h some_i within = omega arith
three_words (suc (suc zero)) (suc (suc (suc zero))) h some_i within = omega arith
three_words (suc (suc zero)) (suc (suc (suc (suc n)))) h some_i within = absurd (omega arith)
three_words (suc (suc (suc k))) i h some_i within = absurd (omega arith)

cluster-HasDraws : HasDraws calls spikes cluster
unfolding draw next_u64 rotl64 seeded splitmix64 Simulator.created
cluster-HasDraws = record {
  words = three_words;
  some_time = omega arith;
  small_time = omega arith;
  last = omega arith;
}

inject_partition-IsSplit_example :
    (f' : Faults ℕ ℕ ℕ) × (inject_partition calls spikes 4 cluster ≡ some f')
    × IsSplit (ids_of cluster.nodes) cluster.net f'.net
    × (f'.nodes ≡ cluster.nodes)
inject_partition-IsSplit_example =
    inject_partition-IsSplit calls spikes 3 cluster (omega arith) (omega arith) cluster-HasDraws
