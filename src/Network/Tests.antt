-- ===== src/Network/Tests.antt =====
-- Two nodes with handlers, the delays of the program's configuration and no loss.
use mathlib.Core.List.{Mem, eq-or-mem_of_mem-cons, not-mem-nil}
use native.Mathlib.Nat.{ℕ_set}
use mathlib.Core.Logic.Or
use sim_kv.Prelude.{
  ℕ, sym, ◌*◌, ◌≤◌, ◌≡◌, refl, [], ◌∷◌, false, some, All, leb, ltb, ◌/◌, ◌+◌, arith,
}
use sim_kv.OrdMap.{nat_ord, find}
use sim_kv.Prng.{
  Doubles, bernoulli, range, range_word, reject, next_u64, rotl64, seeded, splitmix64,
}
use sim_kv.Prng.Range.{draw}
use sim_kv.EventQueue
use sim_kv.EventQueue.{Event, insert_event}
use sim_kv.Simulator.{Simulator, created, schedule, schedule_at, random_range}
use sim_kv.Network.{Network, Message, send, partition, flip, deliver_later}
use sim_kv.Network.Partition.{Apart, send-partition}
use sim_kv.Network.Delivery.{Queued, Ready, NewOnes, send_lem}

-- Percentages.
instance abbrev percent : Doubles ℕ
percent = record {
  le_zero = λ p. leb p 0;
  ge_one = λ p. leb 100 p;
  scaled = λ p. p * 184467440737095516;
  unit_of = λ w. w / 90071992547409;
  plus = λ p q. p + q;
  lt = λ p q. ltb p q;
}

abbrev two_nodes : Network ℕ ℕ
two_nodes = record {
  cfg = record { min_latency = 1000; max_latency = 20000; drop_prob = 0; dup_prob = 50 };
  handlers = (1, 10) ∷ (2, 20) ∷ [];
  partition_group = [];
  is_partitioned = false;
}

abbrev call : ℕ → Message → ℕ × Message
call fn message = (fn, message)

abbrev idle : Simulator (ℕ × Message)
idle = created 7

abbrev greeting : Message
greeting = record { from = 1; to = 2; payload = 7 ∷ [] }

idle-Ready : Ready call 1 greeting two_nodes idle
unfolding created draw flip bernoulli deliver_later random_range range range_word reject next_u64
    rotl64 seeded splitmix64 schedule schedule_at EventQueue.push insert_event find
idle-Ready = record {
  delays = record { in_order = omega arith; small = omega arith; in_time = omega arith };
  gives = (0, omega arith, omega arith);
  gives_again = (0, omega arith, omega arith);
}

-- The event is a call of node 2's handler, at a time up to 20000.
abbrev ToSecond : Event (ℕ × Message) → Type 0
ToSecond e = (e.action.1.to ≡ 2) × (e.time ≤ 20000)

second-NewOnes : NewOnes call ToSecond 1 greeting two_nodes idle.clock
unfolding created
second-NewOnes fn t seq known low high = (refl, omega arith)

no_old_ones : All ToSecond idle.queue.heap
unfolding created
no_old_ones = tt

send_lem_example : Queued ToSecond 2 idle (send call 1 1 2 (7 ∷ []) two_nodes idle)
send_lem_example =
    send_lem call ToSecond 1 1 2 (7 ∷ []) two_nodes idle idle-Ready no_old_ones second-NewOnes

one_ne_two : ¬ (◌≡◌ {A = ℕ} 1 2)
one_ne_two h = omega arith

only : {a b : ℕ} → Mem a (b ∷ []) → a ≡ b
only {a} {b} m =
    Or.elim (ℕ_set a b) (eq-or-mem_of_mem-cons m) (λ e. e) (λ n. absurd (not-mem-nil n))

apart : Apart 1 2 ((1 ∷ []) ∷ (2 ∷ []) ∷ [])
apart = (λ (p, q). one_ne_two (sym (only q)), (λ (p, q). one_ne_two (only p), tt))

send-partition_example :
    send call 1 1 2 (7 ∷ []) (partition ((1 ∷ []) ∷ (2 ∷ []) ∷ []) two_nodes) idle ≡ some idle
send-partition_example =
    send-partition call 1 1 2 (7 ∷ []) two_nodes idle ((1 ∷ []) ∷ (2 ∷ []) ∷ []) apart
