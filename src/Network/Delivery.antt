-- ===== src/Network/Delivery.antt =====
-- What send puts into the queue of the simulator.
use sim_kv.Prelude.{
  ℕ, suc, ◌+◌, ◌-◌, ◌≤◌, ◌<◌, ◌^◌, ◌≡◌, refl, ◌∙◌, List, [], ◌∷◌, false, Option, none, some, subst,
  All, Bool-cases, Option-cases, inl, inr, length, arith, add64,
}
use sim_kv.OrdMap.{find, nat_ord}
use sim_kv.Types.{Bytes}
use sim_kv.Prng.{Prng, Doubles}
use sim_kv.Prng.Range.{draw, IsAccepted, range_bounds}
use sim_kv.EventQueue
use sim_kv.EventQueue.{Event, insert_event}
use sim_kv.EventQueue.Order.{insert_event-All}
use sim_kv.Simulator.{Simulator, schedule, schedule_at, random_range}
use sim_kv.Network.{Network, Message, flip, deliver_later, duplicate, send, partitioned}

length-insert_event {ℓ} :
    {A : Type ℓ} (e : Event A) (es : List (Event A)) → length (insert_event e es) ≡ suc (length es)
unfolding insert_event
length-insert_event e [] = refl
length-insert_event e (f ∷ es) = ground (arith, length-insert_event e es)

-- A call that returns: the clock is as before, the queue has at most `extra` events more, and all of
-- its events satisfy P.
pub record Queued {A : Type 0} (P : Event A → Type 0) (extra : ℕ) (sim : Simulator A)
    (result : Option (Simulator A)) : Type 0 where
  pub after : Simulator A
  pub returned : result ≡ some after
  pub same_clock : after.clock ≡ sim.clock
  pub all : All P after.queue.heap
  pub grown : length after.queue.heap ≤ length sim.queue.heap + extra

-- What is queued behind a change that leaves the clock.
carry :
    {A : Type 0} {P : Event A → Type 0} (sim sim1 : Simulator A) (n m : ℕ)
    {result : Option (Simulator A)}
    → sim1.clock ≡ sim.clock
    → length sim1.queue.heap ≤ length sim.queue.heap + n
    → Queued P m sim1 result
    → Queued P (n + m) sim result
carry sim sim1 n m clock size q = record {
  after = q.after;
  returned = q.returned;
  same_clock = q.same_clock ∙ clock;
  all = q.all;
  grown = omega (arith, q.grown);
}

fits64 : (n : ℕ) → n + 1 < 2 ^ 64 → add64 n 1 ≡ n + 1
fits64 n h = omega arith

-- The delays are in order, and no time overflows.
pub record Delays {D H A : Type 0} (net : Network D H) (sim : Simulator A) : Type 0 where
  pub in_order : net.cfg.min_latency ≤ net.cfg.max_latency
  pub small : net.cfg.max_latency + 1 < 2 ^ 64
  pub in_time : sim.clock + net.cfg.max_latency < 2 ^ 64

-- From this state on the generator gives a delay within the fuel.
abbrev pub Gives : {D H : Type 0} → ℕ → Network D H → Prng → Type 0
Gives fuel net p =
    (k : ℕ) × (k < fuel) × IsAccepted (net.cfg.max_latency + 1 - net.cfg.min_latency) (draw k p).0

-- The same of the state behind the draw for the duplicate, after the first copy.
abbrev pub GivesAgain :
    {D H A : Type 0} ⦃doubles : Doubles D⦄ → ℕ → Network D H → Option (Simulator A) → Type 0
GivesAgain fuel net none = Unit
GivesAgain fuel net (some sim) = Gives fuel net (flip net.cfg.dup_prob sim).1.prng

-- What send needs: the delays, and a delay from the generator for each of the two copies.
pub record Ready {D H A : Type 0} ⦃doubles : Doubles D⦄ (deliver : H → Message → A) (fuel : ℕ)
    (message : Message) (net : Network D H) (sim : Simulator A) : Type 0 where
  pub delays : Delays net sim
  pub gives : Gives fuel net (flip net.cfg.drop_prob sim).1.prng
  pub gives_again :
      GivesAgain fuel net (deliver_later deliver fuel message net (flip net.cfg.drop_prob sim).1)

module _ {D H A : Type 0} ⦃doubles : Doubles D⦄ (deliver : H → Message → A) (P : Event A → Type 0)
    (fuel : ℕ) (message : Message) (net : Network D H) where
  -- Every delivery of the message that may be scheduled satisfies P.
  abbrev pub NewOnes : ℕ → Type 0
  NewOnes clock =
      (fn : H) (t seq : ℕ)
      → find message.to net.handlers ≡ some fn
      → clock + net.cfg.min_latency ≤ t
      → t ≤ clock + net.cfg.max_latency
      → P (record { time = t; seq = seq; action = deliver fn message; cancelled = false })

  scheduled :
      (fn : H) (lat : ℕ) (sim : Simulator A)
      → find message.to net.handlers ≡ some fn
      → net.cfg.min_latency ≤ lat
      → lat ≤ net.cfg.max_latency
      → sim.clock + net.cfg.max_latency < 2 ^ 64
      → All P sim.queue.heap
      → NewOnes sim.clock
      → Queued P 1 sim (some (schedule lat (deliver fn message) sim).0)
  unfolding schedule schedule_at EventQueue.push
  scheduled fn lat sim known low high small olds news = record {
    after = (schedule lat (deliver fn message) sim).0;
    returned = refl;
    same_clock = refl;
    all =
        insert_event-All P _ sim.queue.heap
          (news fn (add64 sim.clock lat) sim.next_seq known (omega arith) (omega arith)) olds;
    grown = omega (
      arith,
      length-insert_event {A = A}
          (record {
            time = add64 sim.clock lat;
            seq = sim.next_seq;
            action = deliver fn message;
            cancelled = false;
          })
          sim.queue.heap,
    );
  }

  unchanged : (extra : ℕ) (sim : Simulator A) → All P sim.queue.heap → Queued P extra sim (some sim)
  unchanged extra sim olds = record {
    after = sim;
    returned = refl;
    same_clock = refl;
    all = olds;
    grown = omega arith;
  }

  deliver_later_lem :
      (sim : Simulator A)
      → Delays net sim
      → Gives fuel net sim.prng
      → All P sim.queue.heap
      → NewOnes sim.clock
      → Queued P 1 sim (deliver_later deliver fuel message net sim)
  unfolding deliver_later random_range
  deliver_later_lem sim ready gives olds news = elim (Option-cases (find message.to net.handlers)) [
    | inl unknown ↦ rw (unknown, deliver_later) (unchanged 1 sim olds)
    | inr (fn, known) ↦
        let (k, fits, acc) = gives in
        let (lat, p, drawn, low, high) =
          range_bounds fuel k net.cfg.min_latency (net.cfg.max_latency + 1) sim.prng
            (omega (arith, ready.in_order)) ready.small fits acc in
        rw (known, deliver_later, random_range, fits64 net.cfg.max_latency ready.small, drawn)
          (carry sim (record sim { prng = p }) 0 1 refl (omega arith)
            (scheduled fn lat (record sim { prng = p }) known low (omega arith) ready.in_time olds
              news))
  ]

  duplicate_lem :
      (sim : Simulator A)
      → Delays net sim
      → Gives fuel net (flip net.cfg.dup_prob sim).1.prng
      → All P sim.queue.heap
      → NewOnes sim.clock
      → Queued P 1 sim (duplicate deliver fuel message net sim)
  unfolding duplicate flip
  duplicate_lem sim ready gives olds news =
      let sim1 = (flip net.cfg.dup_prob sim).1 in
      let ready1 : Delays net sim1 = record {
        in_order = ready.in_order;
        small = ready.small;
        in_time = ready.in_time;
      } in
      elim (Bool-cases (flip net.cfg.dup_prob sim).0) [
        | inl again ↦
            rw (again, duplicate)
              (carry sim sim1 0 1 refl (omega arith)
                (deliver_later_lem sim1 ready1 gives olds news))
        | inr once ↦
            rw (once, duplicate) (carry sim sim1 0 1 refl (omega arith) (unchanged 1 sim1 olds))
      ]

  -- The rest of send, behind the test of the partition.
  passed_on :
      (sim : Simulator A)
      → Ready deliver fuel message net sim
      → All P sim.queue.heap
      → NewOnes sim.clock
      → partitioned message.from message.to net ≡ false
      → Queued P 2 sim (send deliver fuel message.from message.to message.payload net sim)
  unfolding send flip
  passed_on sim ready olds news whole =
      let sim1 = (flip net.cfg.drop_prob sim).1 in
      let ready1 : Delays net sim1 = record {
        in_order = ready.delays.in_order;
        small = ready.delays.small;
        in_time = ready.delays.in_time;
      } in
      elim (Bool-cases (flip net.cfg.drop_prob sim).0) [
        | inl dropped ↦
            rw (whole, send, dropped)
              (carry sim sim1 0 2 refl (omega arith) (unchanged 2 sim1 olds))
        | inr kept ↦
            let first = deliver_later_lem sim1 ready1 ready.gives olds news in
            let ready2 : Delays net first.after = record {
              in_order = ready.delays.in_order;
              small = ready.delays.small;
              in_time = omega (arith, ready.delays.in_time, first.same_clock);
            } in
            let again = subst (GivesAgain fuel net) first.returned ready.gives_again in
            let second =
              duplicate_lem first.after ready2 again first.all (λ fn t seq known low high.
                news fn t seq known (omega (arith, first.same_clock))
                  (omega (arith, first.same_clock))) in
            rw (whole, send, kept, first.returned)
              (carry sim first.after 1 1 first.same_clock (omega (arith, first.grown)) second)
      ]

-- send, with delays in order that overflow nothing and a generator whose words give a delay within
-- the fuel where the first copy and where the second draws one, returns with the clock unchanged and at most two events more; whatever holds of the events
-- before, and of every delivery of this message to the handler registered for its receiver at a time
-- between the least and the greatest delay, holds of all events afterwards.
pub send_lem :
    {D H A : Type 0} ⦃doubles : Doubles D⦄ (deliver : H → Message → A) (P : Event A → Type 0)
    (fuel from to : ℕ) (payload : Bytes) (net : Network D H) (sim : Simulator A)
    → Ready deliver fuel (record { from = from; to = to; payload = payload }) net sim
    → All P sim.queue.heap
    → NewOnes deliver P fuel (record { from = from; to = to; payload = payload }) net sim.clock
    → Queued P 2 sim (send deliver fuel from to payload net sim)
send_lem deliver P fuel from to payload net sim ready olds news =
    elim (Bool-cases (partitioned from to net)) [
      | inl cut ↦
          unfold send in
          rw cut (
            unchanged deliver P fuel (record { from = from; to = to; payload = payload }) net 2 sim
              olds)
      | inr whole ↦
          passed_on deliver P fuel (record { from = from; to = to; payload = payload }) net sim
            ready olds news whole
    ]
