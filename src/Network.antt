-- ===== src/Network.antt =====
-- sim/network.cpp: delivery with delays, drops, duplicates and partitions. A handler is a value of a
-- type H; `deliver` makes the action that calls it with a message.
pub mod Partition
pub mod Delivery
mod Tests
use sim_kv.Prelude.{
  ℕ, suc, List, [], ◌∷◌, Bool, true, false, not, Option, none, some, ◌==◌, if◌then◌else◌, add64,
}
use sim_kv.OrdMap.{OrdMap, find, put, erase, nat_ord}
use sim_kv.Types.{Bytes}
use sim_kv.Prng.{Doubles, bernoulli}
use sim_kv.Simulator.{Simulator, schedule, random_range}

pub record NetworkConfig (D : Type 0) : Type 0 where
  pub min_latency : ℕ
  pub max_latency : ℕ
  pub drop_prob : D
  pub dup_prob : D

pub record Message : Type 0 where
  pub from : ℕ
  pub to : ℕ
  pub payload : Bytes

pub record Network (D H : Type 0) : Type 0 where
  pub cfg : NetworkConfig D
  pub handlers : OrdMap ℕ H
  pub partition_group : OrdMap ℕ ℕ
  pub is_partitioned : Bool

-- the loop over the nodes of one group
unfoldable pub assign_group : ℕ → List ℕ → OrdMap ℕ ℕ → OrdMap ℕ ℕ
assign_group g [] groups = groups
assign_group g (id ∷ ids) groups = assign_group g ids (put id g groups)

-- the loop over the groups, from number g on
unfoldable pub assign_groups : ℕ → List (List ℕ) → OrdMap ℕ ℕ → OrdMap ℕ ℕ
assign_groups g [] groups = groups
assign_groups g (ids ∷ rest) groups = assign_groups (suc g) rest (assign_group g ids groups)

abbrev pub groups_differ : Option ℕ → Option ℕ → Bool
groups_differ none other = true
groups_differ (some g) none = true
groups_differ (some g) (some h) = not (g == h)

module _ {D H : Type 0} where
  -- the constructor
  unfoldable pub connected : NetworkConfig D → Network D H
  connected cfg = record { cfg = cfg; handlers = []; partition_group = []; is_partitioned = false }

  unfoldable pub set_handler : ℕ → H → Network D H → Network D H
  set_handler id on_deliver net = record net { handlers = put id on_deliver net.handlers }

  unfoldable pub remove_handler : ℕ → Network D H → Network D H
  remove_handler id net = record net { handlers = erase id net.handlers }

  unfoldable pub partition : List (List ℕ) → Network D H → Network D H
  partition groups net = record net {
    partition_group = assign_groups 0 groups [];
    is_partitioned = true;
  }

  unfoldable pub heal : Network D H → Network D H
  heal net = record net { partition_group = []; is_partitioned = false }

  unfoldable pub set_drop_prob : D → Network D H → Network D H
  set_drop_prob p net = record net { cfg = record net.cfg { drop_prob = p } }

  unfoldable pub set_dup_prob : D → Network D H → Network D H
  set_dup_prob p net = record net { cfg = record net.cfg { dup_prob = p } }

  unfoldable pub set_latency : ℕ → ℕ → Network D H → Network D H
  set_latency mn mx net = record net { cfg = record net.cfg { min_latency = mn; max_latency = mx } }

  unfoldable pub partitioned : ℕ → ℕ → Network D H → Bool
  partitioned from to net =
      if not net.is_partitioned
      then false
      else groups_differ (find from net.partition_group) (find to net.partition_group)

module _ {D A : Type 0} ⦃doubles : Doubles D⦄ where
  -- a random choice with the simulator's generator
  unfoldable pub flip : D → Simulator A → Bool × Simulator A
  flip prob sim = let (chosen, p) = bernoulli prob sim.prng in (chosen, record sim { prng = p })

module _ {D H A : Type 0} ⦃doubles : Doubles D⦄ (deliver : H → Message → A) where
  -- a delivery after a random delay: `send_copy`, and with the sender -1 the body of deliver_once
  unfoldable pub deliver_later : ℕ → Message → Network D H → Simulator A → Option (Simulator A)
  deliver_later fuel message net sim = elim (find message.to net.handlers) [
    | none ↦ some sim
    | some fn ↦ elim (random_range fuel net.cfg.min_latency (add64 net.cfg.max_latency 1) sim) [
      | none ↦ none
      | some (lat, sim') ↦ some (schedule lat (deliver fn message) sim').0
    ]
  ]

  unfoldable pub deliver_once : ℕ → ℕ → Bytes → Network D H → Simulator A → Option (Simulator A)
  deliver_once fuel to payload net sim =
      deliver_later fuel (record { from = 4294967295; to = to; payload = payload }) net sim

  -- the second half of send, behind the first copy
  unfoldable pub duplicate : ℕ → Message → Network D H → Simulator A → Option (Simulator A)
  duplicate fuel message net sim =
      let (again, sim') = flip net.cfg.dup_prob sim in
      if again then deliver_later fuel message net sim' else some sim'

  unfoldable pub send :
      (fuel from to : ℕ) → Bytes → Network D H → Simulator A → Option (Simulator A)
  send fuel from to payload net sim =
      let message : Message = record { from = from; to = to; payload = payload } in
      if partitioned from to net
      then some sim
      else (let (dropped, sim1) = flip net.cfg.drop_prob sim in
          if dropped then some sim1 else elim (deliver_later fuel message net sim1) [
            | none ↦ none
            | some sim2 ↦ duplicate fuel message net sim2
          ])
