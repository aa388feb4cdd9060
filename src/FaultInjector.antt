-- ===== src/FaultInjector.antt =====
-- harness/fault_injector.cpp: partitions, spikes of loss and duplication, crashes, at random times.
-- The methods work on the simulator, the network and the nodes beside the injector: Faults.
pub mod Groups
mod Tests
use sim_kv.Prelude.{
  ℕ, List, [], ◌∷◌, Bool, true, false, not, ◌/◌, Option, none, some, ltb, if◌then◌else◌, length,
  get_elem?, take, drop,
}
use sim_kv.Result.{Result, err, ok}
use sim_kv.Prng.{Doubles, unit, shuffle, mul64, set}
use sim_kv.Simulator.{Simulator, schedule, cancel, random_range}
use sim_kv.Network.{Network, partition, set_drop_prob, set_dup_prob, flip}
use sim_kv.Node.{Node, Outcome, done, threw}
use sim_kv.Node.Lifecycle.{crash}

pub record FaultConfig (D : Type 0) : Type 0 where
  pub fault_rate : D
  pub check_interval : ℕ
  pub partition_duration : ℕ
  pub crash_min_down : ℕ
  pub crash_max_down : ℕ
  pub partition_prob : D
  pub drop_raise_prob : D
  pub dup_raise_prob : D

pub record FaultInjector (D : Type 0) : Type 0 where
  pub cfg : FaultConfig D
  pub running : Bool
  pub tick_id : ℕ

pub record Faults (D H A : Type 0) : Type 0 where
  pub injector : FaultInjector D
  pub sim : Simulator A
  pub net : Network D H
  pub nodes : List Node

-- the closures that the injector schedules
pub record FaultClosures (D A : Type 0) : Type 0 where
  pub tick : A
  pub heal : A
  pub restart : ℕ → A
  pub restore_drop : D → A
  pub restore_dup : D → A

-- the constants 0.3, 0.6, 0.2 and 0.4
pub record Spikes (D : Type 0) : Type 0 where
  pub drop_step : D
  pub drop_cap : D
  pub dup_step : D
  pub dup_cap : D

abbrev pub ids_of : List Node → List ℕ
ids_of [] = []
ids_of (n ∷ ns) = n.id ∷ ids_of ns

-- `std::min`
unfoldable pub least : {D : Type 0} ⦃d : Doubles D⦄ → D → D → D
least ⦃d⦄ a b = if d.lt b a then b else a

module _ {D H A : Type 0} ⦃doubles : Doubles D⦄ (calls : FaultClosures D A)
    (spikes : Spikes D) where
  unfoldable pub start : Faults D H A → Faults D H A
  start f =
      let (sim, id) = schedule f.injector.cfg.check_interval calls.tick f.sim in
      record f { injector = record f.injector { running = true; tick_id = id }; sim = sim }

  unfoldable pub stop : Faults D H A → Faults D H A
  stop f = record f {
    injector = record f.injector { running = false };
    sim = cancel f.injector.tick_id f.sim;
  }

  -- a random number, and with it as delay an action: what each fault ends with
  unfoldable pub schedule_end : (fuel lo hi : ℕ) → A → Faults D H A → Option (Faults D H A)
  schedule_end fuel lo hi action f = elim (random_range fuel lo hi f.sim) [
    | none ↦ none
    | some (dur, sim) ↦ some (record f { sim = (schedule dur action sim).0 })
  ]

  -- inject_partition, behind the shuffle
  unfoldable pub split_groups : ℕ → List ℕ → Faults D H A → Option (Faults D H A)
  split_groups fuel ids f = elim (random_range fuel 1 (length ids) f.sim) [
    | none ↦ none
    | some (split, sim) ↦
        schedule_end fuel (f.injector.cfg.partition_duration / 2)
          (mul64 f.injector.cfg.partition_duration 2) calls.heal
          (record f { sim = sim; net = partition (take split ids ∷ drop split ids ∷ []) f.net })
  ]

  unfoldable pub inject_partition : ℕ → Faults D H A → Option (Faults D H A)
  inject_partition fuel f =
      if ltb (length f.nodes) 2 then some f else elim (shuffle fuel (ids_of f.nodes) f.sim.prng) [
        | none ↦ none
        | some (ids, p) ↦ split_groups fuel ids (record f { sim = record f.sim { prng = p } })
      ]

  -- the crash of the node with an index, and the restart that is scheduled
  unfoldable pub crash_node : (fuel idx : ℕ) → Node → Faults D H A → Result (Option (Faults D H A))
  crash_node fuel idx node f = if not node.running then ok (some f) else elim (crash node) [
    | threw e left ↦ err e
    | done node' ↦ ok (
        schedule_end fuel f.injector.cfg.crash_min_down f.injector.cfg.crash_max_down
          (calls.restart idx) (record f { nodes = set f.nodes idx node' }))
  ]

  -- `err` where crash throws, `none` where the fuel runs out
  unfoldable pub inject_crash_restart : ℕ → Faults D H A → Result (Option (Faults D H A))
  inject_crash_restart fuel f =
      if ltb 0 (length f.nodes)
      then elim (random_range fuel 0 (length f.nodes) f.sim) [
        | none ↦ ok none
        | some (idx, sim) ↦ elim (get_elem? f.nodes idx) [
          | none ↦ ok none
          | some node ↦ crash_node fuel idx node (record f { sim = sim })
        ]
      ]
      else ok (some f)

  unfoldable pub inject_drop_spike : ℕ → Faults D H A → Option (Faults D H A)
  inject_drop_spike fuel f =
      let old_drop = f.net.cfg.drop_prob in
      schedule_end fuel 100000 400000 (calls.restore_drop old_drop) (record f {
        net = set_drop_prob (least (doubles.plus old_drop spikes.drop_step) spikes.drop_cap) f.net;
      })

  unfoldable pub inject_dup_spike : ℕ → Faults D H A → Option (Faults D H A)
  inject_dup_spike fuel f =
      let old_dup = f.net.cfg.dup_prob in
      schedule_end fuel 100000 400000 (calls.restore_dup old_dup) (record f {
        net = set_dup_prob (least (doubles.plus old_dup spikes.dup_step) spikes.dup_cap) f.net;
      })

  -- the fault that a number r in [0, 1) stands for
  unfoldable pub inject : ℕ → D → Faults D H A → Result (Option (Faults D H A))
  inject fuel r f =
      let c = f.injector.cfg in
      let below = doubles.plus c.partition_prob c.drop_raise_prob in
      if doubles.lt r c.partition_prob
      then ok (inject_partition fuel f)
      else if doubles.lt r below
      then ok (inject_drop_spike fuel f)
      else if doubles.lt r (doubles.plus below c.dup_raise_prob)
      then ok (inject_dup_spike fuel f)
      else inject_crash_restart fuel f

  -- the end of tick
  unfoldable pub tick_again : Faults D H A → Faults D H A
  tick_again f =
      let (sim, id) = schedule f.injector.cfg.check_interval calls.tick f.sim in
      record f { injector = record f.injector { tick_id = id }; sim = sim }

  unfoldable pub again : Result (Option (Faults D H A)) → Result (Option (Faults D H A))
  again (err e) = err e
  again (ok none) = ok none
  again (ok (some f)) = ok (some (tick_again f))

  unfoldable pub tick : ℕ → Faults D H A → Result (Option (Faults D H A))
  tick fuel f =
      if not f.injector.running
      then ok (some f)
      else (let (strikes, sim) = flip f.injector.cfg.fault_rate f.sim in
          let (r, p) = unit sim.prng in
          if strikes
          then again (inject fuel r (record f { sim = record sim { prng = p } }))
          else ok (some (tick_again (record f { sim = sim }))))
