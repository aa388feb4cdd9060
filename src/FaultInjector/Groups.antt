-- ===== src/FaultInjector/Groups.antt =====
-- What FaultInjector::inject_partition does to the network.
use mathlib.Core.List.{Mem, Perm}
use mathlib.Core.List.Perm
use sim_kv.Prelude.{
  ℕ, zero, ltb, false, suc, ◌*◌, ◌-◌, ◌<◌, ◌^◌, ◌/◌, ◌≡◌, refl, sym, subst, ◌∙◌, inl, inr, List, [],
  ◌∷◌, ◌++◌, true, some, ap, Option-cases, length, take, drop, length-take, length-drop, arith,
}
use sim_kv.FileStore.Prefixes.{take-append-drop}
use sim_kv.Prng.{Prng, next_u64, Doubles, shuffle, range, mul64}
use sim_kv.Prng.Range.{draw, IsAccepted, range-first, range-inside}
use sim_kv.Prng.Shuffle.{
  less_one, skip-suc, skip, draw-skip, Lucky, shuffle-returns, shuffle-Perm, length-shuffle,
}
use sim_kv.Simulator.{schedule, random_range}
use sim_kv.Network.{Network, partition, partitioned}
use sim_kv.Network.Partition.{partitioned-partition}
use sim_kv.Node.{Node}
use sim_kv.FaultInjector.{
  Faults, FaultClosures, Spikes, ids_of, schedule_end, split_groups, inject_partition,
}

less_one-suc : (n : ℕ) → 0 < n → n ≡ suc (less_one n)
less_one-suc zero h = absurd (omega arith)
less_one-suc (suc n) h = refl

length-ids_of : (ns : List Node) → length (ids_of ns) ≡ length ns
length-ids_of [] = refl
length-ids_of (n ∷ ns) = ap (λ k. suc k) (length-ids_of ns)

-- The ids fall into two groups, none of them empty, and the network is cut between the two.
pub record IsSplit {D H : Type 0} (ids : List ℕ) (before after : Network D H) : Type 0 where
  pub first : List ℕ
  pub second : List ℕ
  pub all : Perm (first ++ second) ids
  pub some_first : 0 < length first
  pub some_second : 0 < length second
  pub cut : after ≡ partition (first ∷ second ∷ []) before
  pub apart :
      (from to : ℕ) → ¬ (Mem from second) → ¬ (Mem to first) → partitioned from to after ≡ true

module _ {D H A : Type 0} ⦃doubles : Doubles D⦄ (calls : FaultClosures D A)
    (spikes : Spikes D) where
  schedule_end-frame :
      (fuel lo hi : ℕ) (action : A) (f f' : Faults D H A)
      → schedule_end calls spikes fuel lo hi action f ≡ some f'
      → (f'.net ≡ f.net) × (f'.nodes ≡ f.nodes)
  unfolding schedule_end
  schedule_end-frame fuel lo hi action f f' e =
      elim (Option-cases (random_range fuel lo hi f.sim)) [
        | inl spent ↦ absurd (ground arith)
        | inr ((dur, sim), drawn) ↦
            let same : record f { sim = (schedule dur action sim).0 } ≡ f' = ground arith in
            (sym (ap (λ x. x.net) same), sym (ap (λ x. x.nodes) same))
      ]

  IsSplit-split_groups :
      (fuel : ℕ) (ids : List ℕ) (f f' : Faults D H A)
      → 1 < length ids
      → length ids < 2 ^ 64
      → split_groups calls spikes fuel ids f ≡ some f'
      → IsSplit ids f.net f'.net × (f'.nodes ≡ f.nodes)
  unfolding split_groups random_range
  IsSplit-split_groups fuel ids f f' many small e =
      elim (Option-cases (range fuel 1 (length ids) f.sim.prng)) [
        | inl spent ↦ absurd (ground arith)
        | inr ((split, p), drawn) ↦
            let inside = range-inside fuel 1 (length ids) split f.sim.prng p many small drawn in
            let moved : Faults D H A = record f {
              sim = record f.sim { prng = p };
              net = partition (take split ids ∷ drop split ids ∷ []) f.net;
            } in
            let ends : schedule_end calls spikes fuel (f.injector.cfg.partition_duration / 2)
                  (mul64 f.injector.cfg.partition_duration 2) calls.heal moved
                ≡ some f' =
              ground arith in
            let kept =
              schedule_end-frame fuel (f.injector.cfg.partition_duration / 2)
                (mul64 f.injector.cfg.partition_duration 2) calls.heal moved f' ends in
            (
              record {
                first = take split ids;
                second = drop split ids;
                all = rw (take-append-drop split ids) (Perm.refl ids);
                some_first = omega (arith, length-take split ids);
                some_second = omega (arith, length-drop split ids);
                cut = kept.0;
                apart = λ from to a b.
                    subst (λ n. partitioned from to n ≡ true) (sym kept.0)
                      (partitioned-partition f.net (take split ids ∷ drop split ids ∷ []) from to
                        ((λ both. b both.1), ((λ both. a both.0), tt)));
              },
              kept.1,
            )
      ]

  -- The groups, where inject_partition returns.
  inject_partition-groups :
      (fuel : ℕ) (f f' : Faults D H A)
      → 1 < length f.nodes
      → length f.nodes < 2 ^ 64
      → inject_partition calls spikes fuel f ≡ some f'
      → IsSplit (ids_of f.nodes) f.net f'.net × (f'.nodes ≡ f.nodes)
  unfolding inject_partition
  inject_partition-groups fuel f f' many small e =
      elim (Option-cases (shuffle fuel (ids_of f.nodes) f.sim.prng)) [
        | inl spent ↦ absurd (ground arith)
        | inr ((ids, p), drawn) ↦
            let mixed : Faults D H A = record f { sim = record f.sim { prng = p } } in
            let rest : split_groups calls spikes fuel ids mixed ≡ some f' = ground arith in
            let same =
              length-shuffle fuel (ids_of f.nodes) ids f.sim.prng p drawn ∙ length-ids_of f.nodes in
            let (split, kept) =
              IsSplit-split_groups fuel ids mixed f' (omega arith) (omega arith) rest in
            (
              record {
                first = split.first;
                second = split.second;
                all =
                    Perm.trans split.all
                      (shuffle-Perm fuel (ids_of f.nodes) ids f.sim.prng p drawn);
                some_first = split.some_first;
                some_second = split.some_second;
                cut = split.cut;
                apart = split.apart;
              },
              kept,
            )
      ]

  -- The generator's words are accepted where inject_partition draws: those of the shuffle and of the
  -- split for every number of outcomes up to the number of nodes, the last for the duration, which
  -- is not zero and overflows nothing.
  pub record HasDraws (f : Faults D H A) : Type 0 where
    pub words : Lucky (length f.nodes) (length f.nodes) f.sim.prng
    pub some_time : 0 < f.injector.cfg.partition_duration
    pub small_time : f.injector.cfg.partition_duration * 2 < 2 ^ 64
    pub last :
        IsAccepted
          (f.injector.cfg.partition_duration * 2 - f.injector.cfg.partition_duration / 2)
          (draw (length f.nodes) f.sim.prng).0

  split_groups_step :
      (fuel : ℕ) (ids : List ℕ) (f : Faults D H A) (split time : ℕ) (p q : Prng)
      → range fuel 1 (length ids) f.sim.prng ≡ some (split, p)
      → range fuel
          (f.injector.cfg.partition_duration / 2)
          (mul64 f.injector.cfg.partition_duration 2)
          p
        ≡ some (time, q)
      → (f' : Faults D H A) × (split_groups calls spikes fuel ids f ≡ some f')
  unfolding split_groups schedule_end random_range
  split_groups_step fuel ids f split time p q drawn timed = (
    record f {
      sim = (schedule time calls.heal (record f.sim { prng = q })).0;
      net = partition (take split ids ∷ drop split ids ∷ []) f.net;
    },
    rw (drawn, split_groups, schedule_end, timed) refl,
  )

  split_groups-returns :
      (fuel : ℕ) (ids : List ℕ) (f : Faults D H A)
      → 1 < length ids
      → length ids < 2 ^ 64
      → 0 < f.injector.cfg.partition_duration
      → f.injector.cfg.partition_duration * 2 < 2 ^ 64
      → IsAccepted (length ids - 1) (next_u64 f.sim.prng).0
      → IsAccepted
          (f.injector.cfg.partition_duration * 2 - f.injector.cfg.partition_duration / 2)
          (next_u64 (next_u64 f.sim.prng).1).0
      → (f' : Faults D H A) × (split_groups calls spikes (suc fuel) ids f ≡ some f')
  split_groups-returns fuel ids f many small some_time small_time acc last =
      let dur = f.injector.cfg.partition_duration in
      let (split, drawn) = range-first fuel 1 (length ids) f.sim.prng many small acc in
      let fits : dur * 2 ≡ mul64 dur 2 = omega arith in
      let (time, timed) =
        range-first fuel (dur / 2) (dur * 2) (next_u64 f.sim.prng).1 (omega arith) small_time
          last in
      split_groups_step (suc fuel) ids f split time (next_u64 f.sim.prng).1
        (next_u64 (next_u64 f.sim.prng).1).1 drawn
        (subst
          (λ hi.
            range (suc fuel) (dur / 2) hi (next_u64 f.sim.prng).1
            ≡ some (time, (next_u64 (next_u64 f.sim.prng).1).1))
          fits timed)

  -- inject_partition on two nodes or more, and below 2^64, where the generator's words are accepted as
  -- it draws: it returns, the nodes' ids fall into two groups, none of them empty, and a node of the
  -- one alone is cut off from a node of the other alone. The nodes are as they were.
  pub inject_partition-IsSplit :
      (fuel : ℕ) (f : Faults D H A)
      → 1 < length f.nodes
      → length f.nodes < 2 ^ 64
      → HasDraws f
      → (f' : Faults D H A) × (inject_partition calls spikes (suc fuel) f ≡ some f')
        × IsSplit (ids_of f.nodes) f.net f'.net
        × (f'.nodes ≡ f.nodes)
  unfolding inject_partition
  inject_partition-IsSplit fuel f many small draws =
      let enough : ltb (length f.nodes) 2 ≡ false = ground arith in
      let p = f.sim.prng in
      let size = length-ids_of f.nodes in
      let m = less_one (length (ids_of f.nodes)) in
      let (ids, mixed) =
        shuffle-returns fuel (ids_of f.nodes) p (omega (arith, size))
          (subst (λ n. Lucky n n p) (sym size) draws.words) in
      let same = length-shuffle (suc fuel) (ids_of f.nodes) ids p (skip m p) mixed ∙ size in
      let top = less_one-suc (length (ids_of f.nodes)) (omega (arith, size)) in
      let word = draws.words m (length ids - 1) (omega arith) (omega arith) (omega arith) in
      let last_word : draw (length f.nodes) p ≡ next_u64 (next_u64 (skip m p)).1 =
        ap (λ n. draw n p) (sym size ∙ top) ∙ draw-skip (suc m) p ∙ ap next_u64 (skip-suc m p) in
      let (f', parted) =
        split_groups-returns fuel ids (record f { sim = record f.sim { prng = skip m p } })
          (omega arith) (omega arith) draws.some_time draws.small_time
          (subst (λ w. IsAccepted (length ids - 1) w.0) (draw-skip m p) word)
          (subst
            (λ w.
              IsAccepted
                (f.injector.cfg.partition_duration * 2 - f.injector.cfg.partition_duration / 2) w.0)
            last_word draws.last) in
      let returned : inject_partition calls spikes (suc fuel) f ≡ some f' =
        rw (enough, inject_partition, mixed) parted in
      let (parts, kept) = inject_partition-groups (suc fuel) f f' many small returned in
      (f', returned, parts, kept)
