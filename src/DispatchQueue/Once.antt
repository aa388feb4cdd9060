-- ===== src/DispatchQueue/Once.antt =====
-- run_once: what runs before and after its wait.
use sim_kv.Prelude.{
  ℕ, ◌+◌, ◌<◌, ◌≡◌, refl, sym, ap, ◌∙◌, List, [], ◌∷◌, ◌++◌, append-nil, Bool, true, false, Option,
  some, if◌then◌else◌, length, length-append, arith, Bool-cases, inl, inr, take, drop, ◌⊎◌, subst,
}
use sim_kv.DispatchQueue.{
  DispatchQueue, Call, Drained, call_all, drain, ran_after, wait_and_drain, run_once,
}
use sim_kv.DispatchQueue.Order.{
  IsDrained, accepted, joined, stopped_after, RanAll, drain_lem, length-accepted, call_all_lem,
}

module _ {F : Type 0} where
  -- run_once returns with an empty queue. It ran what a drain of the queue runs, and behind the wait,
  -- unless the queue was stopped before, what a drain of the closures runs that were accepted in it,
  -- where the calls made while the first closures ran are gone.
  pub record RanOnce (calls : List (List (Call F))) (arrived : List (Call F)) (d : DispatchQueue F)
      (result : Option (Drained F)) : Type 0 where
    pub drained : Drained F
    pub returned : result ≡ some drained
    pub emptied : drained.queue.q ≡ []
    pub first : List F
    pub second : List F
    pub ran : drained.ran ≡ first ++ second
    pub before_wait : IsDrained calls d first
    pub behind_wait :
        ((stopped_after d.stopped (joined (take (length first) calls)) ≡ true) × (second ≡ []))
        ⊎ ((stopped_after d.stopped (joined (take (length first) calls)) ≡ false)
            × IsDrained
                (drop (length first) calls)
                (record { q = accepted false arrived; stopped = stopped_after false arrived })
                second)

  joined-append :
      (xs ys : List (List (Call F)))
      → length (joined (xs ++ ys)) ≡ length (joined xs) + length (joined ys)
  joined-append [] ys = omega arith
  joined-append (x ∷ xs) ys =
      omega (
        arith,
        joined-append xs ys,
        length-append x (joined (xs ++ ys)),
        length-append x (joined xs),
      )

  after_wait :
      (arrived : List (Call F)) (d : DispatchQueue F)
      → d.q ≡ []
      → call_all arrived d
        ≡ record { q = accepted d.stopped arrived; stopped = stopped_after d.stopped arrived }
  after_wait arrived d h =
      let empty : d ≡ record { q = []; stopped = d.stopped } =
        ap (λ (l : List F). record { q = l; stopped = d.stopped }) h in
      ap (call_all arrived) empty ∙ call_all_lem arrived [] d.stopped

  first_drain :
      (calls : List (List (Call F))) (d : DispatchQueue F) {result : Option (Drained F)}
      (r : RanAll calls d result)
      → IsDrained calls d r.drained.ran
  first_drain calls d r = record {
    in_order = r.in_order ∙ ap (λ l. d.q ++ accepted d.stopped (joined l)) r.taken;
    busy = r.busy;
  }

  still_after :
      (calls : List (List (Call F))) (d : DispatchQueue F) {result : Option (Drained F)}
      (r : RanAll calls d result)
      → stopped_after d.stopped (joined (take (length r.drained.ran) calls))
        ≡ r.drained.queue.stopped
  still_after calls d r = sym (r.still ∙ ap (λ l. stopped_after d.stopped (joined l)) r.taken)

  -- The end of run_once behind a first drain that stopped the queue.
  stopped_there :
      (fuel : ℕ) (arrived : List (Call F)) (calls : List (List (Call F))) (d : DispatchQueue F)
      (r : RanAll calls d (drain fuel calls d))
      → r.drained.queue.stopped ≡ true
      → RanOnce calls arrived d (wait_and_drain fuel arrived r.drained)
  unfolding wait_and_drain
  stopped_there fuel arrived calls d r stopped = record {
    drained = r.drained;
    returned = ground arith;
    emptied = r.emptied;
    first = r.drained.ran;
    second = [];
    ran = sym (append-nil r.drained.ran);
    before_wait = first_drain calls d r;
    behind_wait = inl (still_after calls d r ∙ stopped, refl);
  }

  if_false : (b : Bool) (x y : Option (Drained F)) → b ≡ false → (if b then x else y) ≡ y
  if_false true x y h = cc
  if_false false x y h = refl

  drained_again :
      (fuel : ℕ) (arrived : List (Call F)) (r second : Drained F) {d : DispatchQueue F}
      → r.queue.stopped ≡ false
      → call_all arrived r.queue ≡ d
      → drain fuel r.calls_left d ≡ some second
      → wait_and_drain fuel arrived r ≡ some (record second { ran = r.ran ++ second.ran })
  unfolding wait_and_drain
  drained_again fuel arrived r second going e h =
      if_false r.queue.stopped (some r)
        (ran_after r.ran (drain fuel r.calls_left (call_all arrived r.queue))) going
      ∙ ap (λ (q : DispatchQueue F). ran_after r.ran (drain fuel r.calls_left q)) e
      ∙ ap (ran_after r.ran) h

  went_on :
      (fuel : ℕ) (arrived : List (Call F)) (calls : List (List (Call F))) (d : DispatchQueue F)
      (r : RanAll calls d (drain fuel calls d))
      → length d.q + (length (joined calls) + length arrived) < fuel
      → r.drained.queue.stopped ≡ false
      → RanOnce calls arrived d (wait_and_drain fuel arrived r.drained)
  unfolding wait_and_drain
  went_on fuel arrived calls d r enough going =
      let s = r.drained.queue.stopped in
      let second =
        drain_lem fuel r.drained.calls_left (accepted s arrived) (stopped_after s arrived) (
          omega (
            arith,
            length-accepted s arrived,
            joined-append r.used r.drained.calls_left,
            ap (λ l. length (joined l)) r.consumed,
          )) in
      record {
        drained = record second.drained { ran = r.drained.ran ++ second.drained.ran };
        returned =
            drained_again fuel arrived r.drained second.drained going
              (after_wait arrived r.drained.queue r.emptied) second.returned;
        emptied = second.emptied;
        first = r.drained.ran;
        second = second.drained.ran;
        ran = refl;
        before_wait = first_drain calls d r;
        behind_wait = inr (
          still_after calls d r ∙ going,
          subst
              (λ b.
                IsDrained (drop (length r.drained.ran) calls)
                  (record { q = accepted b arrived; stopped = stopped_after b arrived })
                  second.drained.ran)
              going
              (subst
                (λ l.
                  IsDrained l (record { q = accepted s arrived; stopped = stopped_after s arrived })
                    second.drained.ran)
                r.left (first_drain r.drained.calls_left _ second)),
        );
      }

  -- run_once, with fuel above the number of closures in the queue and of calls that are made: it
  -- returns with an empty queue. First it ran each closure of the queue and each posted before a stop
  -- while these ran, once and in the order of the posts, and ended where no such closure was left.
  -- Then, unless there was a stop, it ran likewise those posted while it waited and those posted while
  -- these ran, up to a stop.
  pub run_once_lem :
      (fuel : ℕ) (calls : List (List (Call F))) (arrived : List (Call F)) (d : DispatchQueue F)
      → length d.q + (length (joined calls) + length arrived) < fuel
      → RanOnce calls arrived d (run_once fuel calls arrived d)
  unfolding run_once
  run_once_lem fuel calls arrived d enough =
      let r = drain_lem fuel calls d.q d.stopped (omega arith) in
      elim (Bool-cases r.drained.queue.stopped) [
        | inl stopped ↦ rw (r.returned, run_once) (stopped_there fuel arrived calls d r stopped)
        | inr going ↦ rw (r.returned, run_once) (went_on fuel arrived calls d r enough going)
      ]
