-- ===== src/DispatchQueue/Order.antt =====
-- What a drain runs, and in which order.
use sim_kv.Prelude.{
  ℕ, zero, suc, ◌+◌, ◌≤◌, ◌<◌, ◌≡◌, refl, sym, ap, ◌∙◌, List, [], ◌∷◌, ◌++◌, append_assoc,
  append-nil, Bool, true, false, Option, some, length, length-append, arith, take, drop,
}
use sim_kv.DispatchQueue.{
  DispatchQueue, Call, posts, stops, Drained, post, stop, call, call_all, first_calls, later_calls,
  ran_before, drain,
}

module _ {F : Type 0} where
  -- The closures that are accepted: those posted before a stop.
  abbrev pub accepted : Bool → List (Call F) → List F
  accepted true cs = []
  accepted false [] = []
  accepted false (posts f ∷ cs) = f ∷ accepted false cs
  accepted false (stops ∷ cs) = []

  abbrev pub joined : List (List (Call F)) → List (Call F)
  joined [] = []
  joined (cs ∷ rest) = cs ++ joined rest

  -- Whether the queue is stopped after the calls.
  abbrev pub stopped_after : Bool → List (Call F) → Bool
  stopped_after true cs = true
  stopped_after false [] = false
  stopped_after false (posts f ∷ cs) = stopped_after false cs
  stopped_after false (stops ∷ cs) = true

  same_queue :
      {q q' : List F} {stopped : Bool}
      → q ≡ q'
      → ◌≡◌ {A = DispatchQueue F}
          (record { q = q; stopped = stopped })
          (record { q = q'; stopped = stopped })
  same_queue {stopped = b} e = ap (λ l. record { q = l; stopped = b }) e

  pub call_all_lem :
      (cs : List (Call F)) (q : List F) (stopped : Bool)
      → call_all cs (record { q = q; stopped = stopped })
        ≡ record { q = q ++ accepted stopped cs; stopped = stopped_after stopped cs }
  unfolding call_all call post stop
  call_all_lem [] q true = same_queue (sym (append-nil q))
  call_all_lem [] q false = same_queue (sym (append-nil q))
  call_all_lem (posts f ∷ cs) q true = call_all_lem cs q true
  call_all_lem (stops ∷ cs) q true = call_all_lem cs q true
  call_all_lem (posts f ∷ cs) q false =
      call_all_lem cs (q ++ f ∷ []) false ∙ same_queue (append_assoc q (f ∷ []) (accepted false cs))
  call_all_lem (stops ∷ cs) q false = call_all_lem cs q true

  pub accepted-append :
      (stopped : Bool) (cs ds : List (Call F))
      → accepted stopped (cs ++ ds) ≡ accepted stopped cs ++ accepted (stopped_after stopped cs) ds
  accepted-append true cs ds = refl
  accepted-append false [] ds = refl
  accepted-append false (posts f ∷ cs) ds = ap (λ l. f ∷ l) (accepted-append false cs ds)
  accepted-append false (stops ∷ cs) ds = refl

  pub length-accepted :
      (stopped : Bool) (cs : List (Call F)) → length (accepted stopped cs) ≤ length cs
  length-accepted true cs = omega arith
  length-accepted false [] = omega arith
  length-accepted false (posts f ∷ cs) = omega (arith, length-accepted false cs)
  length-accepted false (stops ∷ cs) = omega arith

  -- The closures that a drain runs: those of the queue and then those that are accepted while they
  -- run, where one list of calls is made while each of them runs; the queue never was empty before.
  pub record IsDrained (calls : List (List (Call F))) (d : DispatchQueue F) (ran : List F)
      : Type 0 where
    pub in_order : ran ≡ d.q ++ accepted d.stopped (joined (take (length ran) calls))
    pub busy :
        (j : ℕ)
        → j < length ran
        → j < length d.q + length (accepted d.stopped (joined (take j calls)))

  -- A drain that returns with an empty queue, having run what was in the queue and then what was
  -- accepted meanwhile, in the order of the posts.
  pub record RanAll (calls : List (List (Call F))) (d : DispatchQueue F)
      (result : Option (Drained F)) : Type 0 where
    pub drained : Drained F
    pub returned : result ≡ some drained
    pub used : List (List (Call F))
    pub consumed : used ++ drained.calls_left ≡ calls
    pub taken : used ≡ take (length drained.ran) calls
    pub left : drained.calls_left ≡ drop (length drained.ran) calls
    pub emptied : drained.queue.q ≡ []
    pub busy :
        (j : ℕ)
        → j < length drained.ran
        → j < length d.q + length (accepted d.stopped (joined (take j calls)))
    pub in_order : drained.ran ≡ d.q ++ accepted d.stopped (joined used)
    pub still : drained.queue.stopped ≡ stopped_after d.stopped (joined used)

  pub accepted-nil : (stopped : Bool) → accepted stopped [] ≡ []
  accepted-nil true = refl
  accepted-nil false = refl

  stopped_after-nil :
      (stopped : Bool) (cs : List (Call F)) → cs ≡ [] → stopped_after stopped cs ≡ stopped
  stopped_after-nil true cs h = refl
  stopped_after-nil false [] h = refl
  stopped_after-nil false (c ∷ cs) h = cc

  stopped_after-append :
      (stopped : Bool) (cs ds : List (Call F))
      → stopped_after stopped (cs ++ ds) ≡ stopped_after (stopped_after stopped cs) ds
  stopped_after-append true cs ds = refl
  stopped_after-append false [] ds = refl
  stopped_after-append false (posts f ∷ cs) ds = stopped_after-append false cs ds
  stopped_after-append false (stops ∷ cs) ds = refl

  length-first :
      (calls : List (List (Call F)))
      → length (joined calls) ≡ length (first_calls calls) + length (joined (later_calls calls))
  length-first [] = omega arith
  length-first (cs ∷ rest) = length-append cs (joined rest)

  take-nil : (n : ℕ) → ◌≡◌ {A = List (List (Call F))} (take n []) []
  take-nil zero = refl
  take-nil (suc n) = refl

  drop-nil : (n : ℕ) → ◌≡◌ {A = List (List (Call F))} (drop n []) []
  drop-nil zero = refl
  drop-nil (suc n) = refl

  -- What is not run yet, by the number of closures that were run.
  abbrev Busy : List (List (Call F)) → List F → Bool → ℕ → Type 0
  Busy calls q stopped n =
      (j : ℕ) → j < n → j < length q + length (accepted stopped (joined (take j calls)))

  Busy-cons :
      (cs : List (Call F)) (rest : List (List (Call F))) (q : List F) (stopped : Bool) (n : ℕ)
      → Busy rest (q ++ accepted stopped cs) (stopped_after stopped cs) n
      → (j : ℕ) → j < suc n
      → j < suc (length q) + length (accepted stopped (joined (take j (cs ∷ rest))))
  Busy-cons cs rest q stopped n busy zero h = omega arith
  Busy-cons cs rest q stopped n busy (suc j) h = omega (
    arith,
    busy j (omega arith),
    length-append q (accepted stopped cs),
    ap length (accepted-append stopped cs (joined (take j rest))),
    length-append (accepted stopped cs)
        (accepted (stopped_after stopped cs) (joined (take j rest))),
  )

  Busy-nil :
      (q : List F) (stopped : Bool) (n : ℕ)
      → Busy [] (q ++ accepted stopped []) (stopped_after stopped []) n
      → (j : ℕ) → j < suc n
      → j < suc (length q) + length (accepted stopped (joined (take j [])))
  Busy-nil q stopped n busy zero h = omega arith
  Busy-nil q stopped n busy (suc j) h =
      let none_left : accepted (stopped_after stopped []) (joined (take j [])) ≡ [] =
        ap (λ l. accepted (stopped_after stopped []) (joined l)) (take-nil j)
        ∙ accepted-nil (stopped_after stopped []) in
      omega (
        arith,
        busy j (omega arith),
        length-append q (accepted stopped []),
        ap length (accepted-nil stopped),
        ap length none_left,
      )

  one_more :
      (fuel : ℕ) (calls : List (List (Call F))) (f : F) (q : List F) (stopped : Bool)
      → RanAll
          (later_calls calls)
          (record {
            q = q ++ accepted stopped (first_calls calls);
            stopped = stopped_after stopped (first_calls calls);
          })
          (drain fuel (later_calls calls) (record {
            q = q ++ accepted stopped (first_calls calls);
            stopped = stopped_after stopped (first_calls calls);
          }))
      → RanAll calls
          (record { q = f ∷ q; stopped = stopped })
          (ran_before f (
            drain fuel
              (later_calls calls)
              (call_all (first_calls calls) (record { q = q; stopped = stopped }))))
  one_more fuel [] f q stopped r = record {
    drained = record r.drained { ran = f ∷ r.drained.ran };
    returned = rw (call_all_lem [] q stopped, r.returned) refl;
    used = r.used;
    consumed = r.consumed;
    taken = r.taken ∙ take-nil (length r.drained.ran);
    left = r.left ∙ drop-nil (length r.drained.ran);
    busy = Busy-nil q stopped (length r.drained.ran) r.busy;
    emptied = r.emptied;
    in_order =
        ap (λ l. f ∷ l)
          (r.in_order
            ∙ rw (accepted-nil stopped, stopped_after-nil stopped [] refl, append-nil q) refl);
    still = r.still ∙ rw (stopped_after-nil stopped [] refl) refl;
  }
  one_more fuel (cs ∷ rest) f q stopped r = record {
    drained = record r.drained { ran = f ∷ r.drained.ran };
    returned = rw (call_all_lem cs q stopped, r.returned) refl;
    used = cs ∷ r.used;
    consumed = ap (λ l. cs ∷ l) r.consumed;
    taken = ap (λ l. cs ∷ l) r.taken;
    left = r.left;
    busy = Busy-cons cs rest q stopped (length r.drained.ran) r.busy;
    emptied = r.emptied;
    in_order =
        ap (λ l. f ∷ l)
          (r.in_order
            ∙ append_assoc q (accepted stopped cs)
                (accepted (stopped_after stopped cs) (joined r.used))
            ∙ ap (λ l. q ++ l) (sym (accepted-append stopped cs (joined r.used))));
    still = r.still ∙ sym (stopped_after-append stopped cs (joined r.used));
  }

  pub drain_lem :
      (fuel : ℕ) (calls : List (List (Call F))) (q : List F) (stopped : Bool)
      → length q + length (joined calls) < fuel
      → RanAll calls
          (record { q = q; stopped = stopped })
          (drain fuel calls (record { q = q; stopped = stopped }))
  unfolding drain
  drain_lem zero calls q stopped enough = absurd (omega arith)
  drain_lem (suc fuel) calls [] stopped enough = record {
    drained = record { ran = []; calls_left = calls; queue = record { q = []; stopped = stopped } };
    returned = refl;
    used = [];
    consumed = refl;
    taken = refl;
    left = refl;
    busy = λ j h. absurd (omega arith);
    emptied = refl;
    in_order = sym (accepted-nil stopped);
    still = sym (stopped_after-nil stopped [] refl);
  }
  drain_lem (suc fuel) calls (f ∷ q) stopped enough = one_more fuel calls f q stopped (
      drain_lem fuel (later_calls calls) (q ++ accepted stopped (first_calls calls))
        (stopped_after stopped (first_calls calls))
        (omega (
          arith,
          length-first calls,
          length-accepted stopped (first_calls calls),
          length-append q (accepted stopped (first_calls calls)),
        )))
