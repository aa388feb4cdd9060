-- ===== src/Workload/Runs.antt =====
-- What holds in every run of the workload, whatever happens beside it.
use sim_kv.Prelude.{
  ℕ, ◌+◌, ◌<◌, ◌^◌, ◌≡◌, refl, sym, ap, ◌∙◌, subst, List, [], ◌∷◌, Bool, true, false, not, Option,
  none, some, leb, ◌==◌, length, get_elem?, arith, Bool-cases, Option-cases, inl, inr, ◌%◌, ◌⊎◌,
  sub64, if◌then◌else◌,
}
use sim_kv.Types.{Bytes}
use sim_kv.Result.{Result, Error, err, ok}
use sim_kv.Prng.{Doubles}
use sim_kv.Rpc.Client.{encode_client_request, decode_client_reply}
use sim_kv.Simulator.{Simulator}
use sim_kv.Network.{Network, Message, send}
use sim_kv.History.{HistoryEntry, record_invoke}
use sim_kv.Workload.{
  ClientState, Harness, Closures, client_id_base, created, done, invoke, issue_for, issue_op,
  complete, accept, receive, on_reply, on_timeout, outcome,
}
use sim_kv.Workload.Draws.{WorkloadConfig, Choice, choose}
use sim_kv.Workload.Ledger.{waiting_count-replicate, idle-replicate, not_pending}
use sim_kv.Workload.Loop.{IsClosed, complete-IsClosed, invoke-IsClosed}

true_of_not : {b : Bool} → not b ≡ false → b ≡ true
true_of_not {b = true} h = refl
true_of_not {b = false} h = cc

Result-cases {ℓ} :
    {A : Type ℓ} (r : Result A) → ((e : Error) × (r ≡ err e)) ⊎ ((a : A) × (r ≡ ok a))
Result-cases (err e) = inl (e, refl)
Result-cases (ok a) = inr (a, refl)

module _ {D H A : Type 0} ⦃doubles : Doubles D⦄ (calls : Closures H A) where
  abbrev Closed : Harness D H A → Type 0
  Closed b = IsClosed b.workload b.history

  complete-Closed :
      (ci : ℕ) (cs : ClientState) (leader : ℕ) (was_ok : Bool) (response : Bytes)
      (sim : Simulator A) (b : Harness D H A)
      → Closed b
      → get_elem? b.workload.clients ci ≡ some cs
      → cs.waiting ≡ true
      → Closed (complete calls ci cs leader was_ok response sim b)
  unfolding complete
  complete-Closed ci cs leader was_ok response sim b v at_ci waits =
      complete-IsClosed b.workload b.history ci cs leader b.sim.clock was_ok response v at_ci waits

  if-Closed :
      (t : Bool) (x y : Harness D H A)
      → (t ≡ true → Closed x)
      → (t ≡ false → Closed y)
      → Closed (if t then x else y)
  if-Closed true x y left right = left refl
  if-Closed false x y left right = right refl

  on_timeout-Closed : (ci : ℕ) (b : Harness D H A) → Closed b → Closed (on_timeout calls ci b)
  unfolding on_timeout
  on_timeout-Closed ci b v = elim (Option-cases (get_elem? b.workload.clients ci)) [
    | inl missing ↦ rw (missing, on_timeout) v
    | inr (cs, at_ci) ↦
        rw (at_ci, on_timeout)
          (if-Closed (not cs.waiting) _ _ (λ idle. v)
            (λ waits. complete-Closed ci cs _ false _ b.sim b v at_ci (true_of_not waits)))
  ]

  -- What a call that may throw leaves if it does not.
  abbrev OkClosed : Result (Harness D H A) → Type 0
  OkClosed (err e) = Unit
  OkClosed (ok b) = Closed b

  if-Ok :
      (t : Bool) (x y : Result (Harness D H A))
      → (t ≡ true → OkClosed x)
      → (t ≡ false → OkClosed y)
      → OkClosed (if t then x else y)
  if-Ok true x y left right = left refl
  if-Ok false x y left right = right refl

  receive-Closed :
      (ci : ℕ) (cs : ClientState) (payload : Bytes) (b : Harness D H A)
      → Closed b
      → get_elem? b.workload.clients ci ≡ some cs
      → cs.waiting ≡ true
      → OkClosed (receive calls ci cs payload b)
  unfolding receive accept
  receive-Closed ci cs [] b v at_ci waits = v
  receive-Closed ci cs (tag ∷ rest) b v at_ci waits = elim (Bool-cases (tag == 6)) [
    | inr other ↦ rw (other, OkClosed) v
    | inl reply ↦ elim (Result-cases (decode_client_reply (tag ∷ rest))) [
      | inl (e, threw) ↦ rw (reply, threw, OkClosed) tt
      | inr (m, read) ↦
          rw (reply, read, OkClosed)
            (if-Closed (not (m.request_id == sub64 cs.next_request_id 1)) _ _ (λ stale. v)
              (λ fresh. complete-Closed ci cs _ (outcome m cs b.history).0 _ _ b v at_ci waits))
    ]
  ]

  waiting_or_not :
      (ci : ℕ) (cs : ClientState) (m : Message) (b : Harness D H A)
      → Closed b
      → get_elem? b.workload.clients ci ≡ some cs
      → OkClosed (if not cs.waiting then ok b else receive calls ci cs m.payload b)
  waiting_or_not ci cs m b v at_ci =
      if-Ok (not cs.waiting) (ok b) (receive calls ci cs m.payload b) (λ idle. v)
        (λ waits. receive-Closed ci cs m.payload b v at_ci (true_of_not waits))

  on_reply-Closed :
      (ci : ℕ) (m : Message) (b : Harness D H A) → Closed b → OkClosed (on_reply calls ci m b)
  unfolding on_reply
  on_reply-Closed ci m b v = elim (Option-cases (get_elem? b.workload.clients ci)) [
    | inl missing ↦ rw (missing, on_reply, OkClosed) v
    | inr (cs, at_ci) ↦ rw (at_ci, on_reply) (waiting_or_not ci cs m b v at_ci)
  ]

  -- What a call that may run out of fuel leaves if it does not.
  abbrev SomeClosed : Option (Harness D H A) → Type 0
  SomeClosed none = Unit
  SomeClosed (some b) = Closed b

  if-Some :
      (t : Bool) (x y : Option (Harness D H A))
      → (t ≡ true → SomeClosed x)
      → (t ≡ false → SomeClosed y)
      → SomeClosed (if t then x else y)
  if-Some true x y left right = left refl
  if-Some false x y left right = right refl

  invoke-Closed :
      (fuel ci : ℕ) (cs : ClientState) (choice : Choice) (b : Harness D H A)
      → Closed b
      → get_elem? b.workload.clients ci ≡ some cs
      → cs.waiting ≡ false
      → b.workload.ops_issued < b.workload.cfg.total_ops
      → SomeClosed (invoke calls fuel ci cs choice b)
  unfolding invoke record_invoke
  invoke-Closed fuel ci cs choice b v at_ci idle room =
      elim (Option-cases (
        send calls.deliver fuel ((client_id_base + ci) % 2 ^ 32) cs.believed_leader
          (encode_client_request (record {
            client_id = client_id_base + ci;
            request_id = cs.next_request_id;
            cmd = choice.cmd;
          }))
          b.net b.sim)) [
            | inl spent ↦ rw (spent, SomeClosed) tt
            | inr (sim, sent) ↦
                rw (sent, SomeClosed)
                  (invoke-IsClosed b.workload b.history ci cs _ _ v at_ci idle room refl refl refl
                    refl)
          ]

  issue_for-Closed :
      (fuel ci : ℕ) (cs : ClientState) (b : Harness D H A)
      → Closed b
      → get_elem? b.workload.clients ci ≡ some cs
      → cs.waiting ≡ false
      → b.workload.ops_issued < b.workload.cfg.total_ops
      → SomeClosed (issue_for calls fuel ci cs b)
  unfolding issue_for
  issue_for-Closed fuel ci cs b v at_ci idle room =
      elim (Option-cases (choose fuel b.workload.cfg b.sim.prng)) [
        | inl spent ↦ rw (spent, issue_for, SomeClosed) tt
        | inr ((choice, p), drawn) ↦
            rw (drawn, issue_for)
              (invoke-Closed fuel ci cs choice (record b { sim = record b.sim { prng = p } }) v
                at_ci idle room)
      ]

  issue_op-Closed :
      (fuel ci : ℕ) (b : Harness D H A) → Closed b → SomeClosed (issue_op calls fuel ci b)
  unfolding issue_op
  issue_op-Closed fuel ci b v =
      if-Some (leb b.workload.cfg.total_ops b.workload.ops_issued) _ _ (λ full. v)
        (λ room. elim (Option-cases (get_elem? b.workload.clients ci)) [
          | inl missing ↦ rw (missing, SomeClosed) v
          | inr (cs, at_ci) ↦ rw at_ci (
              if-Some cs.waiting (some b) (issue_for calls fuel ci cs b) (λ busy. v)
                (λ idle. issue_for-Closed fuel ci cs b v at_ci idle (ground arith)))
        ])

  -- A step of the program: a method of the workload that returns, or anything that leaves the
  -- workload and its history alone.
  pub data Step : Harness D H A → Harness D H A → Type 0 where
    issued : (fuel ci : ℕ) {b b' : Harness D H A} → issue_op calls fuel ci b ≡ some b' → Step b b'
    replied :
        (ci : ℕ) (m : Message) {b b' : Harness D H A} → on_reply calls ci m b ≡ ok b' → Step b b'
    timed_out : (ci : ℕ) {b b' : Harness D H A} → on_timeout calls ci b ≡ b' → Step b b'
    elsewhere :
        (sim : Simulator A) (net : Network D H) {b b' : Harness D H A}
        → record b { sim = sim; net = net } ≡ b'
        → Step b b'

  pub data Reaches : Harness D H A → Harness D H A → Type 0 where
    at_once : {b b' : Harness D H A} → b ≡ b' → Reaches b b'
    step : {b b' b'' : Harness D H A} → Step b b' → Reaches b' b'' → Reaches b b''

  Step-IsClosed : {b b' : Harness D H A} → Step b b' → Closed b → Closed b'
  Step-IsClosed (Step.issued fuel ci {b = b} e) v = subst SomeClosed e (issue_op-Closed fuel ci b v)
  Step-IsClosed (Step.replied ci m {b = b} e) v = subst OkClosed e (on_reply-Closed ci m b v)
  Step-IsClosed (Step.timed_out ci {b = b} e) v = subst Closed e (on_timeout-Closed ci b v)
  Step-IsClosed (Step.elsewhere sim net {b = b} e) v = subst Closed e v

  Reaches-Closed : {b b' : Harness D H A} → Reaches b b' → Closed b → Closed b'
  Reaches-Closed (Reaches.at_once e) v = subst Closed e v
  Reaches-Closed (Reaches.step s r) v = Reaches-Closed r (Step-IsClosed s v)

  created-IsClosed :
      (cfg : WorkloadConfig D) (nodes : List ℕ)
      → cfg.total_ops < 2 ^ 64
      → IsClosed (created cfg nodes) []
  unfolding created
  created-IsClosed cfg nodes small = record {
    bounded = omega arith;
    small = small;
    waiting = sym (waiting_count-replicate cfg.num_clients _ refl);
    summed = omega arith;
    logged = refl;
    open' = refl;
    held = λ i cs at_i waits.
        absurd
          (cc (ap (λ (c : ClientState). c.waiting) (idle-replicate cfg.num_clients i _ cs at_i)));
  }

  -- In every run of a workload that starts with an empty history and fewer than 2^64 operations to
  -- issue — operations issued, replies of any content, timeouts, and anything else that happens to
  -- simulator and network, in any order — as many operations are pending as clients wait and as
  -- entries of the history are pending, each waiting client holds a pending entry of its own, no more
  -- operations are issued than asked for, and every one of them is completed or pending.
  pub Reaches-IsClosed :
      (cfg : WorkloadConfig D) (nodes : List ℕ) (sim : Simulator A) (net : Network D H)
      (b : Harness D H A)
      → cfg.total_ops < 2 ^ 64
      → Reaches (record { workload = created cfg nodes; history = []; sim = sim; net = net }) b
      → IsClosed b.workload b.history
  Reaches-IsClosed cfg nodes sim net b small r = Reaches-Closed r (created-IsClosed cfg nodes small)

  -- When a workload that keeps count so is done, the history has as many entries as operations were
  -- asked for, and none of them is pending.
  pub done_lem :
      (b : Harness D H A) (i : ℕ) (e : HistoryEntry)
      → IsClosed b.workload b.history
      → done b.workload ≡ true
      → get_elem? b.history i ≡ some e
      → (length b.history ≡ b.workload.cfg.total_ops) × (e.pending ≡ false)
  unfolding done
  done_lem b i e v finished at_i =
      let none_left : b.workload.pending ≡ 0 = ground arith in
      (ground (arith, v.logged, v.bounded), not_pending i e b.history (v.open' ∙ none_left) at_i)
