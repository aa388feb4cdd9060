-- ===== src/Node/Applied.antt =====
-- The loop of RaftNode::apply_committed_entries ends where it should (raft/node.cpp).
use sim_kv.Prelude.{
  ℕ, zero, suc, ◌-◌, ◌≤◌, ◌<◌, ◌^◌, ◌≡◌, refl, sym, ap, ◌∙◌, ◌+◌, ◌++◌, length, subst, List, [],
  ◌∷◌, Bool, true, false, ◌&&◌, Option, none, inl, inr, Option-cases, Bool-cases, ltb, leb, ◌==◌,
  arith, if◌then◌else◌, add64,
}
use sim_kv.Result.{Result, ok, err}
use sim_kv.Types.{
  LogEntry, Term, Index, NodeId, Command, cmd_add_server, cmd_remove_server, CmdResult,
}
use sim_kv.OrdMap.{find, nat_ord}
use sim_kv.Log.{RaftLog, at}
use sim_kv.KvStore
use sim_kv.KvStore.{KvStore}
use sim_kv.Node.{
  Node, Clock, ClientCallback, reply_to, caller, PendingRead, Outcome, done, threw, ◌>>=◌,
  with_value, is_config, touch, at_key,
}
use sim_kv.Node.Timers.{schedule_election_timeout, cancel_election_timeout, cancel_heartbeat}
use sim_kv.Node.Persistence.{persist}
use sim_kv.Node.Reads.{cancel_loop, cancel_pending_reads}
use sim_kv.Node.Roles.{adopt_term, step_down, become_follower, is_leader}
use sim_kv.Node.Replication.{send_entries, send_install_snapshot, replicate_to}
use sim_kv.Node.Commit.{
  run_callback, answer_client, mem_id, apply_membership_change, apply_config, apply_next, sort_ids,
  remove_id, apply_loop,
}

-- What the loop reads and changes: how far the node has committed and applied, its log, its state
-- machine and the members.
pub record View : Type 0 where
  pub commit : Index
  pub applied : Index
  pub log : RaftLog
  pub kv : KvStore
  pub members : List NodeId
  pub self : NodeId

abbrev pub view : Node → View
view s = record {
  commit = s.commit_index;
  applied = s.last_applied;
  log = s.log;
  kv = s.kv;
  members = s.peers;
  self = s.id;
}

abbrev pub Lands : View → Outcome → Type 0
Lands v (done t) = view t ≡ v
Lands v (threw e t) = Unit

abbrev IsAt : View → Node → Type 0
IsAt v t = view t ≡ v

-- What a method leaves when it returns.
pub record IsLeftAt (v : View) (o : Outcome) : Type 0 where
  pub lands : Lands v o

bound-IsLeftAt :
    {v v' : View} (o : Outcome) (f : Node → Outcome)
    → IsLeftAt v o
    → ((t : Node) → IsAt v t → IsLeftAt v' (f t))
    → IsLeftAt v' (o >>= f)
bound-IsLeftAt (done t) f h next = next t h.lands
bound-IsLeftAt (threw e t) f h next = record { lands = tt }

module _ {v : View} where
  returns-IsLeftAt : {t : Node} → IsAt v t → IsLeftAt v (done t)
  returns-IsLeftAt h = record { lands = h }

  tested-IsLeftAt :
      (b : Bool) {m n : Outcome} → IsLeftAt v m → IsLeftAt v n → IsLeftAt v (if b then m else n)
  tested-IsLeftAt true h k = h
  tested-IsLeftAt false h k = k

  read-IsLeftAt {ℓ} :
      {A : Type ℓ} (r : Result A) (s : Node) (f : A → Outcome)
      → ((x : A) → IsLeftAt v (f x))
      → IsLeftAt v (with_value r s f)
  unfolding with_value
  read-IsLeftAt (ok x) s f next = next x
  read-IsLeftAt (err e) s f next = record { lands = tt }

  cancel_loop-IsAt : (prs : List PendingRead) (s : Node) → IsAt v s → IsAt v (cancel_loop prs s)
  unfolding cancel_loop
  cancel_loop-IsAt [] s h = h
  cancel_loop-IsAt (pr ∷ prs) s h = cancel_loop-IsAt prs _ (h)

  step_down-IsAt : (changed : Bool) (s : Node) → IsAt v s → IsAt v (step_down changed s)
  unfolding step_down cancel_pending_reads cancel_heartbeat
  step_down-IsAt changed s h = ground (arith, cancel_loop-IsAt s.pending_reads s h)

  adopt_term-IsAt : (term : Term) (s : Node) → IsAt v s → IsAt v (adopt_term term s)
  unfolding adopt_term persist
  adopt_term-IsAt term s h = ground arith

  become_follower-IsAt :
      ⦃clk : Clock⦄ (term : Term) (from : Option NodeId) (s : Node)
      → IsAt v s
      → IsAt v (become_follower term from s)
  unfolding become_follower schedule_election_timeout cancel_election_timeout
  become_follower-IsAt term from s h = ground (
    arith,
    step_down-IsAt (ltb s.current_term term) (adopt_term term s) (adopt_term-IsAt term s h),
  )

  send_entries-IsLeftAt : (peer : NodeId) (s : Node) → IsAt v s → IsLeftAt v (send_entries peer s)
  unfolding send_entries
  send_entries-IsLeftAt peer s h = read-IsLeftAt _ s _ λ term. returns-IsLeftAt (h)

  send_install_snapshot-IsAt :
      (peer : NodeId) (s : Node) → IsAt v s → IsAt v (send_install_snapshot peer s)
  unfolding send_install_snapshot
  send_install_snapshot-IsAt peer s h = ground arith

  replicate_to-IsLeftAt : (peer : NodeId) (s : Node) → IsAt v s → IsLeftAt v (replicate_to peer s)
  unfolding replicate_to
  replicate_to-IsLeftAt peer s h =
      let touched : Node = record s { next_index = touch peer s.next_index } in
      let same : IsAt v touched = h in
      tested-IsLeftAt (is_leader s.role)
        (tested-IsLeftAt (leb (at_key peer s.next_index) s.snap_last_index)
          (returns-IsLeftAt (send_install_snapshot-IsAt peer touched same))
          (send_entries-IsLeftAt peer touched same))
        (returns-IsLeftAt h)

-- The members after a command.
abbrev pub members_after : NodeId → Command → List NodeId → List NodeId
members_after self (cmd_add_server x) ps =
    if mem_id x ps then ps else (if x == self then ps else sort_ids (ps ++ x ∷ []))
members_after self (cmd_remove_server x) ps = remove_id x ps
members_after self _ ps = ps

abbrev pub with_members : Command → View → View
with_members cmd v = record v { members = members_after v.self cmd v.members }

-- A command takes its effect on the state machine and on the members.
abbrev pub executed : Command → View → View
executed cmd v = with_members cmd (record v { kv = (KvStore.apply cmd v.kv).1 })

-- The commands of some entries, one after the other.
abbrev pub executed_all : List LogEntry → View → View
executed_all [] v = v
executed_all (e ∷ es) v = executed_all es (executed e.cmd v)

-- What one round applies, by whether its index is in the snapshot, and by what the log has there.
abbrev after_next : Bool → Result LogEntry → View → View
after_next true entry v = v
after_next false (err e) v = v
after_next false (ok e) v = executed e.cmd v

module _ ⦃clk : Clock⦄ where
  add_server-IsLeftAt :
      (x : NodeId) (s : Node)
      → IsLeftAt
          (with_members (cmd_add_server x) (view s))
          (apply_membership_change (cmd_add_server x) s)
  unfolding apply_membership_change
  add_server-IsLeftAt x s = elim (Bool-cases (mem_id x s.peers)) [
    | inl there ↦ rw there (returns-IsLeftAt refl)
    | inr new ↦ elim (Bool-cases (x == s.id)) [
      | inl self ↦ rw (new, self) (returns-IsLeftAt refl)
      | inr other ↦
          rw (new, other)
            (tested-IsLeftAt (is_leader s.role) (replicate_to-IsLeftAt x _ refl)
              (returns-IsLeftAt refl))
    ]
  ]

  apply_membership_change-IsLeftAt :
      (cmd : Command) (s : Node)
      → IsLeftAt (with_members cmd (view s)) (apply_membership_change cmd s)
  unfolding apply_membership_change
  apply_membership_change-IsLeftAt (cmd_add_server x) s = add_server-IsLeftAt x s
  apply_membership_change-IsLeftAt (cmd_remove_server x) s =
      tested-IsLeftAt (x == s.id && is_leader s.role)
        (returns-IsLeftAt (become_follower-IsAt s.current_term none _ refl)) (returns-IsLeftAt refl)
  apply_membership_change-IsLeftAt _ s = returns-IsLeftAt refl

  no_config : (cmd : Command) (v : View) → is_config cmd ≡ false → with_members cmd v ≡ v
  no_config (cmd_add_server x) v h = cc
  no_config (cmd_remove_server x) v h = cc
  no_config _ v h = refl

  apply_config-IsLeftAt :
      (cmd : Command) (s : Node) → IsLeftAt (with_members cmd (view s)) (apply_config cmd s)
  unfolding apply_config
  apply_config-IsLeftAt cmd s = elim (Bool-cases (is_config cmd)) [
    | inl config ↦
        rw config
          (bound-IsLeftAt _ _ (apply_membership_change-IsLeftAt cmd s) λ t k. returns-IsLeftAt k)
    | inr other ↦ rw other (returns-IsLeftAt (sym (no_config cmd (view s) other)))
  ]

module _ {v : View} where
  run_callback-IsAt :
      (cb : ClientCallback) (r : CmdResult) (s : Node) → IsAt v s → IsAt v (run_callback cb r s)
  unfolding run_callback
  run_callback-IsAt (reply_to client client_id request_id) r s h = h
  run_callback-IsAt (caller cb) r s h = h

  answer_client-IsAt : (r : CmdResult) (s : Node) → IsAt v s → IsAt v (answer_client r s)
  unfolding answer_client
  answer_client-IsAt r s h = elim (Option-cases (find s.last_applied s.pending_clients)) [
    | inl nobody ↦ rw (nobody, answer_client) h
    | inr ((cb, client), waits) ↦ rw (waits, answer_client) (run_callback-IsAt cb r s h)
  ]

-- One round of the loop.
abbrev next_view : Node → View
next_view s =
    let i = add64 s.last_applied 1 in
    after_next (leb i s.log.base_index) (at i s.log) (record (view s) { applied = i })

apply_entry-IsLeftAt :
    ⦃clk : Clock⦄ (r : Result LogEntry) (s : Node)
    → IsLeftAt (after_next false r (view s)) (
        with_value r s λ entry.
          apply_config entry.cmd (record s { kv = (KvStore.apply entry.cmd s.kv).1 })
          >>= (λ t. done (answer_client (KvStore.apply entry.cmd s.kv).0 t)))
unfolding with_value
apply_entry-IsLeftAt (err e) s = record { lands = tt }
apply_entry-IsLeftAt (ok e) s =
    bound-IsLeftAt _ _ (apply_config-IsLeftAt e.cmd _)
      λ t k. returns-IsLeftAt (answer_client-IsAt _ t k)

apply_next-IsLeftAt : ⦃clk : Clock⦄ (s : Node) → IsLeftAt (next_view s) (apply_next s)
unfolding apply_next
apply_next-IsLeftAt s =
    let i = add64 s.last_applied 1 in
    let counted : Node = record s { last_applied = i } in
    elim (Bool-cases (leb i s.log.base_index)) [
      | inl skip ↦ rw skip (returns-IsLeftAt refl)
      | inr here ↦ rw here (apply_entry-IsLeftAt (at i s.log) counted)
    ]

counts :
    (skip : Bool) (r : Result LogEntry) (v : View)
    → ((after_next skip r v).commit ≡ v.commit) × ((after_next skip r v).applied ≡ v.applied)
counts true r v = (refl, refl)
counts false (err e) v = (refl, refl)
counts false (ok e) v = (refl, refl)

-- How far a state is behind one round.
counted_next :
    (s t : Node)
    → IsAt (next_view s) t
    → (t.commit_index ≡ s.commit_index) × (t.last_applied ≡ add64 s.last_applied 1)
counted_next s t h =
    let i = add64 s.last_applied 1 in
    let (commit, applied) =
      counts (leb i s.log.base_index) (at i s.log) (record (view s) { applied = i }) in
    (ap (λ (v : View). v.commit) h ∙ commit, ap (λ (v : View). v.applied) h ∙ applied)

same_after :
    {v : View} (o : Outcome) (f g : Node → Outcome)
    → IsLeftAt v o
    → ((t : Node) → IsAt v t → f t ≡ g t)
    → (o >>= f) ≡ (o >>= g)
same_after (done t) f g h same = same t h.lands
same_after (threw e t) f g h same = refl

module _ ⦃clk : Clock⦄ where
  apply_loop-same :
      (m n : ℕ) (s : Node)
      → s.commit_index < 2 ^ 64
      → s.commit_index - s.last_applied ≤ m
      → s.commit_index - s.last_applied ≤ n
      → apply_loop m s ≡ apply_loop n s
  unfolding apply_loop
  apply_loop-same zero zero s room hm hn = refl
  apply_loop-same zero (suc n) s room hm hn = ground arith
  apply_loop-same (suc m) zero s room hm hn = ground arith
  apply_loop-same (suc m) (suc n) s room hm hn =
      elim (Bool-cases (ltb s.last_applied s.commit_index)) [
        | inr finished ↦ rw finished refl
        | inl left ↦
            (rw left (
              same_after (apply_next s) (apply_loop m) (apply_loop n) (apply_next-IsLeftAt s) λ t h.
                let (commit, applied) = counted_next s t h in
                let below : s.last_applied < s.commit_index = ground arith in
                apply_loop-same m n t (omega arith) (omega arith) (omega arith)))
      ]

  -- Enough fuel: on as many rounds as there are indices left to apply, or more, the loop has the same
  -- outcome, an exception included.
  pub apply_loop-enough :
      (n : ℕ) (s : Node)
      → s.commit_index < 2 ^ 64
      → s.commit_index - s.last_applied ≤ n
      → apply_loop n s ≡ apply_loop (s.commit_index - s.last_applied) s
  apply_loop-enough n s room enough =
      apply_loop-same n (s.commit_index - s.last_applied) s room enough (omega arith)

-- The entries stand in the log, one behind the other, from an index on.
abbrev pub StandAt : Index → List LogEntry → RaftLog → Type 0
StandAt i [] log = Unit
StandAt i (e ∷ es) log = (at i log ≡ ok e) × StandAt (suc i) es log

executed_all-applied :
    (es : List LogEntry) (v : View) (k : Index)
    → executed_all es (record v { applied = k }) ≡ record (executed_all es v) { applied = k }
executed_all-applied [] v k = refl
executed_all-applied (e ∷ es) v k = executed_all-applied es (executed e.cmd v) k

-- One round where the log has an entry behind the snapshot.
next_view-entry :
    (s : Node) (e : LogEntry)
    → s.last_applied + 1 < 2 ^ 64
    → s.log.base_index ≤ s.last_applied
    → at (suc s.last_applied) s.log ≡ ok e
    → next_view s ≡ executed e.cmd (record (view s) { applied = suc s.last_applied })
next_view-entry s e room base found =
    let next : add64 s.last_applied 1 ≡ suc s.last_applied = omega arith in
    let behind : leb (suc s.last_applied) s.log.base_index ≡ false = ground arith in
    rw (next, behind, found) refl

module _ ⦃clk : Clock⦄ where
  -- Where the loop returns, with rounds enough, and the log has the entries es from behind the last
  -- applied index to the commit index, none of them in the snapshot: the state machine and the members
  -- are what the commands of es make of them, each once and in order, everything up to the commit
  -- index is applied, and the commit index, the log and the node's id are as before.
  pub apply_loop-IsLeftAt :
      (n : ℕ) (es : List LogEntry) (s : Node)
      → s.commit_index < 2 ^ 64
      → s.log.base_index ≤ s.last_applied
      → s.last_applied + length es ≡ s.commit_index
      → StandAt (suc s.last_applied) es s.log
      → length es ≤ n
      → IsLeftAt (record (executed_all es (view s)) { applied = s.commit_index }) (apply_loop n s)
  unfolding apply_loop
  apply_loop-IsLeftAt zero [] s room base all stand enough =
      returns-IsLeftAt (ap (λ k. record (view s) { applied = k }) (omega arith))
  apply_loop-IsLeftAt (suc n) [] s room base all stand enough =
      let finished : ltb s.last_applied s.commit_index ≡ false = ground arith in
      rw finished (returns-IsLeftAt (ap (λ k. record (view s) { applied = k }) (omega arith)))
  apply_loop-IsLeftAt zero (e ∷ es) s room base all stand enough = absurd (omega arith)
  apply_loop-IsLeftAt (suc n) (e ∷ es) s room base all (found, stand) enough =
      let left : ltb s.last_applied s.commit_index ≡ true = ground arith in
      let u : View = executed e.cmd (record (view s) { applied = suc s.last_applied }) in
      let step = next_view-entry s e (omega arith) base found in
      rw left (
        bound-IsLeftAt (apply_next s) (apply_loop n) (apply_next-IsLeftAt s) λ t h.
          let there : view t ≡ u = h ∙ step in
          let commit = ap (λ (v : View). v.commit) there in
          let applied = ap (λ (v : View). v.applied) there in
          let log = ap (λ (v : View). v.log) there in
          let rest =
            apply_loop-IsLeftAt n es t (omega arith)
              (omega (arith, ap (λ (l : RaftLog). l.base_index) log)) (omega arith)
              (subst (λ i. StandAt (suc i) es t.log) (sym applied)
                (subst (StandAt (suc (suc s.last_applied)) es) (sym log) stand))
              (omega arith) in
          let same =
            ap (λ (w : View). record (executed_all es w) { applied = w.commit }) there
            ∙ ap (λ (w : View). record w { applied = s.commit_index })
                (executed_all-applied es (executed e.cmd (view s)) (suc s.last_applied)) in
          subst (λ v. IsLeftAt v (apply_loop n t)) same rest)
