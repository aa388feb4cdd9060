-- ===== src/Node/Frame.antt =====
-- The methods that touch neither the term, the vote, the log nor their stores.
use sim_kv.Prelude.{◌≡◌, refl, ◌∙◌, List, [], ◌∷◌, ◌++◌, Option-cases, inl, inr, ℕ, Bool, arith}
use sim_kv.OrdMap.{find, nat_ord}
use sim_kv.Types.{NodeId, Bytes, CmdResult, follower}
use sim_kv.Node.{Node, Clock, Effect, PendingRead, ClientCallback, reply_to, caller, emit}
use sim_kv.Node.Timers.{
  schedule_election_timeout, schedule_heartbeat, cancel_election_timeout, cancel_heartbeat,
}
use sim_kv.Node.Reads.{
  drain_read, drain_loop, drain_pending_reads, cancel_loop, cancel_pending_reads, expire_loop,
  expire_read,
}
use sim_kv.Node.Roles.{step_down}
use sim_kv.Node.Replication.{send_install_snapshot}
use sim_kv.Node.Commit.{run_callback, answer_client}
use sim_kv.Node.Election.{broadcast}

pub record SameHard (s t : Node) : Type 0 where
  pub term : t.current_term ≡ s.current_term
  pub vote : t.voted_for ≡ s.voted_for
  pub log : t.log ≡ s.log
  pub meta_store : t.meta_store ≡ s.meta_store
  pub log_store : t.log_store ≡ s.log_store

pub same_fields :
    {s t : Node}
    → t.current_term ≡ s.current_term
    → t.voted_for ≡ s.voted_for
    → t.log ≡ s.log
    → t.meta_store ≡ s.meta_store
    → t.log_store ≡ s.log_store
    → SameHard s t
same_fields a b c d e = record { term = a; vote = b; log = c; meta_store = d; log_store = e }

pub SameHard-refl : (s : Node) → SameHard s s
SameHard-refl s = record {
  term = refl;
  vote = refl;
  log = refl;
  meta_store = refl;
  log_store = refl;
}

pub SameHard-trans : {r s t : Node} → SameHard r s → SameHard s t → SameHard r t
SameHard-trans h k = record {
  term = k.term ∙ h.term;
  vote = k.vote ∙ h.vote;
  log = k.log ∙ h.log;
  meta_store = k.meta_store ∙ h.meta_store;
  log_store = k.log_store ∙ h.log_store;
}

module _ ⦃clk : Clock⦄ where
  pub schedule_election_timeout-SameHard : (s : Node) → SameHard s (schedule_election_timeout s)
  unfolding schedule_election_timeout
  schedule_election_timeout-SameHard s = ground arith

  pub schedule_heartbeat-SameHard : (s : Node) → SameHard s (schedule_heartbeat s)
  unfolding schedule_heartbeat
  schedule_heartbeat-SameHard s = ground arith

pub cancel_election_timeout-SameHard : (s : Node) → SameHard s (cancel_election_timeout s)
unfolding cancel_election_timeout
cancel_election_timeout-SameHard s = ground arith

pub cancel_heartbeat-SameHard : (s : Node) → SameHard s (cancel_heartbeat s)
unfolding cancel_heartbeat
cancel_heartbeat-SameHard s = ground arith

drain_read-SameHard : (pr : PendingRead) (s : Node) → SameHard s (drain_read pr s)
unfolding drain_read
drain_read-SameHard pr s = ground arith

drain_loop-SameHard : (prs : List PendingRead) (s : Node) → SameHard s (drain_loop prs s)
unfolding drain_loop
drain_loop-SameHard [] s = SameHard-refl s
drain_loop-SameHard (pr ∷ prs) s =
    SameHard-trans (drain_read-SameHard pr s) (drain_loop-SameHard prs (drain_read pr s))

pub drain_pending_reads-SameHard : (s : Node) → SameHard s (drain_pending_reads s)
unfolding drain_pending_reads
drain_pending_reads-SameHard s =
    ground (arith, drain_loop-SameHard s.pending_reads (record s { pending_reads = [] }))

emit-SameHard : (e : Effect) (s : Node) → SameHard s (emit e s)
emit-SameHard e s = record {
  term = refl;
  vote = refl;
  log = refl;
  meta_store = refl;
  log_store = refl;
}

cancel_loop-SameHard : (prs : List PendingRead) (s : Node) → SameHard s (cancel_loop prs s)
unfolding cancel_loop
cancel_loop-SameHard [] s = SameHard-refl s
cancel_loop-SameHard (pr ∷ prs) s =
    SameHard-trans (SameHard-trans (emit-SameHard _ s) (emit-SameHard _ _))
      (cancel_loop-SameHard prs _)

pub cancel_pending_reads-SameHard : (s : Node) → SameHard s (cancel_pending_reads s)
unfolding cancel_pending_reads
cancel_pending_reads-SameHard s = ground (arith, cancel_loop-SameHard s.pending_reads s)

pub step_down-SameHard : (changed : Bool) (s : Node) → SameHard s (step_down changed s)
unfolding step_down
step_down-SameHard changed s = ground (
  arith,
  cancel_pending_reads-SameHard s,
  cancel_heartbeat-SameHard (record (cancel_pending_reads s) { role = follower }),
)

pub send_install_snapshot-SameHard :
    (peer : NodeId) (s : Node) → SameHard s (send_install_snapshot peer s)
unfolding send_install_snapshot
send_install_snapshot-SameHard peer s = ground arith

pub run_callback-SameHard :
    (cb : ClientCallback) (r : CmdResult) (s : Node) → SameHard s (run_callback cb r s)
unfolding run_callback
run_callback-SameHard (reply_to client client_id request_id) r s = emit-SameHard _ s
run_callback-SameHard (caller cb) r s = emit-SameHard _ s

pub answer_client-SameHard : (r : CmdResult) (s : Node) → SameHard s (answer_client r s)
unfolding answer_client
answer_client-SameHard r s = elim (Option-cases (find s.last_applied s.pending_clients)) [
  | inl nobody ↦ rw (nobody, answer_client) (SameHard-refl s)
  | inr ((cb, client), waits) ↦
      (let same = run_callback-SameHard cb r s in
        rw (waits, answer_client)
          (record {
            term = same.term;
            vote = same.vote;
            log = same.log;
            meta_store = same.meta_store;
            log_store = same.log_store;
          }))
]

pub broadcast-SameHard :
    (peers : List NodeId) (payload : Bytes) (s : Node) → SameHard s (broadcast peers payload s)
broadcast-SameHard [] payload s = SameHard-refl s
broadcast-SameHard (peer ∷ peers) payload s =
    SameHard-trans (emit-SameHard _ s) (broadcast-SameHard peers payload _)

expire_loop-SameHard :
    (round : ℕ) (before prs : List PendingRead) (s : Node)
    → SameHard s (expire_loop round before prs s)
unfolding expire_loop
expire_loop-SameHard round before [] s = SameHard-refl s
expire_loop-SameHard round before (pr ∷ prs) s =
    ground (arith, expire_loop-SameHard round (before ++ pr ∷ []) prs s)

pub expire_read-SameHard : (round : ℕ) (s : Node) → SameHard s (expire_read round s)
unfolding expire_read
expire_read-SameHard round s = expire_loop-SameHard round [] s.pending_reads s
