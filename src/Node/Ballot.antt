-- ===== src/Node/Ballot.antt =====
-- What RaftNode::handle_request_vote answers (raft/node.cpp).
use sim_kv.Prelude.{
  ℕ, ◌≤◌, ◌<◌, ◌≡◌, refl, sym, ap, ◌∙◌, ◌↔◌, ◌⊎◌, inl, inr, List, [], ◌∷◌, Bool, true, false, not,
  ◌||◌, Bool-cases, Option, none, some, ltb, leb, ◌&&◌, max, subst, arith, if◌then◌else◌,
}
use sim_kv.Types.{Term, NodeId, Bytes}
use sim_kv.Log.{RaftLog, last_index, last_term}
use sim_kv.Rpc.{RequestVote}
use sim_kv.Rpc.Vote.{encode_request_vote_reply}
use sim_kv.Node.{Node, RaftConfig, Clock, emit, Effect, send, PendingRead}
use sim_kv.Node.Timers.{schedule_election_timeout, cancel_election_timeout, cancel_heartbeat}
use sim_kv.Node.Persistence.{persist}
use sim_kv.Node.Reads.{cancel_loop, cancel_pending_reads}
use sim_kv.Node.Roles.{adopt_term, step_down, become_follower, is_follower}
use sim_kv.Node.Election.{can_vote, is_log_up_to_date, decide_vote, handle_request_vote}
use sim_kv.Node.Durable.{IsWritten}
use sim_kv.Node.Votes.{IsUpToDate, IsEligible, decide_vote_iff, decide_vote-IsWritten}

-- The messages that were sent, the newest first.
abbrev pub sent : List Effect → List (NodeId × Bytes)
sent [] = []
sent (send to bytes ∷ es) = (to, bytes) ∷ sent es
sent (_ ∷ es) = sent es

-- What a vote goes by, and the messages that were sent.
record Ballot : Type 0 where
  term : Term
  vote : Option NodeId
  log : RaftLog
  cfg : RaftConfig
  messages : List (NodeId × Bytes)

abbrev ballot : Node → Ballot
ballot s = record {
  term = s.current_term;
  vote = s.voted_for;
  log = s.log;
  cfg = s.cfg;
  messages = sent s.effects;
}

cancel_election_timeout-ballot : (s : Node) → ballot (cancel_election_timeout s) ≡ ballot s
unfolding cancel_election_timeout
cancel_election_timeout-ballot s = elim (Bool-cases s.election_scheduled) [
  | inl armed ↦ rw armed refl
  | inr idle ↦ rw idle refl
]

cancel_heartbeat-ballot : (s : Node) → ballot (cancel_heartbeat s) ≡ ballot s
unfolding cancel_heartbeat
cancel_heartbeat-ballot s = elim (Bool-cases s.heartbeat_scheduled) [
  | inl armed ↦ rw armed refl
  | inr idle ↦ rw idle refl
]

cancel_loop-ballot : (prs : List PendingRead) (s : Node) → ballot (cancel_loop prs s) ≡ ballot s
unfolding cancel_loop
cancel_loop-ballot [] s = refl
cancel_loop-ballot (pr ∷ prs) s = cancel_loop-ballot prs _

step_down-ballot : (changed : Bool) (s : Node) → ballot (step_down changed s) ≡ ballot s
unfolding step_down cancel_pending_reads
step_down-ballot changed s = elim (Bool-cases (not (is_follower s.role) || changed)) [
  | inl steps ↦ rw steps (cancel_heartbeat-ballot _ ∙ cancel_loop-ballot s.pending_reads s)
  | inr stays ↦ rw stays refl
]

module _ ⦃clk : Clock⦄ where
  schedule_election_timeout-ballot : (s : Node) → ballot (schedule_election_timeout s) ≡ ballot s
  unfolding schedule_election_timeout
  schedule_election_timeout-ballot s = elim (Bool-cases s.election_scheduled) [
    | inl armed ↦ rw armed refl
    | inr idle ↦ rw idle refl
  ]

  become_follower-ballot :
      (term : Term) (s : Node)
      → s.current_term < term
      → ballot (become_follower term none s) ≡ record (ballot s) { term = term; vote = none }
  unfolding become_follower adopt_term persist
  become_follower-ballot term s newer =
      let later : ltb s.current_term term ≡ true = ground arith in
      schedule_election_timeout-ballot _
      ∙ cancel_election_timeout-ballot _
      ∙ step_down-ballot (ltb s.current_term term) (adopt_term term s)
      ∙ rw later refl

  decide_vote-ballot :
      (rv : RequestVote) (s : Node)
      → ballot (decide_vote rv s).0 ≡ (
          if (decide_vote rv s).1
          then record (ballot s) { vote = some rv.candidate_id }
          else ballot s)
  unfolding decide_vote persist
  decide_vote-ballot rv s =
      let fresh =
        s.cfg.bug_skip_vote_uptodate || is_log_up_to_date rv.last_log_index rv.last_log_term s in
      elim (Bool-cases
        (leb s.current_term rv.term && (can_vote s.voted_for rv.candidate_id && fresh))) [
          | inl granted ↦
              rw granted (schedule_election_timeout-ballot _ ∙ cancel_election_timeout-ballot _)
          | inr refused ↦ rw refused refl
        ]

-- The answer to a request for a vote, and the state that it leaves.
pub record IsAnswered (from : NodeId) (rv : RequestVote) (s t : Node) : Type 0 where
  pub granted : Bool
  pub term : t.current_term ≡ max s.current_term rv.term
  pub reply :
      sent t.effects
      ≡ (from, encode_request_vote_reply (record { term = t.current_term; vote_granted = granted }))
        ∷ sent s.effects
  pub eligible : (granted ≡ true) ↔ (
      (s.current_term ≤ rv.term)
      × ((s.current_term < rv.term) ⊎ (s.voted_for ≡ none) ⊎ (s.voted_for ≡ some rv.candidate_id))
      × IsUpToDate rv.last_log_term rv.last_log_index s)
  pub written : granted ≡ true → (t.voted_for ≡ some rv.candidate_id) × IsWritten t
  pub refused :
      granted ≡ false → t.voted_for ≡ (if ltb s.current_term rv.term then none else s.voted_for)

voted-term :
    (g : Bool) (b : Ballot) (v : Option NodeId)
    → (if g then record b { vote = v } else b).term ≡ b.term
voted-term true b v = refl
voted-term false b v = refl

voted-messages :
    (g : Bool) (b : Ballot) (v : Option NodeId)
    → (if g then record b { vote = v } else b).messages ≡ b.messages
voted-messages true b v = refl
voted-messages false b v = refl

voted-vote :
    (g : Bool) (b : Ballot) (v : Option NodeId)
    → g ≡ false
    → (if g then record b { vote = v } else b).vote ≡ b.vote
voted-vote true b v h = cc
voted-vote false b v h = refl

-- The state before the decision: the higher term, with the vote free if the term is new.
abbrev opened : RequestVote → Node → Ballot
opened rv s = record (ballot s) {
  term = max s.current_term rv.term;
  vote = if ltb s.current_term rv.term then none else s.voted_for;
}

IsUpToDate-log :
    {term index : ℕ} (s c : Node)
    → s.log ≡ c.log
    → IsUpToDate term index s
    → IsUpToDate term index c
IsUpToDate-log {term} {index} s c same u = record {
  order =
      subst (λ l. (last_term l < term) ⊎ ((term ≡ last_term l) × (last_index l ≤ index))) same
        u.order;
}

-- A vote is free where the term is new, or where it was.
free_iff :
    (newer : Bool) (now before : Option NodeId) (candidate : NodeId)
    → now ≡ (if newer then none else before)
    → ((now ≡ none) ⊎ (now ≡ some candidate))
      ↔ ((newer ≡ true) ⊎ (before ≡ none) ⊎ (before ≡ some candidate))
free_iff true now before candidate e = ((λ f. inl refl), (λ f. inl e))
free_iff false now before candidate e = (
  (λ f. elim f [ inl a ↦ inr (inl (sym e ∙ a)) | inr b ↦ inr (inr (sym e ∙ b)) ]),
  (λ f. elim f [ inl never ↦ absurd (cc) | inr (inl a) ↦ inl (e ∙ a) | inr (inr b) ↦ inr (e ∙ b) ]),
)

ltb_or : {P : Type 0} (a b : ℕ) → ((ltb a b ≡ true) ⊎ P) ↔ ((a < b) ⊎ P)
ltb_or a b = (
  (λ f. elim f [ inl h ↦ inl (ground arith) | inr p ↦ inr p ]),
  (λ f. elim f [ inl h ↦ inl (ground arith) | inr p ↦ inr p ]),
)

module _ ⦃clk : Clock⦄ (rv : RequestVote) (s c : Node) (start : ballot c ≡ opened rv s) where
  IsEligible-iff : IsEligible rv c ↔ (
      (s.current_term ≤ rv.term)
      × ((s.current_term < rv.term) ⊎ (s.voted_for ≡ none) ⊎ (s.voted_for ≡ some rv.candidate_id))
      × IsUpToDate rv.last_log_term rv.last_log_index s)
  IsEligible-iff =
      let term = ap (λ (b : Ballot). b.term) start in
      let vote = ap (λ (b : Ballot). b.vote) start in
      let log = ap (λ (b : Ballot). b.log) start in
      let free =
        free_iff (ltb s.current_term rv.term) c.voted_for s.voted_for rv.candidate_id vote in
      let order = ltb_or s.current_term rv.term in
      (
        λ e. (omega (arith, e.term), order.0 (free.0 e.free), IsUpToDate-log c s log e.log),
        λ (le, unused, fresh). record {
          term = omega arith;
          free = free.1 (order.1 unused);
          log = IsUpToDate-log s c (sym log) fresh;
        },
      )

  answered :
      (from : NodeId)
      → c.cfg.bug_skip_vote_uptodate ≡ false
      → IsAnswered from rv s (
          emit
            (send from (
              encode_request_vote_reply (record {
                term = (decide_vote rv c).0.current_term;
                vote_granted = (decide_vote rv c).1;
              })))
            (decide_vote rv c).0)
  answered from flag =
      let g = (decide_vote rv c).1 in
      let v = some rv.candidate_id in
      let left = decide_vote-ballot rv c in
      record {
        granted = g;
        term =
            ap (λ (b : Ballot). b.term) left
            ∙ voted-term g (ballot c) v
            ∙ ap (λ (b : Ballot). b.term) start;
        reply =
            ap
              (λ l.
                (
                  from,
                  encode_request_vote_reply (record {
                    term = (decide_vote rv c).0.current_term;
                    vote_granted = (decide_vote rv c).1;
                  }),
                )
                ∷ l)
              (ap (λ (b : Ballot). b.messages) left
                ∙ voted-messages g (ballot c) v
                ∙ ap (λ (b : Ballot). b.messages) start);
        eligible =
            let decides = decide_vote_iff rv c flag in
            ((λ h. IsEligible-iff.0 (decides.0 h)), (λ h. decides.1 (IsEligible-iff.1 h)));
        written = λ h. elim (decide_vote-IsWritten rv c) [
          | inl (grants, (vote, w)) ↦ (
            vote,
            record {
              meta = w.meta;
              log = w.log;
              meta_store = w.meta_store;
              log_store = w.log_store;
            },
          )
          | inr (refuses, same) ↦ absurd (cc)
        ];
        refused = λ h.
            ap (λ (b : Ballot). b.vote) left
            ∙ voted-vote g (ballot c) v h
            ∙ ap (λ (b : Ballot). b.vote) start;
      }

module _ ⦃clk : Clock⦄ where
  current-ballot :
      (rv : RequestVote) (s : Node)
      → ballot (if ltb s.current_term rv.term then become_follower rv.term none s else s)
        ≡ opened rv s
  current-ballot rv s = elim (Bool-cases (ltb s.current_term rv.term)) [
    | inl newer ↦
        let later : rv.term ≡ max s.current_term rv.term = ground arith in
        rw newer (
          become_follower-ballot rv.term s (ground arith)
          ∙ ap (λ k. record (ballot s) { term = k; vote = none }) later)
    | inr old ↦
        let same : s.current_term ≡ max s.current_term rv.term = ground arith in
        rw old (ap (λ k. record (ballot s) { term = k }) same)
  ]

  -- Without the bug flag of the configuration, a request for a vote is answered by one message, the
  -- only one that is sent. It carries the node's term, which is now the higher of the two, and grants
  -- the vote exactly where the candidate's term is not behind, the vote is free or the candidate's
  -- own, or the term is new, and the candidate's log is not behind. Where it grants the vote, the vote
  -- stands in the state and on the disk. Where it refuses, the vote is as it was, or free if the
  -- term is new.
  pub handle_request_vote_lem :
      (from : NodeId) (rv : RequestVote) (s : Node)
      → s.cfg.bug_skip_vote_uptodate ≡ false
      → IsAnswered from rv s (handle_request_vote from rv s)
  unfolding handle_request_vote
  handle_request_vote_lem from rv s flag =
      let start = current-ballot rv s in
      answered rv s (if ltb s.current_term rv.term then become_follower rv.term none s else s) start
        from (ap (λ (b : Ballot). b.cfg.bug_skip_vote_uptodate) start ∙ flag)
