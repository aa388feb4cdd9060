-- ===== src/Workload.antt =====
-- harness/workload.cpp: clients that issue random operations, one at a time each, and record them.
-- The methods work on the simulator, the network and the history beside the workload: a Harness.
pub mod Draws
pub mod Ledger
pub mod Loop
pub mod Runs
mod Tests
use sim_kv.Prelude.{
  ℕ, zero, suc, ◌+◌, ◌-◌, ◌*◌, ◌/◌, ◌%◌, ◌^◌, List, [], ◌∷◌, ◌++◌, Bool, true, false, not, ◌&&◌,
  Option, none, some, ltb, leb, ◌==◌, if◌then◌else◌, add64, sub64, codes, length, get_elem?,
  replicate,
}
use sim_kv.Workload.Draws.{WorkloadConfig, Choice, choose}
use sim_kv.Result.{Result, err, ok}
use sim_kv.Types.{Bytes, Command, cmd_put, cmd_get, cmd_cas}
use sim_kv.Rpc.{ClientRequest, ClientReply}
use sim_kv.Rpc.Client.{encode_client_request, decode_client_reply}
use sim_kv.Prng.{Prng, Doubles, range, unit, set}
use sim_kv.Simulator.{Simulator, schedule, cancel}
use sim_kv.Network.{Network, Message, set_handler, send}
use sim_kv.History.{
  OpKind, op_put, op_get, op_cas, HistoryEntry, History, record_invoke, record_return,
}

abbrev pub client_id_base : ℕ
client_id_base = 100

abbrev pub op_timeout : ℕ
op_timeout = 2000000

pub record ClientState : Type 0 where
  pub believed_leader : ℕ
  pub next_request_id : ℕ
  pub waiting : Bool
  pub history_handle : ℕ
  pub sent_at : ℕ
  pub timeout_id : ℕ

pub record Workload (D : Type 0) : Type 0 where
  pub cfg : WorkloadConfig D
  pub nodes : List ℕ
  pub clients : List ClientState
  pub ops_issued : ℕ
  pub ops_completed : ℕ
  pub pending : ℕ

pub record Harness (D H A : Type 0) : Type 0 where
  pub workload : Workload D
  pub history : History
  pub sim : Simulator A
  pub net : Network D H

-- the first node that is not the believed leader
unfoldable pub rotate : ℕ → List ℕ → ℕ
rotate leader [] = leader
rotate leader (n ∷ ns) = let rest = rotate leader ns in if n == leader then rest else n

abbrev pub first_node : List ℕ → ℕ
first_node [] = 0
first_node (n ∷ ns) = n

-- the constructor
unfoldable pub created : {D : Type 0} → WorkloadConfig D → List ℕ → Workload D
created cfg nodes = record {
  cfg = cfg;
  nodes = nodes;
  clients = replicate cfg.num_clients (record {
    believed_leader = first_node nodes;
    next_request_id = 0;
    waiting = false;
    history_handle = 0;
    sent_at = 0;
    timeout_id = 0;
  });
  ops_issued = 0;
  ops_completed = 0;
  pending = 0;
}

unfoldable pub done : {D : Type 0} → Workload D → Bool
done w = leb w.cfg.total_ops w.ops_issued && w.pending == 0

-- the response that the history gets for a reply with a result
abbrev pub response_of : Option HistoryEntry → ClientReply → Bytes
response_of none reply = []
response_of (some e) reply = elim e.kind [
  | op_get ↦ reply.result.value
  | op_put ↦ if reply.result.ok then codes "ok" else reply.result.error
  | op_cas ↦ if reply.result.ok then codes "ok" else codes "cas_mismatch"
]

-- the ok flag and the response for a reply
unfoldable pub outcome : ClientReply → ClientState → History → Bool × Bytes
outcome reply cs history =
    if reply.success
    then (reply.result.ok, response_of (get_elem? history cs.history_handle) reply)
    else (false, codes "not_leader")

-- the leader that a client believes in after a reply
unfoldable pub redirect : ClientReply → List ℕ → ℕ → ℕ
redirect reply nodes leader =
    if not (reply.leader_hint == 0)
    then reply.leader_hint
    else if reply.success
    then leader
    else rotate leader nodes

-- Closures of the workload, by client: the issue of an operation, its timeout, the handler of replies.
pub record Closures (H A : Type 0) : Type 0 where
  pub issue : ℕ → A
  pub timeout : ℕ → A
  pub reply : ℕ → H
  pub deliver : H → Message → A

module _ {D H A : Type 0} ⦃doubles : Doubles D⦄ (calls : Closures H A) where
  -- the loop of start
  unfoldable pub start_from : (rounds i : ℕ) → Harness D H A → Harness D H A
  start_from zero i b = b
  start_from (suc rounds) i b = start_from rounds (suc i) (record b {
    net = set_handler ((client_id_base + i) % 2 ^ 32) (calls.reply i) b.net;
    sim = (schedule (b.workload.cfg.think_time * i % 2 ^ 64) (calls.issue i) b.sim).0;
  })

  unfoldable pub start : Harness D H A → Harness D H A
  start b = start_from b.workload.cfg.num_clients 0 b

  -- issue_op from the record of the invocation on
  unfoldable pub invoke : ℕ → ℕ → ClientState → Choice → Harness D H A → Option (Harness D H A)
  invoke fuel ci cs choice b =
      let w = b.workload in
      let req_id = cs.next_request_id in
      let (history, handle) =
        record_invoke (client_id_base + ci) req_id choice.kind choice.key b.sim.clock choice.val
          choice.exp b.history in
      let request : ClientRequest = record {
        client_id = client_id_base + ci;
        request_id = req_id;
        cmd = choice.cmd;
      } in
      elim (send calls.deliver fuel ((client_id_base + ci) % 2 ^ 32) cs.believed_leader
        (encode_client_request request) b.net b.sim) [
          | none ↦ none
          | some sim ↦
              let (sim', id) = schedule op_timeout (calls.timeout ci) sim in
              some (record b {
                workload = record w {
                  ops_issued = add64 w.ops_issued 1;
                  pending = add64 w.pending 1;
                  clients = set w.clients ci (record cs {
                    waiting = true;
                    next_request_id = add64 req_id 1;
                    history_handle = handle;
                    sent_at = b.sim.clock;
                    timeout_id = id;
                  });
                };
                history = history;
                sim = sim';
              })
        ]

  -- issue_op behind its two early returns
  unfoldable pub issue_for : ℕ → ℕ → ClientState → Harness D H A → Option (Harness D H A)
  issue_for fuel ci cs b = elim (choose fuel b.workload.cfg b.sim.prng) [
    | none ↦ none
    | some (choice, p) ↦ invoke fuel ci cs choice (record b { sim = record b.sim { prng = p } })
  ]

  -- Workload::issue_op. A client that is not there, which the source does not guard against, changes
  -- nothing.
  unfoldable pub issue_op : (fuel ci : ℕ) → Harness D H A → Option (Harness D H A)
  issue_op fuel ci b =
      if leb b.workload.cfg.total_ops b.workload.ops_issued
      then some b
      else elim (get_elem? b.workload.clients ci) [
        | none ↦ some b
        | some cs ↦ if cs.waiting then some b else issue_for fuel ci cs b
      ]

  -- the end of on_reply and of on_timeout: the return is recorded, and the next operation scheduled
  unfoldable pub complete :
      ℕ → ClientState → (leader : ℕ) → Bool → Bytes → Simulator A → Harness D H A → Harness D H A
  complete ci cs leader was_ok response sim b =
      let w = b.workload in
      record b {
        workload = record w {
          clients = set w.clients ci (record cs { waiting = false; believed_leader = leader });
          pending = sub64 w.pending 1;
          ops_completed = add64 w.ops_completed 1;
        };
        history = record_return cs.history_handle b.sim.clock was_ok response b.history;
        sim = (schedule w.cfg.think_time (calls.issue ci) sim).0;
      }

  -- on_reply behind the decoder
  unfoldable pub accept : ℕ → ClientState → ClientReply → Harness D H A → Harness D H A
  accept ci cs reply b =
      if not (reply.request_id == sub64 cs.next_request_id 1)
      then b
      else (let (was_ok, response) = outcome reply cs b.history in
          complete ci cs (redirect reply b.workload.nodes cs.believed_leader) was_ok response
            (cancel cs.timeout_id b.sim) b)

  -- on_reply for a client that waits: `err` where the decoder throws
  unfoldable pub receive : ℕ → ClientState → Bytes → Harness D H A → Result (Harness D H A)
  receive ci cs [] b = ok b
  receive ci cs (tag ∷ rest) b =
      if not (tag == 6) then ok b else elim (decode_client_reply (tag ∷ rest)) [
        | err e ↦ err e
        | ok reply ↦ ok (accept ci cs reply b)
      ]

  unfoldable pub on_reply : ℕ → Message → Harness D H A → Result (Harness D H A)
  on_reply ci message b = elim (get_elem? b.workload.clients ci) [
    | none ↦ ok b
    | some cs ↦ if not cs.waiting then ok b else receive ci cs message.payload b
  ]

  unfoldable pub on_timeout : ℕ → Harness D H A → Harness D H A
  on_timeout ci b = elim (get_elem? b.workload.clients ci) [
    | none ↦ b
    | some cs ↦
        if not cs.waiting
        then b
        else complete ci cs (rotate cs.believed_leader b.workload.nodes) false (codes "timeout")
            b.sim b
  ]
