-- ===== src/Node/Timers.antt =====
-- Timer scheduling (raft/node.cpp).
use sim_kv.Prelude.{◌*◌, ◌%◌, ◌^◌, true, false, if◌then◌else◌, add64}
use sim_kv.Node.{Node, Clock, emit, draw, schedule, cancel, election, heartbeat}

module _ ⦃clk : Clock⦄ where
  unfoldable pub schedule_election_timeout : Node → Node
  schedule_election_timeout s =
      let gen = add64 s.election_generation 1 in
      let lo = s.cfg.election_timeout_lo in
      let hi = add64 (2 * lo % 2 ^ 64) 1 in
      let drawn = emit (draw lo hi) s in
      if s.election_scheduled
      then s
      else record (emit (schedule (clk.random_range s.effects lo hi) (election gen)) drawn) {
        election_generation = gen;
        election_scheduled = true;
        election_timeout_id = clk.event_id drawn.effects;
      }

  unfoldable pub schedule_heartbeat : Node → Node
  schedule_heartbeat s =
      if s.heartbeat_scheduled
      then s
      else record (emit (schedule s.cfg.heartbeat_interval heartbeat) s) {
        heartbeat_scheduled = true;
        heartbeat_id = clk.event_id s.effects;
      }

unfoldable pub cancel_election_timeout : Node → Node
cancel_election_timeout s =
    if s.election_scheduled
    then record (emit (cancel s.election_timeout_id) s) {
      election_scheduled = false;
      election_generation = add64 s.election_generation 1;
    }
    else s

unfoldable pub cancel_heartbeat : Node → Node
cancel_heartbeat s =
    if s.heartbeat_scheduled
    then record (emit (cancel s.heartbeat_id) s) { heartbeat_scheduled = false }
    else s
