-- ===== src/Node/Runs.antt =====
-- The steps of a node: what its network, its clock and its callers may do to it, and a crash with the
-- restart that follows it (raft/node.cpp).
use sim_kv.Prelude.{ℕ, ◌+◌, ◌<◌, ◌^◌, ◌≡◌, sym, ap, subst, Option, none, some, ◌∙◌, arith}
use sim_kv.Result.{Result, ok, err, assertion, underrun, unknown_tag, out_of_range}
use sim_kv.Types.{NodeId, Bytes, Command}
use sim_kv.Log.{last_index}
use sim_kv.Log.Shape.{IsValid}
use sim_kv.Rpc.Dispatch.{Message, decode_message}
use sim_kv.Node.{Node, Clock, Timer, ClientCallback, Outcome, done, threw, ◌>>=◌, left}
use sim_kv.Node.Client.{submit, read_index}
use sim_kv.Node.Dispatch.{on_message, on_timer, caught, handle_decoded}
use sim_kv.Node.Lifecycle.{crash, restart}
use sim_kv.Node.Kept.{IsClosed, Good, Kept, Kept-done, Kept-if}
use sim_kv.Node.Served.{HasRoom, handle-Kept, on_timer-Kept, submit-Kept, read_index-Good}
use sim_kv.Node.Durable.{IsWritten, IsWritten-IsClosed}
use sim_kv.Node.Histories.{IsLater, IsLater-refl, IsLater-IsClosed}
use sim_kv.Node.Down.{CanRecover}
use sim_kv.Node.Recovery.{restart-crash}

-- What is received has room in the index space, if it is a message at all.
abbrev pub HasRoomFor : Option (Result Message) → Node → Type 0
HasRoomFor none s = Unit
HasRoomFor (some (err e)) s = Unit
HasRoomFor (some (ok m)) s = HasRoom m s

pub data Step ⦃clk : Clock⦄ : Node → Node → Type 0 where
  received :
      (from : NodeId) (payload : Bytes) {s t : Node}
      → HasRoomFor (decode_message payload) s
      → on_message from payload s ≡ done t
      → Step s t
  fired :
      (timer : Timer) {s t : Node}
      → s.current_term + 1 < 2 ^ 64
      → on_timer timer s ≡ done t
      → Step s t
  submitted :
      (client_id : ℕ) (cmd : Command) (cb : ClientCallback) {s t : Node}
      → last_index s.log + 1 < 2 ^ 64
      → (submit client_id cmd cb s).0 ≡ done t
      → Step s t
  asked : (key : Bytes) (cb : ℕ) {s t : Node} → (read_index key cb s).0 ≡ t → Step s t
  rebooted : {s t : Node} → CanRecover s → (crash s >>= restart) ≡ done t → Step s t

pub data Reaches ⦃clk : Clock⦄ : Node → Node → Type 0 where
  stays : {s : Node} → Reaches s s
  then_step : {r s t : Node} → Reaches r s → Step s t → Reaches r t

Kept-at : (P : Node → Type 0) {o : Outcome} {t : Node} → Kept P o → o ≡ done t → Good P t
Kept-at P {t} k e = (subst (λ o. Kept P o) e k).holds

caught-Kept : (P : Node → Type 0) (o : Outcome) → Kept P o → Kept P (caught o)
caught-Kept P (done s) k = k
caught-Kept P (threw assertion s) k = k
caught-Kept P (threw underrun s) k = Kept-done k.holds
caught-Kept P (threw unknown_tag s) k = Kept-done k.holds
caught-Kept P (threw out_of_range s) k = Kept-done k.holds

module _ ⦃clk : Clock⦄ (P : Node → Type 0) (c : IsClosed P) where
  decoded-Kept :
      (from : NodeId) (m : Option (Result Message)) (s : Node)
      → HasRoomFor m s
      → Good P s
      → Kept P (handle_decoded from m s)
  decoded-Kept from none s room g = Kept-done g
  decoded-Kept from (some (err e)) s room g = Kept-done g
  decoded-Kept from (some (ok m)) s room g = handle-Kept P c from m s room g

  on_message-Kept :
      (from : NodeId) (payload : Bytes) (s : Node)
      → HasRoomFor (decode_message payload) s
      → Good P s
      → Kept P (on_message from payload s)
  unfolding on_message
  on_message-Kept from payload s fits g =
      Kept-if s.running (λ _. caught-Kept P _ (decoded-Kept from (decode_message payload) s fits g))
        (λ _. Kept-done g)

-- The invariant of a run: the disk is written, the log has its shape, and the state is later than the
-- first.
pub record IsSound (r s : Node) : Type 0 where
  pub written : IsWritten s
  pub shape : IsValid s.log
  pub later : IsLater r s

module _ ⦃clk : Clock⦄ (r : Node) where
  by_closed :
      {o : Outcome} {s t : Node}
      → ((P : Node → Type 0) → IsClosed P → Good P s → Kept P o)
      → o ≡ done t
      → IsSound r s
      → IsSound r t
  by_closed kept e h =
      let w = Kept-at IsWritten (kept IsWritten IsWritten-IsClosed (h.written, h.shape)) e in
      let l = Kept-at (IsLater r) (kept (IsLater r) (IsLater-IsClosed r) (h.later, h.shape)) e in
      record { written = w.0; shape = w.1; later = l.0 }

  Step-IsSound : {s t : Node} → Step s t → IsSound r s → IsSound r t
  Step-IsSound {s} (received from payload fits e) h =
      by_closed (λ P c g. on_message-Kept P c from payload s fits g) e h
  Step-IsSound {s} (fired timer room e) h =
      by_closed (λ P c g. on_timer-Kept P c timer s room g) e h
  Step-IsSound {s} (submitted client_id cmd cb room e) h =
      by_closed (λ P c g. submit-Kept P c client_id cmd cb s room g) e h
  Step-IsSound {s} (asked key cb e) h =
      by_closed (λ P c g. Kept-done (read_index-Good P c key cb s g)) (ap done e) h
  Step-IsSound {s} (rebooted can e) h =
      let (t, (back, (term, (vote, (log, written))))) = restart-crash s h.written can in
      let up : IsSound r t = record {
        written = written;
        shape = rw log h.shape;
        later = ground (arith, h.later.order);
      } in
      subst (IsSound r) (ap left (sym back ∙ e)) up

  -- In every run of a node, through crashes and restarts, from a state whose disk is written and whose
  -- log is consecutive: the disk holds the term, the vote and the log that the node acts on; the log
  -- stays consecutive; the term never falls, and a vote that the first state has stands as long as its
  -- term lasts. A run is made of steps that return, with room in the 64-bit term and index spaces, and
  -- of restarts from a disk that can be read.
  pub Reaches-IsSound : {s : Node} → Reaches r s → IsWritten r → IsValid r.log → IsSound r s
  Reaches-IsSound stays w v = record { written = w; shape = v; later = IsLater-refl r }
  Reaches-IsSound (then_step run step) w v = Step-IsSound step (Reaches-IsSound run w v)

-- Two states of a run in the same term: the vote of the first is the vote of the second, whatever the
-- node received and however often it crashed between them.
pub one_vote :
    ⦃clk : Clock⦄ {r s : Node} (c : NodeId)
    → Reaches r s
    → IsWritten r
    → IsValid r.log
    → s.current_term ≡ r.current_term
    → r.voted_for ≡ some c
    → s.voted_for ≡ some c
one_vote {r = r} c run w v same cast = ground (arith, (Reaches-IsSound r run w v).later.order)
