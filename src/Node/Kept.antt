-- ===== src/Node/Kept.antt =====
-- Predicates that every handler keeps: it is enough that they survive what the handlers do to the
-- term, the vote and the log.
use sim_kv.Prelude.{◌+◌, ◌<◌, ◌^◌, ◌≡◌, refl, Bool, true, false, none, some, add64, if◌then◌else◌}
use sim_kv.Result.{Result, ok, err, Error, assertion, underrun, unknown_tag, out_of_range}
use sim_kv.Types.{Term, NodeId}
use sim_kv.Log.{RaftLog}
use sim_kv.Log.Shape.{IsValid}
use sim_kv.Node.{Node, Outcome, done, threw, ◌>>=◌, with_value}
use sim_kv.Node.Persistence.{persist}
use sim_kv.Node.Election.{can_vote}
use sim_kv.Node.Frame.{SameHard}

pub record IsClosed (P : Node → Type 0) : Type 0 where
  pub frame : (s t : Node) → SameHard s t → P s → P t
  pub adopted :
      (term : Term) (s : Node)
      → s.current_term < term
      → P s
      → P (persist (record s { current_term = term; voted_for = none }))
  pub voted :
      (c : NodeId) (s : Node)
      → can_vote s.voted_for c ≡ true
      → P s
      → P (persist (record s { voted_for = some c }))
  pub stood :
      (c : NodeId) (s : Node)
      → s.current_term + 1 < 2 ^ 64
      → P s
      → P (persist (record s { current_term = add64 s.current_term 1; voted_for = some c }))
  pub relogged : (l : RaftLog) (s : Node) → P s → P (persist (record s { log = l }))

-- The predicate, over a log of good shape.
abbrev pub Good : (Node → Type 0) → Node → Type 0
Good P s = P s × IsValid s.log

abbrev Holds : (Node → Type 0) → Outcome → Type 0
Holds P (done s) = Good P s
Holds P (threw assertion s) = Unit
Holds P (threw underrun s) = Good P s
Holds P (threw unknown_tag s) = Good P s
Holds P (threw out_of_range s) = Good P s

-- It holds of the state that a method leaves, unless an assert failed and ended the process.
pub record Kept (P : Node → Type 0) (o : Outcome) : Type 0 where
  pub holds : Holds P o

module _ {P : Node → Type 0} where
  pub Kept-done : {s : Node} → Good P s → Kept P (done s)
  Kept-done g = record { holds = g }

  pub Kept-threw : (e : Error) {s : Node} → Good P s → Kept P (threw e s)
  Kept-threw assertion g = record { holds = tt }
  Kept-threw underrun g = record { holds = g }
  Kept-threw unknown_tag g = record { holds = g }
  Kept-threw out_of_range g = record { holds = g }

  bind-Holds :
      (o : Outcome) (f : Node → Outcome)
      → Holds P o
      → ((s : Node) → Good P s → Kept P (f s))
      → Kept P (o >>= f)
  bind-Holds (done s) f k next = next s k
  bind-Holds (threw assertion s) f k next = record { holds = tt }
  bind-Holds (threw underrun s) f k next = record { holds = k }
  bind-Holds (threw unknown_tag s) f k next = record { holds = k }
  bind-Holds (threw out_of_range s) f k next = record { holds = k }

  pub Kept-bind :
      {o : Outcome} {f : Node → Outcome}
      → Kept P o
      → ((s : Node) → Good P s → Kept P (f s))
      → Kept P (o >>= f)
  Kept-bind {o} {f} k next = bind-Holds o f k.holds next

  value_holds {ℓ} :
      {A : Type ℓ} (r : Result A) (s : Node) (f : A → Outcome)
      → Good P s
      → ((a : A) → r ≡ ok a → Kept P (f a))
      → Kept P (with_value r s f)
  unfolding with_value
  value_holds (ok a) s f g next = next a refl
  value_holds (err e) s f g next = Kept-threw e g

  pub Kept-with_value {ℓ} :
      {A : Type ℓ} {r : Result A} (s : Node) {f : A → Outcome}
      → Good P s
      → ((a : A) → r ≡ ok a → Kept P (f a))
      → Kept P (with_value r s f)
  Kept-with_value {r} s {f} g next = value_holds r s f g next

  if_holds :
      (b : Bool) (m n : Outcome)
      → (b ≡ true → Kept P m)
      → (b ≡ false → Kept P n)
      → Kept P (if b then m else n)
  if_holds true m n km kn = km refl
  if_holds false m n km kn = kn refl

  pub Kept-if :
      (b : Bool) {m n : Outcome}
      → (b ≡ true → Kept P m)
      → (b ≡ false → Kept P n)
      → Kept P (if b then m else n)
  Kept-if b {m} {n} km kn = if_holds b m n km kn
