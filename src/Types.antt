-- ===== src/Types.antt =====
-- The types of raft/types.hpp. A `std::string` is the list of its bytes; `Term` and `Index` are
-- uint64_t, and `NodeId` (sim/network.hpp) is uint32_t.
use sim_kv.Prelude.{ℕ, Bool, List}

abbrev pub Term : Type 0
Term = ℕ

abbrev pub Index : Type 0
Index = ℕ

abbrev pub NodeId : Type 0
NodeId = ℕ

abbrev pub Bytes : Type 0
Bytes = List ℕ

-- The variant `Command`, with the six structs as its constructors.
pub data Command : Type 0 where
  cmd_put : (key value : Bytes) → Command
  cmd_delete : (key : Bytes) → Command
  cmd_cas : (key expected value : Bytes) → Command
  cmd_get : (key : Bytes) → Command
  cmd_add_server : (id : NodeId) → Command
  cmd_remove_server : (id : NodeId) → Command

pub record CmdResult : Type 0 where
  pub ok : Bool
  pub value : Bytes
  pub error : Bytes

pub data Role : Type 0 where
  follower candidate leader : Role

pub record LogEntry : Type 0 where
  pub term : Term
  pub index : Index
  pub cmd : Command
