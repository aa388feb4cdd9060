-- ===== src/KvStore.antt =====
-- storage/kv_store.cpp: the state machine that committed commands are applied to.
pub mod Refinement
pub mod Snapshot
mod Tests
use Prim.Native.Nat.Ordering.{eq}
use sim_kv.Prelude.{Option, none, some, [], Bool, true, false, if◌then◌else◌, codes}
use sim_kv.OrdMap
use sim_kv.OrdMap.{OrdMap, find, erase, bytes_ord, lex}
use sim_kv.Types.{
  Bytes, Command, cmd_put, cmd_delete, cmd_cas, cmd_get, cmd_add_server, cmd_remove_server,
  CmdResult,
}

pub record KvStore : Type 0 where
  pub entries : OrdMap Bytes Bytes

abbrev pub empty : KvStore
empty = record { entries = [] }

-- `operator==` of std::string
unfoldable pub bytes_eq : Bytes → Bytes → Bool
bytes_eq a b = elim (lex a b) [ eq ↦ true | _ ↦ false ]

abbrev pub value_or_empty : Option Bytes → Bytes
value_or_empty none = []
value_or_empty (some v) = v

abbrev pub done : Bytes → CmdResult
done value = record { ok = true; value = value; error = [] }

unfoldable pub get : Bytes → KvStore → Option Bytes
get key s = find key s.entries

-- KvStore::apply: the result and the store after the command
unfoldable pub apply : Command → KvStore → CmdResult × KvStore
apply (cmd_put key value) s = (done [], record s { entries = OrdMap.put key value s.entries })
apply (cmd_delete key) s = (done [], record s { entries = erase key s.entries })
apply (cmd_cas key expected value) s =
    let current = value_or_empty (find key s.entries) in
    if bytes_eq current expected
    then (done value, record s { entries = OrdMap.put key value s.entries })
    else (record { ok = false; value = current; error = codes "cas_mismatch" }, s)
apply (cmd_get key) s = (done (value_or_empty (find key s.entries)), s)
apply (cmd_add_server id) s = (done [], s)
apply (cmd_remove_server id) s = (done [], s)
