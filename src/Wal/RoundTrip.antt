-- ===== src/Wal/RoundTrip.antt =====
-- Decoding an encoded command gives the command back.
use sim_kv.Prelude.{◌≡◌, ◌∙◌, ◌++◌, append_assoc, IsU32, length}
use sim_kv.Result.{ok}
use sim_kv.Types.{
  Bytes, Command, cmd_put, cmd_delete, cmd_cas, cmd_get, cmd_add_server, cmd_remove_server,
}
use sim_kv.Codec.RoundTrip.{u8_then, u32_then, str_then}
use sim_kv.Wal.{encode_command, decode_command}

-- The fields fit the uint32_t that the encoding gives a string's size or a node's id.
abbrev pub FitsCommand : Command → Type 0
FitsCommand (cmd_put key value) = IsU32 (length key) × IsU32 (length value)
FitsCommand (cmd_delete key) = IsU32 (length key)
FitsCommand (cmd_cas key expected value) =
    IsU32 (length key) × IsU32 (length expected) × IsU32 (length value)
FitsCommand (cmd_get key) = IsU32 (length key)
FitsCommand (cmd_add_server id) = IsU32 id
FitsCommand (cmd_remove_server id) = IsU32 id

-- Decoding what was encoded, with any bytes behind it, gives the command.
pub decode_command-encode_command :
    (cmd : Command) (rest : Bytes)
    → FitsCommand cmd
    → decode_command (encode_command cmd ++ rest) ≡ ok cmd
unfolding decode_command encode_command
decode_command-encode_command (cmd_put key value) rest h =
    simp (append_assoc, u8_then) (str_then key _ _ h.0 ∙ str_then value rest _ h.1)
decode_command-encode_command (cmd_delete key) rest h =
    simp (append_assoc, u8_then) (str_then key rest _ h)
decode_command-encode_command (cmd_cas key expected value) rest h =
    simp (append_assoc, u8_then)
      (str_then key _ _ h.0 ∙ str_then expected _ _ h.1 ∙ str_then value rest _ h.2)
decode_command-encode_command (cmd_get key) rest h =
    simp (append_assoc, u8_then) (str_then key rest _ h)
decode_command-encode_command (cmd_add_server id) rest h =
    simp (append_assoc, u8_then) (u32_then id rest _ h)
decode_command-encode_command (cmd_remove_server id) rest h =
    simp (append_assoc, u8_then) (u32_then id rest _ h)
