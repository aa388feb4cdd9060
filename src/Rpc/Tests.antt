-- ===== src/Rpc/Tests.antt =====
-- Messages read back.
use sim_kv.Prelude.{◌≡◌, [], ◌∷◌, some, arith}
use sim_kv.Result.{ok}
use sim_kv.Types.{cmd_get}
use sim_kv.Codec.{u8, str}
use sim_kv.Wal.{encode_command}
use sim_kv.Rpc.{AppendEntries}
use sim_kv.Rpc.Dispatch.{
  append_entries, encode_message, decode_message, decode_message-encode_message,
}

abbrev one_entry : AppendEntries
one_entry = record {
  term = 3;
  leader_id = 1;
  prev_log_index = 4;
  prev_log_term = 2;
  leader_commit = 4;
  entries = record { term = 3; index = 5; cmd = cmd_get (7 ∷ []) } ∷ [];
}

decode_message-encode_message_example :
    decode_message (encode_message (append_entries one_entry))
    ≡ some (ok (append_entries one_entry))
unfolding encode_command u8 str
decode_message-encode_message_example =
    decode_message-encode_message (append_entries one_entry) (record {
      term = omega arith;
      leader_id = omega arith;
      prev_log_index = omega arith;
      prev_log_term = omega arith;
      leader_commit = omega arith;
      count = omega arith;
      entries = (
        record { term = omega arith; index = omega arith; cmd = (omega arith, omega arith) },
        tt,
      );
    })
