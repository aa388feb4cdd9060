-- ===== src/Wal/Tests.antt =====
-- Commands on the write-ahead log.
use sim_kv.Prelude.{◌≡◌, List, [], ◌∷◌, ◌++◌, some, arith, take}
use sim_kv.Result.{ok}
use sim_kv.Types.{Command, cmd_put, cmd_cas}
use sim_kv.Codec.{u8, u32, str}
use sim_kv.Wal.{encode_command, decode_command, crc32c, frame, replay}
use sim_kv.Wal.RoundTrip.{decode_command-encode_command}
use sim_kv.Wal.Replay.{Fits, frames, record_of, replay_total, replay_torn, replay_corrupt}

abbrev put_key : Command
put_key = cmd_put (107 ∷ []) (118 ∷ 119 ∷ [])

abbrev cas_key : Command
cas_key = cmd_cas (107 ∷ []) (118 ∷ []) (120 ∷ [])

decode_command-encode_command_example :
    decode_command (encode_command cas_key ++ 9 ∷ []) ≡ ok cas_key
decode_command-encode_command_example =
    decode_command-encode_command cas_key (9 ∷ []) (omega arith, omega arith, omega arith)

replay_total_example : (cmds : List Command) × (replay (1 ∷ 2 ∷ 3 ∷ []) ≡ some cmds)
replay_total_example = replay_total (1 ∷ 2 ∷ 3 ∷ [])

put_key-Fits : Fits put_key
unfolding encode_command u8 str
put_key-Fits = ((omega arith, omega arith), omega arith)

replay_torn_example : replay (frames (put_key ∷ []) ++ take 5 (frame put_key)) ≡ some (put_key ∷ [])
unfolding frame encode_command u32 u8 str
replay_torn_example =
    replay_torn (put_key ∷ []) put_key 5 (put_key-Fits, tt) put_key-Fits (omega arith)

-- A checksum of 0 for a payload of one byte, with a whole record behind it.
replay_corrupt_example :
    replay (frames (put_key ∷ []) ++ (record_of (9 ∷ []) 0 ++ frame put_key)) ≡ some (put_key ∷ [])
unfolding crc32c
replay_corrupt_example =
    replay_corrupt (put_key ∷ []) (9 ∷ []) 0 (frame put_key) (put_key-Fits, tt) (omega arith)
      (omega arith) (ground arith)
