-- ===== src/Wal.antt =====
-- storage/wal.cpp: commands as bytes, the checksum, and the framed records of the write-ahead log.
pub mod RoundTrip
pub mod Replay
mod Tests
use Prim.Native.Nat.{bit_and, bit_xor}
use sim_kv.Prelude.{
  ℕ, zero, suc, ◌+◌, ◌-◌, ◌/◌, ◌%◌, ◌^◌, List, [], ◌∷◌, ◌++◌, Option, none, some, Bool, ltb, ◌==◌,
  if◌then◌else◌, length, take, drop,
}
use sim_kv.Result.{Result, ok, err, unknown_tag, ◌>>=◌}
use sim_kv.Types.{
  Bytes, NodeId, Command, cmd_put, cmd_delete, cmd_cas, cmd_get, cmd_add_server, cmd_remove_server,
}
use sim_kv.Codec.{u8, u32, str, get_u8, get_u32, get_str}

-- one round of the inner loop of crc32c; `-(crc & 1)` is taken modulo 2^32
crc_bit : ℕ → ℕ
crc_bit crc = bit_xor (crc / 2) (bit_and 0x82F63B78 ((2 ^ 32 - bit_and crc 1) % 2 ^ 32))

crc_bits : ℕ → ℕ → ℕ
unfolding crc_bit
crc_bits zero crc = crc
crc_bits (suc rounds) crc = crc_bits rounds (crc_bit crc)

crc_loop : ℕ → Bytes → ℕ
unfolding crc_bits
crc_loop crc [] = crc
crc_loop crc (b ∷ bs) = crc_loop (crc_bits 8 (bit_xor crc b)) bs

-- crc32c, a uint32_t
unfoldable pub crc32c : Bytes → ℕ
unfolding crc_loop
crc32c bs = bit_xor (crc_loop 0xFFFFFFFF bs) 0xFFFFFFFF % 2 ^ 32

-- Wal::encode_command
unfoldable pub encode_command : Command → Bytes
encode_command (cmd_put key value) = u8 1 ++ (str key ++ str value)
encode_command (cmd_delete key) = u8 2 ++ str key
encode_command (cmd_cas key expected value) = u8 3 ++ (str key ++ (str expected ++ str value))
encode_command (cmd_get key) = u8 4 ++ str key
encode_command (cmd_add_server id) = u8 5 ++ u32 id
encode_command (cmd_remove_server id) = u8 6 ++ u32 id

decode_put : Bytes → Result Command
decode_put bs = do (key, bs) ← get_str bs; (value, bs) ← get_str bs; ok (cmd_put key value)

decode_delete : Bytes → Result Command
decode_delete bs = do (key, bs) ← get_str bs; ok (cmd_delete key)

decode_cas : Bytes → Result Command
decode_cas bs = do
  (key, bs) ← get_str bs
  (expected, bs) ← get_str bs
  (value, bs) ← get_str bs
  ok (cmd_cas key expected value)

decode_get : Bytes → Result Command
decode_get bs = do (key, bs) ← get_str bs; ok (cmd_get key)

decode_server : (NodeId → Command) → Bytes → Result Command
decode_server make bs = do (id, bs) ← get_u32 bs; ok (make id)

-- the `switch` over the tag in Wal::decode_command
decode_tagged : ℕ → Bytes → Result Command
unfolding decode_put decode_delete decode_cas decode_get decode_server
decode_tagged tag bs =
    if tag == 1
    then decode_put bs
    else if tag == 2
    then decode_delete bs
    else if tag == 3
    then decode_cas bs
    else if tag == 4
    then decode_get bs
    else if tag == 5
    then decode_server cmd_add_server bs
    else if tag == 6
    then decode_server cmd_remove_server bs
    else err unknown_tag

-- Wal::decode_command; bytes behind the command are not looked at
unfoldable pub decode_command : Bytes → Result Command
unfolding decode_tagged
decode_command bs = do (tag, bs) ← get_u8 bs; decode_tagged tag bs

-- Wal::append, as the bytes that it appends to the store: length, payload, checksum
unfoldable pub frame : Command → Bytes
frame cmd =
    let payload = encode_command cmd in u32 (length payload) ++ (payload ++ u32 (crc32c payload))

-- The body of the `while` in Wal::replay: the command read and the bytes behind its record, or
-- `none` where the source breaks out of the loop. The `try` around decode_command:
unfoldable pub decoded : Result Command → Bytes → Option (Command × Bytes)
decoded (err _) rest = none
decoded (ok cmd) rest = some (cmd, rest)

-- from the stored checksum on
unfoldable pub check_crc : Bytes → Result (ℕ × Bytes) → Option (Command × Bytes)
unfolding decoded
check_crc payload (err _) = none
check_crc payload (ok (stored_crc, rest)) =
    if crc32c payload == stored_crc then decoded (decode_command payload) rest else none

-- from the payload on
unfoldable pub read_payload : Result (ℕ × Bytes) → Option (Command × Bytes)
read_payload (err _) = none
read_payload (ok (len, q)) =
    if ltb (length q) (len + 4) then none else check_crc (take len q) (get_u32 (drop len q))

unfoldable pub read_record : Bytes → Option (Command × Bytes)
read_record p = read_payload (get_u32 p)

-- The loop of Wal::replay on fuel; `none` means that the fuel ran out.
unfoldable pub replay_loop : ℕ → Bytes → Option (List Command)
replay_loop zero p = none
replay_loop (suc fuel) p = elim (read_record p) [
  | none ↦ some []
  | some (cmd, rest) ↦ (elim (replay_loop fuel rest) [
    | none ↦ none
    | some cmds ↦ some (cmd ∷ cmds)
  ])
]

-- Wal::replay on the durable bytes
unfoldable pub replay : Bytes → Option (List Command)
unfolding replay_loop
replay durable = replay_loop (suc (length durable)) durable
