-- ===== src/Rpc/Client.antt =====
-- ClientRequest and ClientReply as bytes (raft/rpc.cpp).
use sim_kv.Prelude.{◌≡◌, refl, ◌∙◌, [], ◌++◌, length, append_assoc, append-nil, IsU32, IsU64}
use sim_kv.Result.{Result, ok, ◌>>=◌}
use sim_kv.Types.{Bytes}
use sim_kv.Codec.{u8, u32, u64, boolean, str, get_u8, get_u32, get_u64, get_boolean, get_str, slice}
use sim_kv.Codec.RoundTrip.{u8_then, u32_then, u64_then, boolean_then, str_then, slice_then}
use sim_kv.Wal.{encode_command, decode_command}
use sim_kv.Wal.RoundTrip.{decode_command-encode_command}
use sim_kv.Wal.Replay.{Fits}
use sim_kv.Rpc.{ClientRequest, ClientReply}

unfoldable pub encode_client_request : ClientRequest → Bytes
encode_client_request m =
    let cmd = encode_command m.cmd in
    u8 5 ++ (u64 m.client_id ++ (u64 m.request_id ++ (u32 (length cmd) ++ cmd)))

unfoldable pub decode_client_request : Bytes → Result ClientRequest
decode_client_request bs = do
  (tag, bs) ← get_u8 bs
  (client_id, bs) ← get_u64 bs
  (request_id, bs) ← get_u64 bs
  (len, bs) ← get_u32 bs
  (cmd_buf, bs) ← slice len bs
  cmd ← decode_command cmd_buf
  ok (record { client_id = client_id; request_id = request_id; cmd = cmd })

unfoldable pub encode_client_reply : ClientReply → Bytes
encode_client_reply m =
    u8 6
    ++ (u64 m.client_id
        ++ (u64 m.request_id
            ++ (boolean m.success
                ++ (boolean m.result.ok
                    ++ (str m.result.value ++ (str m.result.error ++ u32 m.leader_hint))))))

unfoldable pub decode_client_reply : Bytes → Result ClientReply
decode_client_reply bs = do
  (tag, bs) ← get_u8 bs
  (client_id, bs) ← get_u64 bs
  (request_id, bs) ← get_u64 bs
  (success, bs) ← get_boolean bs
  (ok', bs) ← get_boolean bs
  (value, bs) ← get_str bs
  (error, bs) ← get_str bs
  (leader_hint, bs) ← get_u32 bs
  ok (record {
    client_id = client_id;
    request_id = request_id;
    success = success;
    result = record { ok = ok'; value = value; error = error };
    leader_hint = leader_hint;
  })

-- The fields fit their encoded width.
pub record FitsClientRequest (m : ClientRequest) : Type 0 where
  pub client_id : IsU64 m.client_id
  pub request_id : IsU64 m.request_id
  pub cmd : Fits m.cmd

-- A ClientRequest is read back, whatever follows it, if its fields fit.
pub decode-encode_client_request :
    (m : ClientRequest) (rest : Bytes)
    → FitsClientRequest m
    → decode_client_request (encode_client_request m ++ rest) ≡ ok m
unfolding decode_client_request encode_client_request
decode-encode_client_request m rest h = simp append_assoc (
    u8_then _ _ _
    ∙ u64_then m.client_id _ _ h.client_id
    ∙ u64_then m.request_id _ _ h.request_id
    ∙ u32_then (length (encode_command m.cmd)) _ _ h.cmd.1
    ∙ slice_then _ (encode_command m.cmd) rest _ refl
    ∙ rw (rw append-nil at (decode_command-encode_command m.cmd [] h.cmd.0)))

-- The fields fit their encoded width.
pub record FitsClientReply (m : ClientReply) : Type 0 where
  pub client_id : IsU64 m.client_id
  pub request_id : IsU64 m.request_id
  pub value : IsU32 (length m.result.value)
  pub error : IsU32 (length m.result.error)
  pub leader_hint : IsU32 m.leader_hint

-- A ClientReply is read back, whatever follows it, if its fields fit.
pub decode-encode_client_reply :
    (m : ClientReply) (rest : Bytes)
    → FitsClientReply m
    → decode_client_reply (encode_client_reply m ++ rest) ≡ ok m
unfolding decode_client_reply encode_client_reply
decode-encode_client_reply m rest h = simp append_assoc (
    u8_then _ _ _
    ∙ u64_then m.client_id _ _ h.client_id
    ∙ u64_then m.request_id _ _ h.request_id
    ∙ boolean_then m.success _ _
    ∙ boolean_then m.result.ok _ _
    ∙ str_then m.result.value _ _ h.value
    ∙ str_then m.result.error _ _ h.error
    ∙ u32_then m.leader_hint _ _ h.leader_hint)
