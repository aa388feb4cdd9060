-- ===== src/Rpc/Dispatch.antt =====
-- The switch of RaftNode::on_message (raft/node.cpp): the first byte of a payload chooses the decoder.
use sim_kv.Prelude.{◌≡◌, ap, [], ◌∷◌, Option, none, some, ◌==◌, if◌then◌else◌, append-nil}
use sim_kv.Result.{Result, ok, err}
use sim_kv.Types.{Bytes}
use sim_kv.Codec.{u8}
use sim_kv.Rpc.{
  RequestVote, RequestVoteReply, AppendEntries, AppendEntriesReply, ClientRequest, InstallSnapshot,
  InstallSnapshotReply, ReadIndexRequest, ReadIndexReply,
}
use sim_kv.Rpc.Vote.{
  encode_request_vote, decode_request_vote, FitsRequestVote, decode-encode_request_vote,
  encode_request_vote_reply, decode_request_vote_reply, FitsRequestVoteReply,
  decode-encode_request_vote_reply,
}
use sim_kv.Rpc.Replication.{
  encode_append_entries, decode_append_entries, FitsAppendEntries, decode-encode_append_entries,
  encode_append_entries_reply, decode_append_entries_reply, FitsAppendEntriesReply,
  decode-encode_append_entries_reply, encode_install_snapshot, decode_install_snapshot,
  FitsInstallSnapshot, decode-encode_install_snapshot, encode_install_snapshot_reply,
  decode_install_snapshot_reply, FitsInstallSnapshotReply, decode-encode_install_snapshot_reply,
}
use sim_kv.Rpc.Client.{
  encode_client_request, decode_client_request, FitsClientRequest, decode-encode_client_request,
}
use sim_kv.Rpc.Reads.{
  encode_read_index_request, decode_read_index_request, FitsReadIndexRequest,
  decode-encode_read_index_request, encode_read_index_reply, decode_read_index_reply,
  FitsReadIndexReply, decode-encode_read_index_reply,
}

-- The messages that a node handles.
pub data Message : Type 0 where
  request_vote : RequestVote → Message
  request_vote_reply : RequestVoteReply → Message
  append_entries : AppendEntries → Message
  append_entries_reply : AppendEntriesReply → Message
  client_request : ClientRequest → Message
  install_snapshot : InstallSnapshot → Message
  install_snapshot_reply : InstallSnapshotReply → Message
  read_index_request : ReadIndexRequest → Message
  read_index_reply : ReadIndexReply → Message

abbrev pub encode_message : Message → Bytes
encode_message (request_vote m) = encode_request_vote m
encode_message (request_vote_reply m) = encode_request_vote_reply m
encode_message (append_entries m) = encode_append_entries m
encode_message (append_entries_reply m) = encode_append_entries_reply m
encode_message (client_request m) = encode_client_request m
encode_message (install_snapshot m) = encode_install_snapshot m
encode_message (install_snapshot_reply m) = encode_install_snapshot_reply m
encode_message (read_index_request m) = encode_read_index_request m
encode_message (read_index_reply m) = encode_read_index_reply m

abbrev pub FitsMessage : Message → Type 0
FitsMessage (request_vote m) = FitsRequestVote m
FitsMessage (request_vote_reply m) = FitsRequestVoteReply m
FitsMessage (append_entries m) = FitsAppendEntries m
FitsMessage (append_entries_reply m) = FitsAppendEntriesReply m
FitsMessage (client_request m) = FitsClientRequest m
FitsMessage (install_snapshot m) = FitsInstallSnapshot m
FitsMessage (install_snapshot_reply m) = FitsInstallSnapshotReply m
FitsMessage (read_index_request m) = FitsReadIndexRequest m
FitsMessage (read_index_reply m) = FitsReadIndexReply m

abbrev pub map_result {ℓ κ} : {A : Type ℓ} {B : Type κ} → (A → B) → Result A → Result B
map_result f (ok a) = ok (f a)
map_result f (err e) = err e

-- `none` where the node ignores the payload: it is empty, or its tag has no handler.
unfoldable pub decode_message : Bytes → Option (Result Message)
decode_message [] = none
decode_message (tag ∷ rest) =
    let bs = tag ∷ rest in
    if tag == 1
    then some (map_result request_vote (decode_request_vote bs))
    else if tag == 2
    then some (map_result request_vote_reply (decode_request_vote_reply bs))
    else if tag == 3
    then some (map_result append_entries (decode_append_entries bs))
    else if tag == 4
    then some (map_result append_entries_reply (decode_append_entries_reply bs))
    else if tag == 5
    then some (map_result client_request (decode_client_request bs))
    else if tag == 7
    then some (map_result install_snapshot (decode_install_snapshot bs))
    else if tag == 8
    then some (map_result install_snapshot_reply (decode_install_snapshot_reply bs))
    else if tag == 9
    then some (map_result read_index_request (decode_read_index_request bs))
    else if tag == 10
    then some (map_result read_index_reply (decode_read_index_reply bs))
    else none

wrap {ℓ} :
    {A : Type ℓ} (f : A → Message) (a : A) (r : Result A)
    → r ≡ ok a
    → ◌≡◌ {A = Option (Result Message)} (some (map_result f r)) (some (ok (f a)))
wrap f a r e = ap (λ x. some (map_result f x)) e

-- Every message that a node handles is dispatched to its decoder and read back whole: the kind and
-- all fields, AppendEntries' log entries and a client's command included.
pub decode_message-encode_message :
    (m : Message) → FitsMessage m → decode_message (encode_message m) ≡ some (ok m)
unfolding decode_message u8 encode_request_vote encode_request_vote_reply encode_append_entries
    encode_append_entries_reply encode_client_request encode_install_snapshot
    encode_install_snapshot_reply encode_read_index_request encode_read_index_reply
decode_message-encode_message (request_vote m) h =
    wrap request_vote m _ (rw append-nil at (decode-encode_request_vote m [] h))
decode_message-encode_message (request_vote_reply m) h =
    wrap request_vote_reply m _ (rw append-nil at (decode-encode_request_vote_reply m [] h))
decode_message-encode_message (append_entries m) h =
    wrap append_entries m _ (rw append-nil at (decode-encode_append_entries m [] h))
decode_message-encode_message (append_entries_reply m) h =
    wrap append_entries_reply m _ (rw append-nil at (decode-encode_append_entries_reply m [] h))
decode_message-encode_message (client_request m) h =
    wrap client_request m _ (rw append-nil at (decode-encode_client_request m [] h))
decode_message-encode_message (install_snapshot m) h =
    wrap install_snapshot m _ (rw append-nil at (decode-encode_install_snapshot m [] h))
decode_message-encode_message (install_snapshot_reply m) h =
    wrap install_snapshot_reply m _ (rw append-nil at (decode-encode_install_snapshot_reply m [] h))
decode_message-encode_message (read_index_request m) h =
    wrap read_index_request m _ (rw append-nil at (decode-encode_read_index_request m [] h))
decode_message-encode_message (read_index_reply m) h =
    wrap read_index_reply m _ (rw append-nil at (decode-encode_read_index_reply m [] h))
