-- ===== src/Wal/Replay.antt =====
-- What Wal::replay recovers: every whole record, and nothing of a torn or corrupted one.
use sim_kv.Prelude.{
  ℕ, zero, suc, ◌+◌, ◌^◌, ◌<◌, ◌≡◌, ◌≢◌, refl, ap, ◌∙◌, List, [], ◌∷◌, ◌++◌, append_assoc,
  append-nil, IsU32, length, length-append, length-take, length-drop, take, drop, none, some, arith,
  take-length-append, drop-length-append, ◌==◌, All, Option-cases, inl, inr, if◌then◌else◌,
}
use sim_kv.Result.{Result, ok, err}
use sim_kv.Types.{Bytes, Command}
use sim_kv.Codec.{u32, get_u32}
use sim_kv.Codec.RoundTrip.{get_u32-u32, length-u32}
use sim_kv.Wal.{
  encode_command, decode_command, crc32c, frame, decoded, check_crc, read_payload, read_record,
  replay_loop, replay,
}
use sim_kv.Wal.RoundTrip.{FitsCommand, decode_command-encode_command}

-- A command that Wal::append can frame: its payload's size fits the length field.
abbrev pub Fits : Command → Type 0
Fits cmd = FitsCommand cmd × IsU32 (length (encode_command cmd))

crc32c-lt : (bs : Bytes) → crc32c bs < 2 ^ 32
unfolding crc32c
crc32c-lt bs = omega arith

read_u32 : (v : ℕ) (rest : Bytes) → v < 2 ^ 32 → get_u32 (u32 v ++ rest) ≡ ok (v, rest)
read_u32 v rest h = get_u32-u32 v rest ∙ ap (λ (n : ℕ). ok (n, rest)) (omega arith)

abbrev pub record_of : Bytes → ℕ → Bytes
record_of payload crc = u32 (length payload) ++ (payload ++ u32 crc)

-- What the loop's body makes of a complete record with payload `payload` and checksum `crc`.
read_record-record_of :
    (payload : Bytes) (crc : ℕ) (rest : Bytes)
    → length payload < 2 ^ 32
    → crc < 2 ^ 32
    → read_record (record_of payload crc ++ rest)
      ≡ (if crc32c payload == crc then decoded (decode_command payload) rest else none)
unfolding read_record
read_record-record_of payload crc rest hl hc =
    simp (append_assoc, read_u32 (length payload) _ hl)
      (unfold read_payload in
        rw (take-length-append, drop-length-append, read_u32 crc rest hc)
          (unfold check_crc in
            ground (
              arith,
              length-append payload (u32 crc ++ rest),
              length-append (u32 crc) rest,
              length-u32 crc,
            )))

-- A record that Wal::append wrote is read back, whatever follows it.
read_record-frame :
    (cmd : Command) (rest : Bytes) → Fits cmd → read_record (frame cmd ++ rest) ≡ some (cmd, rest)
unfolding frame
read_record-frame cmd rest h =
    read_record-record_of (encode_command cmd) _ rest h.1 (crc32c-lt _)
    ∙ (unfold decoded in
        ground (arith, rw append-nil at (decode_command-encode_command cmd [] h.0)))

-- A record with another checksum than its payload's is refused.
read_record_corrupt :
    (payload : Bytes) (crc : ℕ) (rest : Bytes)
    → length payload < 2 ^ 32
    → crc < 2 ^ 32
    → crc32c payload ≢ crc
    → read_record (record_of payload crc ++ rest) ≡ none
read_record_corrupt payload crc rest hl hc ne =
    read_record-record_of payload crc rest hl hc ∙ ground arith

-- A proper prefix of a record is refused.
torn_body :
    (len n : ℕ) (body : Bytes)
    → len < 2 ^ 32
    → n < len + 4
    → read_record (u32 len ++ take n body) ≡ none
unfolding read_record
torn_body len n body hl hn =
    rw (read_u32 len (take n body) hl) (unfold read_payload in ground (arith, length-take n body))

torn :
    (cmd : Command) (n : ℕ)
    → Fits cmd
    → n < length (frame cmd)
    → read_record (take n (frame cmd)) ≡ none
unfolding read_record read_payload get_u32 frame u32
torn cmd zero h hn = refl
torn cmd (suc zero) h hn = refl
torn cmd (suc (suc zero)) h hn = refl
torn cmd (suc (suc (suc zero))) h hn = refl
torn cmd (suc (suc (suc (suc n)))) h hn =
    let payload = encode_command cmd in
    let whole = length-append payload (u32 (crc32c payload)) in
    torn_body (length payload) n (payload ++ u32 (crc32c payload)) h.1 (omega (arith, whole))

get_u32_takes : (p : Bytes) {v : ℕ} {q : Bytes} → get_u32 p ≡ ok (v, q) → length p ≡ length q + 4
unfolding get_u32
get_u32_takes [] e = cc
get_u32_takes (a ∷ []) e = cc
get_u32_takes (a ∷ b ∷ []) e = cc
get_u32_takes (a ∷ b ∷ c ∷ []) e = cc
get_u32_takes (a ∷ b ∷ c ∷ d ∷ q') e = ground arith

check_crc_rest :
    (payload : Bytes) (r : Result (ℕ × Bytes)) {cmd : Command} {rest : Bytes}
    → check_crc payload r ≡ some (cmd, rest)
    → (v : ℕ) × (r ≡ ok (v, rest))
unfolding check_crc
check_crc_rest payload (err _) e = cc
check_crc_rest payload (ok (v, q)) e = (v, ground arith)

read_payload_shorter :
    (p : Bytes) (r : Result (ℕ × Bytes)) {cmd : Command} {rest : Bytes}
    → get_u32 p ≡ r
    → read_payload r ≡ some (cmd, rest)
    → length rest < length p
unfolding read_payload
read_payload_shorter p (err _) g e = cc
read_payload_shorter p (ok (len, q)) {cmd} {rest} g e =
    let tail =
      check_crc_rest (take len q) (get_u32 (drop len q)) {cmd = cmd} {rest = rest} (ground arith) in
    omega (arith, get_u32_takes p g, get_u32_takes (drop len q) tail.1, length-drop len q)

-- Each record that is read takes bytes off the input.
read_record_shorter :
    (p : Bytes) {cmd : Command} {rest : Bytes}
    → read_record p ≡ some (cmd, rest)
    → length rest < length p
unfolding read_record
read_record_shorter p e = read_payload_shorter p (get_u32 p) refl e

-- The records that Wal::append writes for `cmds`.
abbrev pub frames : List Command → Bytes
frames [] = []
frames (cmd ∷ cmds) = frame cmd ++ frames cmds

-- With more fuel than there are bytes the loop ends by one of its `break`s.
replay_loop_total :
    (fuel : ℕ) (p : Bytes)
    → length p < fuel
    → (cmds : List Command) × (replay_loop fuel p ≡ some cmds)
unfolding replay_loop
replay_loop_total zero p h = absurd (omega arith)
replay_loop_total (suc fuel) p h = elim (Option-cases (read_record p)) [
  | inl stop ↦ ([], rw (stop, replay_loop))
  | inr ((cmd, rest), more) ↦
      (let (cmds, e) = replay_loop_total fuel rest (omega (arith, read_record_shorter p more)) in
        (cmd ∷ cmds, rw (more, replay_loop, e)))
]

-- Enough fuel: replay ends on every input.
pub replay_total : (p : Bytes) → (cmds : List Command) × (replay p ≡ some cmds)
unfolding replay
replay_total p = replay_loop_total (suc (length p)) p (omega arith)

frame_nonempty : (cmd : Command) → 0 < length (frame cmd)
unfolding frame u32
frame_nonempty cmd = omega arith

replay_loop-frames :
    (fuel : ℕ) (cmds : List Command) (tail : Bytes)
    → All Fits cmds
    → read_record tail ≡ none
    → length (frames cmds ++ tail) < fuel
    → replay_loop fuel (frames cmds ++ tail) ≡ some cmds
unfolding replay_loop
replay_loop-frames zero cmds tail fits stop h = absurd (omega arith)
replay_loop-frames (suc fuel) [] tail fits stop h = rw (stop, replay_loop)
replay_loop-frames (suc fuel) (cmd ∷ cmds) tail fits stop h =
    let behind = frames cmds ++ tail in
    let size : length (frames (cmd ∷ cmds) ++ tail) ≡ length (frame cmd) + length behind =
      ap length (append_assoc (frame cmd) (frames cmds) tail) ∙ length-append (frame cmd) behind in
    rw
      (
        append_assoc (frame cmd) (frames cmds) tail,
        read_record-frame cmd behind fits.0,
        replay_loop,
      )
      (rw (replay_loop-frames fuel cmds tail fits.1 stop (omega (arith, frame_nonempty cmd, size))))

-- Whole records, then bytes that are no record: replay returns the records' commands.
replay-frames :
    (cmds : List Command) (tail : Bytes)
    → All Fits cmds
    → read_record tail ≡ none
    → replay (frames cmds ++ tail) ≡ some cmds
unfolding replay
replay-frames cmds tail fits stop =
    replay_loop-frames (suc (length (frames cmds ++ tail))) cmds tail fits stop (omega arith)

-- A torn last record: replay returns the commands of the records before it, in order, and stops.
pub replay_torn :
    (cmds : List Command) (last : Command) (n : ℕ)
    → All Fits cmds
    → Fits last
    → n < length (frame last)
    → replay (frames cmds ++ take n (frame last)) ≡ some cmds
replay_torn cmds last n fits fit h = replay-frames cmds _ fits (torn last n fit h)

-- A record whose checksum is not that of its payload: replay returns the commands of the records
-- before it and drops it with all that follows, whole records too.
pub replay_corrupt :
    (cmds : List Command) (payload : Bytes) (crc : ℕ) (rest : Bytes)
    → All Fits cmds
    → length payload < 2 ^ 32
    → crc < 2 ^ 32
    → crc32c payload ≢ crc
    → replay (frames cmds ++ (record_of payload crc ++ rest)) ≡ some cmds
replay_corrupt cmds payload crc rest fits hl hc ne =
    replay-frames cmds _ fits (read_record_corrupt payload crc rest hl hc ne)
