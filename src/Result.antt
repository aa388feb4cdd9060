-- ===== src/Result.antt =====
-- What a call returns that may throw: the value, or the exception.

-- `Decoder: buffer underrun` (storage/codec.hpp), `WAL: unknown command tag` (storage/wal.cpp),
-- `RaftLog::at: index out of range or compacted` (raft/log.cpp), and a failed `assert`.
pub data Error : Type 0 where
  underrun unknown_tag out_of_range assertion : Error

pub data Result {ℓ} (A : Type ℓ) : Type ℓ where
  err : Error → Result A
  ok : A → Result A

-- What follows a call is skipped if the call threw.
infixl 5 ◌>>=◌
abbrev pub ◌>>=◌ {ℓ κ} : {A : Type ℓ} {B : Type κ} → Result A → (A → Result B) → Result B
err thrown >>= rest = err thrown
ok value >>= rest = rest value
