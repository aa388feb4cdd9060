-- ===== src/FileStore.antt =====
-- storage/file_durable_store.cpp: the store of a server, a buffer in front of a file. The calls of
-- the operating system on the open file are an interface.
pub mod Prefixes
pub mod Laws
pub mod Flush
pub mod Truncate
pub mod Recovery
mod Tests
use sim_kv.Prelude.{
  ℕ, ◌-◌, List, [], ◌++◌, Bool, true, false, Option, none, some, ltb, leb, ◌==◌, if◌then◌else◌,
  length, drop, take,
}
use sim_kv.Types.{Bytes}
use sim_kv.DurableStore.{resize}

-- What a call answers, and the file behind it: fstat and pread from offset 0 give nothing where they
-- fail, pwrite gives the number of bytes that it wrote.
pub record FileOps (F : Type 0) : Type 0 where
  pub fstat : F → Option ℕ
  pub pread : ℕ → F → Option Bytes
  pub pwrite : Bytes → ℕ → F → Option ℕ × F
  pub fsync : F → Bool × F
  pub ftruncate : ℕ → F → Bool × F

pub record FileStore (F : Type 0) : Type 0 where
  pub file : F
  pub buffer : Bytes
  pub flushed_end : ℕ

-- the exceptions, and the failed assert of crash
pub data Thrown : Type 0 where
  cannot_open fstat_failed pread_failed pwrite_failed : Thrown
  fdatasync_failed ftruncate_failed crash_called : Thrown

-- The constructor gives a store or throws.
pub data Opened (F : Type 0) : Type 0 where
  not_opened : Thrown → Opened F
  opened : FileStore F → Opened F

-- A method that may throw leaves a store behind in either case.
pub data Attempt (F : Type 0) : Type 0 where
  threw : Thrown → FileStore F → Attempt F
  returned : FileStore F → Attempt F

module _ {F : Type 0} ⦃ops : FileOps F⦄ where
  -- the buffer after pread, if that gave all of the file
  unfoldable pub fill : ℕ → Option Bytes → F → Opened F
  fill file_size none f = not_opened pread_failed
  fill file_size (some bytes) f =
      if length bytes == file_size
      then opened (record { file = f; buffer = bytes; flushed_end = file_size })
      else not_opened pread_failed

  unfoldable pub load : F → Opened F
  load f = elim (ops.fstat f) [
    | none ↦ not_opened fstat_failed
    | some file_size ↦
        if ltb 0 file_size
        then fill file_size (ops.pread file_size f) f
        else opened (record { file = f; buffer = []; flushed_end = file_size })
  ]

  -- the constructor, on what open gave
  unfoldable pub open_store : Option F → Opened F
  open_store none = not_opened cannot_open
  open_store (some f) = load f

  unfoldable pub append : Bytes → FileStore F → FileStore F
  append bytes s = record s { buffer = s.buffer ++ bytes }

  -- the sync at the end of flush and of truncate_to
  unfoldable pub datasync : FileStore F → ℕ → Attempt F
  datasync s end' =
      let (done, f) = ops.fsync s.file in
      if done
      then returned (record s { file = f; flushed_end = end' })
      else threw fdatasync_failed (record s { file = f })

  unfoldable pub after_pwrite : ℕ → Option ℕ → FileStore F → Attempt F
  after_pwrite to_write none s = threw pwrite_failed s
  after_pwrite to_write (some n) s =
      if n == to_write then datasync s (length s.buffer) else threw pwrite_failed s

  unfoldable pub flush : FileStore F → Attempt F
  flush s =
      if leb (length s.buffer) s.flushed_end
      then returned s
      else (let (n, f) = ops.pwrite (drop s.flushed_end s.buffer) s.flushed_end s.file in
          after_pwrite (length s.buffer - s.flushed_end) n (record s { file = f }))

  unfoldable pub crash : FileStore F → Attempt F
  crash s = threw crash_called s

  unfoldable pub after_ftruncate : ℕ → Bool → FileStore F → Attempt F
  after_ftruncate offset false s = threw ftruncate_failed s
  after_ftruncate offset true s = datasync s offset

  unfoldable pub truncate_to : ℕ → FileStore F → Attempt F
  truncate_to offset s =
      if ltb (length s.buffer) offset
      then returned s
      else (let s' = record s { buffer = resize offset s.buffer } in
          if ltb offset s.flushed_end
          then (let (done, f) = ops.ftruncate offset s.file in
              after_ftruncate offset done (record s' { file = f }))
          else returned s')

unfoldable pub read_durable : {F : Type 0} → FileStore F → Bytes
read_durable s = take s.flushed_end s.buffer

unfoldable pub read_all : {F : Type 0} → FileStore F → Bytes
read_all s = s.buffer

unfoldable pub durable_size : {F : Type 0} → FileStore F → ℕ
durable_size s = s.flushed_end

unfoldable pub total_size : {F : Type 0} → FileStore F → ℕ
total_size s = length s.buffer
