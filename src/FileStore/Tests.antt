-- ===== src/FileStore/Tests.antt =====
-- A file whose contents reach the disk only by fsync, and a store on it.
use sim_kv.Prelude.{
  ℕ, zero, suc, ◌+◌, ◌≤◌, ◌≡◌, refl, ap, [], ◌∷◌, ◌++◌, true, false, Option, none, some, leb,
  if◌then◌else◌, length, take, drop, arith, length-append, length-take, take-length-append, subst,
}
use sim_kv.Types.{Bytes}
use sim_kv.DurableStore
use sim_kv.DurableStore.{resize}
use sim_kv.FileStore.{
  FileOps, FileStore, returned, opened, open_store, datasync, after_pwrite, flush, truncate_to,
  read_durable,
}
use sim_kv.FileStore.Laws.{FileLaws, IsSynced, Agrees, view}
use sim_kv.FileStore.Flush.{flush-Agrees}
use sim_kv.FileStore.Truncate.{truncate_to-Agrees}
use sim_kv.FileStore.Recovery.{open_store-power_loss}

record TestFile : Type 0 where
  contents : Bytes
  on_disk : Bytes

-- pwrite refuses an offset past the end.
abbrev test_pwrite : Bytes → ℕ → TestFile → Option ℕ × TestFile
test_pwrite bs off f =
    if leb off (length f.contents)
    then (
      some (length bs),
      record f { contents = take off f.contents ++ bs ++ drop (off + length bs) f.contents },
    )
    else (none, f)

instance abbrev test_ops : FileOps TestFile
test_ops = record {
  fstat = λ f. some (length f.contents);
  pread = λ n f. some (take n f.contents);
  pwrite = test_pwrite;
  fsync = λ f. (true, record f { on_disk = f.contents });
  ftruncate = λ n f. (true, record f { contents = resize n f.contents });
}

test_pwrite_disk :
    (bs : Bytes) (off k : ℕ) (f : TestFile)
    → take k (test_pwrite bs off f).1.on_disk ≡ take k f.on_disk
test_pwrite_disk bs off k f = ground arith

le→leb : (a b : ℕ) → a ≤ b → leb a b ≡ true
le→leb a b h = ground arith

test_pwrite_law :
    (bs : Bytes) (off : ℕ) (f : TestFile)
    → off ≤ length f.contents
    → take (off + length bs) (test_pwrite bs off f).1.contents ≡ take off f.contents ++ bs
test_pwrite_law bs off f h =
    let size : length (take off f.contents ++ bs) ≡ off + length bs =
      omega (arith, length-append (take off f.contents) bs, length-take off f.contents) in
    rw (le→leb off (length f.contents) h) (
      subst
        (λ k.
          take k (take off f.contents ++ bs ++ drop (off + length bs) f.contents)
          ≡ take off f.contents ++ bs)
        size (take-length-append (take off f.contents ++ bs) (drop (off + length bs) f.contents)))

test_fstat_law : (f : TestFile) (n : ℕ) → test_ops.fstat f ≡ some n → n ≡ length f.contents
test_fstat_law f n e = ground arith

take-length-take : (n : ℕ) (xs : Bytes) → take n xs ≡ take (length (take n xs)) xs
take-length-take zero xs = refl
take-length-take (suc n) [] = refl
take-length-take (suc n) (x ∷ xs) = ap (λ t. x ∷ t) (take-length-take n xs)

test_pread_law :
    (n : ℕ) (f : TestFile) (bs : Bytes)
    → test_ops.pread n f ≡ some bs
    → bs ≡ take (length bs) f.contents
test_pread_law n f bs e =
    let same : take n f.contents ≡ bs = cc in
    subst (λ l. l ≡ take (length l) f.contents) same (take-length-take n f.contents)

test_ftruncate_failed :
    (n : ℕ) (f : TestFile) → (test_ops.ftruncate n f).0 ≡ false → (test_ops.ftruncate n f).1 ≡ f
test_ftruncate_failed n f e = cc

instance abbrev test_laws : FileLaws TestFile
test_laws = record {
  contents = λ f. f.contents;
  on_disk = λ f. f.on_disk;
  fstat_law = λ f n e. test_fstat_law f n e;
  pread_law = λ n f bs e. test_pread_law n f bs e;
  pwrite_disk = λ bs off k f h g. test_pwrite_disk bs off k f;
  pwrite_law = λ bs off f h e. test_pwrite_law bs off f h;
  fsync_contents = λ f. refl;
  fsync_law = λ f e. refl;
  fsync_disk = λ k f e. refl;
  ftruncate_failed = λ n f e. test_ftruncate_failed n f e;
  ftruncate_law = λ n f e. refl;
  ftruncate_disk = λ n f h e. refl;
}

-- Two bytes on the disk, and two that wait.
abbrev two_and_two : FileStore TestFile
two_and_two = record {
  file = record { contents = 1 ∷ 2 ∷ []; on_disk = 1 ∷ 2 ∷ [] };
  buffer = 1 ∷ 2 ∷ 3 ∷ 4 ∷ [];
  flushed_end = 2;
}

two_and_two-IsSynced : IsSynced two_and_two
two_and_two-IsSynced = record { within = omega arith; written = refl; synced = refl }

-- The store after the flush, with all four bytes on the disk.
flush_of_two :
    flush two_and_two
    ≡ returned (record two_and_two {
      file = record { contents = 1 ∷ 2 ∷ 3 ∷ 4 ∷ []; on_disk = 1 ∷ 2 ∷ 3 ∷ 4 ∷ [] };
      flushed_end = 4;
    })
unfolding flush after_pwrite datasync
flush_of_two = refl

flush-Agrees_example : Agrees 2 (flush two_and_two) (DurableStore.flush (view two_and_two))
flush-Agrees_example = flush-Agrees two_and_two two_and_two-IsSynced

truncate_to-Agrees_example :
    Agrees 1 (truncate_to 1 two_and_two) (DurableStore.truncate_to 1 (view two_and_two))
truncate_to-Agrees_example = truncate_to-Agrees 1 two_and_two two_and_two-IsSynced

open_store-power_loss_example :
    (s' : FileStore TestFile) × (open_store (some two_and_two.file) ≡ opened s')
    × IsSynced s'
    × (read_durable s' ≡ 1 ∷ 2 ∷ [])
    × (take 2 (read_durable s') ≡ read_durable two_and_two)
open_store-power_loss_example =
    open_store-power_loss two_and_two two_and_two.file (1 ∷ 2 ∷ []) two_and_two-IsSynced refl refl
      refl refl
