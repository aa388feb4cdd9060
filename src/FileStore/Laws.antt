-- ===== src/FileStore/Laws.antt =====
-- What the operating system promises about a file, and what a file store keeps on it.
use sim_kv.Prelude.{
  ℕ, ◌+◌, ◌≤◌, ◌≡◌, refl, sym, ap, ◌∙◌, ◌++◌, true, false, some, length, take, arith, length-take,
  length-append, Bool-cases, inl, inr,
}
use sim_kv.Types.{Bytes}
use sim_kv.DurableStore
use sim_kv.DurableStore.{DurableStore, resize}
use sim_kv.DurableStore.Laws.{take-append_left}
use sim_kv.FileStore.{FileOps, FileStore, Attempt, threw, returned, append, datasync}
use sim_kv.FileStore.Prefixes.{take-prefix}

-- What the calls promise about a file: its bytes, and those of them that a loss of power leaves. A
-- write leaves on the disk what lies there before its offset, and ftruncate what lies before its length.
pub record FileLaws (F : Type 0) ⦃ops : FileOps F⦄ : Type 0 where
  pub contents : F → Bytes
  pub on_disk : F → Bytes
  pub fstat_law : (f : F) (n : ℕ) → ops.fstat f ≡ some n → n ≡ length (contents f)
  pub pread_law :
      (n : ℕ) (f : F) (bs : Bytes) → ops.pread n f ≡ some bs → bs ≡ take (length bs) (contents f)
  pub pwrite_disk :
      (bs : Bytes) (off k : ℕ) (f : F)
      → k ≤ off
      → k ≤ length (on_disk f)
      → take k (on_disk (ops.pwrite bs off f).1) ≡ take k (on_disk f)
  pub pwrite_law :
      (bs : Bytes) (off : ℕ) (f : F)
      → off ≤ length (contents f)
      → (ops.pwrite bs off f).0 ≡ some (length bs)
      → take (off + length bs) (contents (ops.pwrite bs off f).1) ≡ take off (contents f) ++ bs
  pub fsync_contents : (f : F) → contents (ops.fsync f).1 ≡ contents f
  pub fsync_law : (f : F) → (ops.fsync f).0 ≡ true → on_disk (ops.fsync f).1 ≡ contents f
  pub fsync_disk :
      (k : ℕ) (f : F)
      → take k (on_disk f) ≡ take k (contents f)
      → take k (on_disk (ops.fsync f).1) ≡ take k (contents f)
  pub ftruncate_failed : (n : ℕ) (f : F) → (ops.ftruncate n f).0 ≡ false → (ops.ftruncate n f).1 ≡ f
  pub ftruncate_law :
      (n : ℕ) (f : F)
      → (ops.ftruncate n f).0 ≡ true
      → contents (ops.ftruncate n f).1 ≡ resize n (contents f)
  pub ftruncate_disk :
      (n : ℕ) (f : F)
      → n ≤ length (on_disk f)
      → (ops.ftruncate n f).0 ≡ true
      → take n (on_disk (ops.ftruncate n f).1) ≡ take n (on_disk f)

module _ {F : Type 0} ⦃ops : FileOps F⦄ ⦃laws : FileLaws F⦄ where
  -- What is counted as flushed is in the buffer, in the file and on the disk.
  pub record IsSynced (s : FileStore F) : Type 0 where
    pub within : s.flushed_end ≤ length s.buffer
    pub written : take s.flushed_end (laws.contents s.file) ≡ take s.flushed_end s.buffer
    pub synced : take s.flushed_end (laws.on_disk s.file) ≡ take s.flushed_end s.buffer

  pub disk_reach : (s : FileStore F) → IsSynced s → s.flushed_end ≤ length (laws.on_disk s.file)
  disk_reach s v = omega (
    arith,
    v.within,
    ap length v.synced,
    length-take s.flushed_end (laws.on_disk s.file),
    length-take s.flushed_end s.buffer,
  )

  pub file_reach : (s : FileStore F) → IsSynced s → s.flushed_end ≤ length (laws.contents s.file)
  file_reach s v = omega (
    arith,
    v.within,
    ap length v.written,
    length-take s.flushed_end (laws.contents s.file),
    length-take s.flushed_end s.buffer,
  )

  -- The store as the simulated disk sees it.
  abbrev pub view : FileStore F → DurableStore
  view s = record { content = s.buffer; flushed_end = s.flushed_end }

  -- A method that returns leaves a synced store that looks like `d`; one that throws leaves the
  -- first k bytes on the disk.
  abbrev pub Agrees : ℕ → Attempt F → DurableStore → Type 0
  Agrees k (threw e s) d = take k (laws.on_disk s.file) ≡ take k s.buffer
  Agrees k (returned s) d = IsSynced s × (view s ≡ d)

  pub datasync-Agrees :
      (s : FileStore F) (k end' : ℕ)
      → k ≤ end'
      → end' ≤ length s.buffer
      → take end' (laws.contents s.file) ≡ take end' s.buffer
      → take k (laws.on_disk s.file) ≡ take k s.buffer
      → Agrees k (datasync s end') (record { content = s.buffer; flushed_end = end' })
  unfolding datasync
  datasync-Agrees s k end' le in_buffer written kept = elim (Bool-cases (ops.fsync s.file).0) [
    | inr failed ↦
        rw (failed, Agrees)
          (laws.fsync_disk k s.file (kept ∙ sym (take-prefix k end' _ _ le written))
            ∙ take-prefix k end' _ _ le written)
    | inl done ↦
        rw (done, Agrees)
          (
            record {
              within = in_buffer;
              written = ap (take end') (laws.fsync_contents s.file) ∙ written;
              synced = ap (take end') (laws.fsync_law s.file done) ∙ written;
            },
            refl,
          )
  ]

  pub append-IsSynced :
      (bs : Bytes) (s : FileStore F)
      → IsSynced s
      → IsSynced (append bs s) × (view (append bs s) ≡ DurableStore.append bs (view s))
  unfolding append DurableStore.append
  append-IsSynced bs s v =
      let same = take-append_left s.flushed_end s.buffer bs v.within in
      (
        record {
          within = omega (arith, v.within, length-append s.buffer bs);
          written = v.written ∙ sym same;
          synced = v.synced ∙ sym same;
        },
        refl,
      )
