-- ===== src/FileStore/Recovery.antt =====
-- What a file store flushed is read back when the file is opened after a loss of power.
use sim_kv.Prelude.{
  ◌≡◌, refl, sym, ap, ◌∙◌, [], ◌∷◌, some, ltb, ==_iff, length, take, arith, take-of-length-le,
  Bool-cases, inl, inr,
}
use sim_kv.Types.{Bytes}
use sim_kv.FileStore.{FileOps, FileStore, opened, fill, load, open_store, read_durable}
use sim_kv.FileStore.Laws.{FileLaws, IsSynced}

nil_of_length : (xs : Bytes) → length xs ≡ 0 → xs ≡ []
nil_of_length [] h = refl
nil_of_length (x ∷ xs) h = absurd (omega arith)

module _ {F : Type 0} ⦃ops : FileOps F⦄ ⦃laws : FileLaws F⦄ where
  -- The constructor reads the whole file.
  load_lem :
      (f : F) (bs : Bytes)
      → ops.fstat f ≡ some (length bs)
      → ops.pread (length bs) f ≡ some bs
      → load f ≡ opened (record { file = f; buffer = bs; flushed_end = length bs })
  unfolding load fill
  load_lem f bs size whole = elim (Bool-cases (ltb 0 (length bs))) [
    | inl some_bytes ↦
        rw (size, load, some_bytes, whole, fill, (==_iff (length bs) (length bs)).1 refl)
    | inr no_bytes ↦
        rw (size, load, no_bytes)
          (ap (λ l. opened (record { file = f; buffer = l; flushed_end = length bs }))
            (sym (nil_of_length bs (ground arith))))
  ]

  whole_file :
      (f : F) (bs : Bytes)
      → ops.fstat f ≡ some (length bs)
      → ops.pread (length bs) f ≡ some bs
      → laws.contents f ≡ bs
  whole_file f bs size whole =
      sym (
        take-of-length-le (length bs) (laws.contents f)
          (omega (arith, laws.fstat_law f (length bs) size)))
      ∙ sym (laws.pread_law (length bs) f bs whole)

  -- Where power is lost on a synced store, the file is left with what was on the disk, and fstat and
  -- pread succeed on it and read all of it, the constructor gives a synced store whose durable bytes
  -- are all that the file has, and begin with every byte that was counted as flushed.
  pub open_store-power_loss :
      (s : FileStore F) (f : F) (bs : Bytes)
      → IsSynced s
      → laws.contents f ≡ laws.on_disk s.file
      → laws.on_disk f ≡ laws.on_disk s.file
      → ops.fstat f ≡ some (length bs)
      → ops.pread (length bs) f ≡ some bs
      → (s' : FileStore F) × (open_store (some f) ≡ opened s')
        × IsSynced s'
        × (read_durable s' ≡ bs)
        × (take s.flushed_end (read_durable s') ≡ read_durable s)
  unfolding open_store read_durable
  open_store-power_loss s f bs v left disk size whole =
      let all = whole_file f bs size whole in
      (
        record { file = f; buffer = bs; flushed_end = length bs },
        load_lem f bs size whole,
        record {
          within = omega arith;
          written = ap (take (length bs)) all;
          synced = ap (take (length bs)) (disk ∙ sym left ∙ all);
        },
        take-of-length-le (length bs) bs (omega arith),
        ap (take s.flushed_end) (take-of-length-le (length bs) bs (omega arith) ∙ sym all ∙ left)
            ∙ v.synced,
      )
