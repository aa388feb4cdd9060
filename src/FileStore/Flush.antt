-- ===== src/FileStore/Flush.antt =====
-- flush does what the simulated disk does.
use sim_kv.Prelude.{
  ◌+◌, ◌-◌, ◌≡◌, sym, ap, ◌∙◌, subst, ◌++◌, some, leb, ◌==◌, ==_iff, length, drop, take, arith,
  length-drop, take-of-length-le, leb→le, Bool-cases, Option-cases, inl, inr,
}
use sim_kv.DurableStore
use sim_kv.DurableStore.{DurableStore, resize}
use sim_kv.FileStore.{FileOps, FileStore, after_pwrite, flush}
use sim_kv.FileStore.Prefixes.{take-append-drop, le_refl, le_antisymm}
use sim_kv.FileStore.Laws.{
  FileLaws, IsSynced, Agrees, view, disk_reach, file_reach, datasync-Agrees,
}

module _ {F : Type 0} ⦃ops : FileOps F⦄ ⦃laws : FileLaws F⦄ where
  -- The bytes that flush finds in the file behind its pwrite.
  flush-written :
      (s : FileStore F)
      → IsSynced s
      → (ops.pwrite (drop s.flushed_end s.buffer) s.flushed_end s.file).0
        ≡ some (length s.buffer - s.flushed_end)
      → take
          (length s.buffer)
          (laws.contents (ops.pwrite (drop s.flushed_end s.buffer) s.flushed_end s.file).1)
        ≡ s.buffer
  flush-written s v n =
      let tail = drop s.flushed_end s.buffer in
      let size = length-drop s.flushed_end s.buffer in
      let reach = file_reach s v in
      let all = laws.pwrite_law tail s.flushed_end s.file reach (n ∙ ap some (sym size)) in
      let total : s.flushed_end + length tail ≡ length s.buffer = omega (arith, v.within, size) in
      subst (λ k. take k (laws.contents (ops.pwrite tail s.flushed_end s.file).1) ≡ s.buffer) total
        (all ∙ ap (λ l. l ++ tail) v.written ∙ take-append-drop s.flushed_end s.buffer)

  -- flush on a synced store, where the operating system keeps its promises: if it returns, all of
  -- the buffer is in the file and on the disk, and the store is as the simulated disk would be after
  -- its flush; if it throws, what was flushed before is still on the disk.
  pub flush-Agrees :
      (s : FileStore F) → IsSynced s → Agrees s.flushed_end (flush s) (DurableStore.flush (view s))
  unfolding flush DurableStore.flush after_pwrite
  flush-Agrees s v =
      let tail = drop s.flushed_end s.buffer in
      let f = (ops.pwrite tail s.flushed_end s.file).1 in
      let kept =
        laws.pwrite_disk tail s.flushed_end s.flushed_end s.file le_refl (disk_reach s v)
        ∙ v.synced in
      elim (Bool-cases (leb (length s.buffer) s.flushed_end)) [
        | inl nothing ↦
            rw (nothing, Agrees)
              (
                v,
                ap (λ n. record { content = s.buffer; flushed_end = n })
                    (le_antisymm v.within (leb→le _ _ nothing)),
              )
        | inr more ↦ elim (Option-cases (ops.pwrite tail s.flushed_end s.file).0) [
          | inl failed ↦ rw (more, failed, Agrees) kept
          | inr (n, wrote) ↦ elim (Bool-cases (n == length s.buffer - s.flushed_end)) [
            | inr short ↦ rw (more, wrote, short, Agrees) kept
            | inl all ↦
                rw (more, wrote, all)
                  (datasync-Agrees (record s { file = f }) s.flushed_end (length s.buffer) v.within
                    le_refl
                    (flush-written s v (wrote ∙ ap some ((==_iff _ _).0 all))
                      ∙ sym (take-of-length-le (length s.buffer) s.buffer le_refl))
                    kept)
          ]
        ]
      ]
