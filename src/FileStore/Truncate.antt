-- ===== src/FileStore/Truncate.antt =====
-- truncate_to does what the simulated disk does.
use sim_kv.Prelude.{
  ℕ, ◌≤◌, ◌<◌, ◌≡◌, sym, ap, ◌∙◌, true, ltb, length, take, arith, length-take, ltb→lt, Bool-cases,
  inl, inr,
}
use sim_kv.DurableStore
use sim_kv.DurableStore.{DurableStore, resize}
use sim_kv.FileStore.{FileOps, FileStore, datasync, after_ftruncate, truncate_to}
use sim_kv.FileStore.Prefixes.{take-take, take-prefix, not_lt, le_of_lt, resize-take, le_refl}
use sim_kv.FileStore.Laws.{
  FileLaws, IsSynced, Agrees, view, disk_reach, file_reach, datasync-Agrees,
}

-- What the simulated disk does with an offset, by where it lies.
truncate_beyond :
    (offset : ℕ) (d : DurableStore)
    → d.flushed_end ≤ length d.content
    → length d.content < offset
    → DurableStore.truncate_to offset d ≡ d
unfolding DurableStore.truncate_to
truncate_beyond offset d w h = ground arith

truncate_behind :
    (offset : ℕ) (d : DurableStore)
    → d.flushed_end ≤ offset
    → offset ≤ length d.content
    → DurableStore.truncate_to offset d ≡ record d { content = take offset d.content }
unfolding DurableStore.truncate_to
truncate_behind offset d w h = ground (arith, resize-take offset d.content h)

truncate_cut :
    (offset : ℕ) (d : DurableStore)
    → offset < d.flushed_end
    → offset ≤ length d.content
    → DurableStore.truncate_to offset d
      ≡ record { content = take offset d.content; flushed_end = offset }
unfolding DurableStore.truncate_to
truncate_cut offset d w h = ground (arith, resize-take offset d.content h)

module _ {F : Type 0} ⦃ops : FileOps F⦄ ⦃laws : FileLaws F⦄ where
  -- The sync behind ftruncate.
  cut-Agrees :
      (offset : ℕ) (s : FileStore F)
      → IsSynced s
      → offset < s.flushed_end
      → (ops.ftruncate offset s.file).0 ≡ true
      → Agrees offset
          (datasync
            (record s { file = (ops.ftruncate offset s.file).1; buffer = take offset s.buffer })
            offset)
          (record { content = take offset s.buffer; flushed_end = offset })
  cut-Agrees offset s v lt done =
      let reach : offset ≤ length (laws.contents s.file) = omega (arith, file_reach s v) in
      let twice = sym (take-take offset offset s.buffer le_refl) in
      datasync-Agrees
        (record s { file = (ops.ftruncate offset s.file).1; buffer = take offset s.buffer }) offset
        offset le_refl (omega (arith, v.within, length-take offset s.buffer))
        (ap (take offset) (
            laws.ftruncate_law offset s.file done ∙ resize-take offset (laws.contents s.file) reach)
          ∙ take-take offset offset (laws.contents s.file) le_refl
          ∙ take-prefix offset s.flushed_end _ _ (le_of_lt lt) v.written
          ∙ twice)
        (laws.ftruncate_disk offset s.file (omega (arith, disk_reach s v)) done
          ∙ take-prefix offset s.flushed_end _ _ (le_of_lt lt) v.synced
          ∙ twice)

  -- truncate_to on a synced store, where the operating system keeps its promises: if it returns, the
  -- store is synced and as the simulated disk would be; if it throws, the bytes before the offset are
  -- still on the disk.
  pub truncate_to-Agrees :
      (offset : ℕ) (s : FileStore F)
      → IsSynced s
      → Agrees offset (truncate_to offset s) (DurableStore.truncate_to offset (view s))
  unfolding truncate_to after_ftruncate
  truncate_to-Agrees offset s v = elim (Bool-cases (ltb (length s.buffer) offset)) [
    | inl beyond ↦
        rw (beyond, Agrees) (v, sym (truncate_beyond offset (view s) v.within (ltb→lt _ _ beyond)))
    | inr inside ↦ elim (Bool-cases (ltb offset s.flushed_end)) [
      | inr behind ↦
          rw (inside, behind, resize-take offset s.buffer (not_lt inside), Agrees)
            (
              record {
                within = omega (arith, not_lt behind, not_lt inside, length-take offset s.buffer);
                written = v.written ∙ sym (take-take s.flushed_end offset s.buffer (not_lt behind));
                synced = v.synced ∙ sym (take-take s.flushed_end offset s.buffer (not_lt behind));
              },
              sym (truncate_behind offset (view s) (not_lt behind) (not_lt inside)),
            )
      | inl cut ↦ elim (Bool-cases (ops.ftruncate offset s.file).0) [
        | inr failed ↦
            rw
              (
                inside,
                cut,
                failed,
                resize-take offset s.buffer (not_lt inside),
                laws.ftruncate_failed offset s.file failed,
                Agrees,
              )
              (take-prefix offset s.flushed_end _ _ (le_of_lt (ltb→lt _ _ cut)) v.synced
                ∙ sym (take-take offset offset s.buffer le_refl))
        | inl done ↦
            rw
              (
                inside,
                cut,
                done,
                resize-take offset s.buffer (not_lt inside),
                truncate_cut offset (view s) (ltb→lt _ _ cut) (not_lt inside),
              )
              (cut-Agrees offset s v (ltb→lt _ _ cut) done)
      ]
    ]
  ]
