-- ===== src/AddressSpace/Whole.antt =====
-- linux-5.15.178/kernel/fork.c: `dup_mmap` around its loop, `mm_init`, `__mmdrop`, `mmput` and
-- `dup_mm`.
use oshome_work.Base.{
  ◌+◌, ◌-◌, Bool, true, false, not, ◌&&◌, Option, none, some, List, [], if◌then◌else◌, is_some,
}
use oshome_work.AddressSpace.{
  with_counts, AreaAnswers, Mm, VmStat, VmArea, copy_areas, Counts, Copying, Errno, with_mm, eintr,
}

-- What the functions that are called once answer. `exit_mmap` gives back what the areas hold.
pub record Around : Type 0 where
  pub allocate_mm : Bool
  pub mm_alloc_pgd : Bool
  pub init_new_context : Bool
  pub mmap_lock_killed : Bool
  pub ksm_fork : Option Errno
  pub khugepaged_fork : Option Errno
  pub arch_dup_mmap : Option Errno
  pub try_module_get : Bool
  pub exit_mmap : List VmArea → Counts → Counts

-- `dup_mm_exe_file`, but for the warning where write access cannot be denied.
unfoldable pub dup_mm_exe_file : Mm → Copying → Copying
dup_mm_exe_file old s = record {
  mm = record s.mm { exe_file = old.exe_file };
  counts = record s.counts {
    exe_files = (if old.exe_file then s.counts.exe_files + 1 else s.counts.exe_files);
  };
}

-- From the label `out` on.
unfoldable pub unlock_both : Copying → Copying
unlock_both s = record {
  mm = record s.mm { locked = false };
  counts = record s.counts { old_locked = false; uprobes = s.counts.uprobes - 1 };
}

-- `mm_init` sets the fields, as far as they are modelled.
abbrev pub clear_mm : Mm → Mm
clear_mm mm = record mm {
  mmap = [];
  map_count = 0;
  page = λ p. none;
  exe_file = false;
  opened = [];
  locked = false;
}

-- `__mmdrop`
unfoldable pub mmdrop : Counts → Counts
mmdrop c = record c {
  pgds = c.pgds - 1;
  contexts = c.contexts - 1;
  user_ns = c.user_ns - 1;
  mms = c.mms - 1;
}

module _ (vm_stat_account : VmArea → VmStat → VmStat) (answers : VmArea → AreaAnswers)
    (w : Around) where
  -- After the loop.
  unfoldable pub arch_copied : Option Errno × Copying → Option Errno × Copying
  arch_copied (some e, s) = (some e, s)
  arch_copied (none, s) = (w.arch_dup_mmap, s)

  -- What `dup_mmap` does under both locks after it has set the fields.
  unfoldable pub dup_areas : List VmArea → Copying → Option Errno × Copying
  unfolding arch_copied
  dup_areas vs s =
      if is_some w.ksm_fork
      then (w.ksm_fork, s)
      else if is_some w.khugepaged_fork
      then (w.khugepaged_fork, s)
      else arch_copied (copy_areas vm_stat_account answers vs s)

  -- `dup_mmap`
  unfoldable pub dup_mmap : Mm → Copying → Option Errno × Copying
  unfolding dup_areas dup_mm_exe_file unlock_both
  dup_mmap old s =
      if w.mmap_lock_killed
      then (some eintr, with_counts (λ c. record c { uprobes = c.uprobes + 1 - 1 }) s)
      else let t = dup_mm_exe_file old (record {
        mm = record s.mm { locked = true };
        counts = record s.counts { old_locked = true; uprobes = s.counts.uprobes + 1 };
      }) in
        let (e, u) = dup_areas old.mmap (with_mm (λ mm. record mm { stat = old.stat }) t) in
        (e, unlock_both u)

  -- `mm_init`, and whether it gives the address space or has freed it.
  unfoldable pub mm_init : Copying → Bool × Copying
  mm_init s =
      let mm = clear_mm s.mm in
      let c = s.counts in
      if not w.mm_alloc_pgd
      then (false, record { mm = mm; counts = record c { mms = c.mms - 1 } })
      else if not w.init_new_context
      then (false, record { mm = mm; counts = record c { pgds = c.pgds + 1 - 1; mms = c.mms - 1 } })
      else (
        true,
        record {
          mm = mm;
          counts = record c {
            pgds = c.pgds + 1;
            contexts = c.contexts + 1;
            user_ns = c.user_ns + 1;
          };
        },
      )

  -- `mmput` of the only user: `exit_mmap`, the executable, the module, and `mmdrop`.
  unfoldable pub mmput : Copying → Counts
  unfolding mmdrop
  mmput s =
      let c = w.exit_mmap s.mm.mmap s.counts in
      mmdrop (record c {
        exe_files = (if s.mm.exe_file then c.exe_files - 1 else c.exe_files);
        modules = (if s.mm.binfmt then c.modules - 1 else c.modules);
      })

  -- The label `free_pt`: no reference to the module has been taken.
  unfoldable pub free_pt : Copying → Option Mm × Counts
  unfolding mmput
  free_pt s = (none, mmput (with_mm (λ mm. record mm { binfmt = false }) s))

  -- After `dup_mmap`.
  unfoldable pub areas_copied : Option Errno × Copying → Option Mm × Counts
  unfolding free_pt
  areas_copied (some e, s) = free_pt s
  areas_copied (none, s) = if s.mm.binfmt && not w.try_module_get then free_pt s else (
    some (record s.mm { hiwater_vm = s.mm.stat.total_vm }),
    (if s.mm.binfmt then record s.counts { modules = s.counts.modules + 1 } else s.counts),
  )

  -- `dup_mm`, with the copy of the structure before it is set up.
  unfoldable pub dup_mm : Mm → Counts → Option Mm × Counts
  unfolding mm_init dup_mmap areas_copied
  dup_mm old c =
      if not w.allocate_mm
      then (none, c)
      else let (done, s) = mm_init (record { mm = old; counts = record c { mms = c.mms + 1 } }) in
        if done then areas_copied (dup_mmap old s) else (none, s.counts)
