-- ===== src/AddressSpace/Result.antt =====
-- linux-5.15.178/kernel/fork.c: the address space that `dup_mm` gives, and the memory that it wipes.
use oshome_work.AddressSpace.Mmput.{copy_areas-exe_file}
use oshome_work.Base.{
  ◌+◌, ◌≡◌, refl, subst, Bool, true, false, not, ◌&&◌, Option, none, some, arith, if◌then◌else◌,
  is_some, either, either_if, length,
}
use oshome_work.AddressSpace.Copy.{copy_areas-IsExtended, IsExtended, children, without}
use oshome_work.AddressSpace.Whole.{
  dup_mm, free_pt, mm_init, dup_mm_exe_file, unlock_both, dup_mmap, areas_copied, arch_copied,
  clear_mm, Around, dup_areas,
}
use oshome_work.AddressSpace.{AreaAnswers, Copying, VmArea, Counts, copy_areas, VmStat, Mm, Errno}

module _ (vm_stat_account : VmArea → VmStat → VmStat) (answers : VmArea → AreaAnswers) (w : Around)
    (old : Mm) where
  -- The new address space has copies of the areas, in order, and nobody else uses it yet.
  pub record IsCopy (mm : Mm) : Type 0 where
    pub mmap : mm.mmap ≡ children vm_stat_account answers old.mmap
    pub map_count : mm.map_count ≡ length (children vm_stat_account answers old.mmap)
    pub stat : mm.stat ≡ without vm_stat_account answers old.mmap old.stat
    pub hiwater_vm : mm.hiwater_vm ≡ mm.stat.total_vm
    pub exe_file : mm.exe_file ≡ old.exe_file
    pub binfmt : mm.binfmt ≡ old.binfmt
    pub locked : mm.locked ≡ false

  -- `dup_mmap` under both locks, with any counts.
  abbrev under_locks : Counts → Copying
  under_locks c = record {
    mm = record (clear_mm old) { locked = true; exe_file = old.exe_file; stat = old.stat };
    counts = c;
  }

  -- What holds after `dup_mmap` but for the locks.
  abbrev Filled : Option Errno × Copying → Type 0
  Filled r =
      r.0 ≡ none
      → IsExtended vm_stat_account answers
          (record {
            mm = record (clear_mm old) { locked = true; exe_file = old.exe_file; stat = old.stat };
            counts = r.1.counts;
          })
          old.mmap r.1
        × (r.1.mm.exe_file ≡ old.exe_file)
        × (r.1.mm.binfmt ≡ old.binfmt)

  arch_copied-Filled :
      (r : Option Errno × Copying) → Filled r → Filled (arch_copied vm_stat_account answers w r)
  unfolding arch_copied
  arch_copied-Filled (some e, s) h = λ q. ground arith
  arch_copied-Filled (none, s) h = λ q. h refl

  dup_areas-Filled :
      (c : Counts) → Filled (dup_areas vm_stat_account answers w old.mmap (under_locks c))
  unfolding dup_areas
  dup_areas-Filled c =
      either_if Filled (is_some w.ksm_fork) (λ e q. ground arith)
        (λ e.
          either_if Filled (is_some w.khugepaged_fork) (λ e' q. ground arith)
            (λ e'.
              arch_copied-Filled (copy_areas vm_stat_account answers old.mmap (under_locks c)) (λ q.
                let k = copy_areas-IsExtended vm_stat_account answers old.mmap (under_locks c) q in
                let (k₁, k₂) =
                  copy_areas-exe_file vm_stat_account answers old.mmap (under_locks c) in
                (record { mmap = k.mmap; map_count = k.map_count; stat = k.stat }, k₁, k₂))))

  -- The result, as far as `dup_mm` gives one.
  Gives : Option Mm × Counts → Type 0
  Gives (none, d) = Unit
  Gives (some mm, d) = IsCopy mm

  -- `dup_mm` after `dup_mmap`.
  unlocked-Gives :
      (o : Option Errno) (s : Copying)
      → Filled (o, s)
      → Gives (areas_copied vm_stat_account answers w (o, unlock_both s))
  unfolding areas_copied free_pt unlock_both Gives
  unlocked-Gives (some e) s h = tt
  unlocked-Gives none s h =
      let (k, k₁, k₂) = h refl in
      either Gives (s.mm.binfmt && not w.try_module_get) tt (record {
        mmap = k.mmap;
        map_count = ground (arith, k.map_count);
        stat = k.stat;
        hiwater_vm = refl;
        exe_file = k₁;
        binfmt = k₂;
        locked = refl;
      })

  areas_copied-Gives :
      (c : Counts)
      → Gives (
          areas_copied vm_stat_account answers w
            (dup_mmap vm_stat_account answers w old (record { mm = clear_mm old; counts = c })))
  unfolding dup_mmap dup_mm_exe_file areas_copied free_pt Gives
  areas_copied-Gives c =
      let d = record c {
        old_locked = true;
        uprobes = c.uprobes + 1;
        exe_files = (if old.exe_file then c.exe_files + 1 else c.exe_files);
      } in
      let r = dup_areas vm_stat_account answers w old.mmap (under_locks d) in
      either (λ r. Gives (areas_copied vm_stat_account answers w r)) w.mmap_lock_killed tt
        (unlocked-Gives r.0 r.1 (dup_areas-Filled d))

  dup_mm-Gives : (c : Counts) → Gives (dup_mm vm_stat_account answers w old c)
  unfolding dup_mm mm_init Gives
  dup_mm-Gives c =
      let P = λ (r : Bool × Copying). Gives (
        if r.0
        then areas_copied vm_stat_account answers w (dup_mmap vm_stat_account answers w old r.1)
        else (none, r.1.counts)) in
      either Gives (not w.allocate_mm) tt (
        either P (not w.mm_alloc_pgd) tt (
          either P (not w.init_new_context) tt (
            areas_copied-Gives (record c {
              mms = c.mms + 1;
              pgds = c.pgds + 1;
              contexts = c.contexts + 1;
              user_ns = c.user_ns + 1;
            }))))

  -- An address space that `dup_mm` gives has the areas of the old one in order, but for
  -- VM_DONTCOPY, unlocked and without anonymous memory where they are wiped, with their number, the
  -- statistics less what is left out, the same executable and format, and its lock free.
  pub dup_mm-IsCopy :
      (c d : Counts) (mm : Mm) → dup_mm vm_stat_account answers w old c ≡ (some mm, d) → IsCopy mm
  unfolding Gives
  dup_mm-IsCopy c d mm q = subst Gives q (dup_mm-Gives c)
