-- ===== src/AddressSpace/Wiped.antt =====
-- linux-5.15.178/kernel/fork.c: no page is shared in an area with VM_WIPEONFORK, as the area of the
-- task view of arch/x86/entry/vdso/vma.c is.
use oshome_work.Base.{
  ℕ, ◌+◌, ◌≤◌, ◌<◌, ◌≡◌, refl, subst, Bool, true, not, ◌&&◌, Option, none, some, if◌then◌else◌,
  is_some, either, get_elem?,
}
use oshome_work.AddressSpace.Pages.{copy_areas-Bare, IsOrdered, IsSpared, IsLocal, wiped-IsSpared}
use oshome_work.AddressSpace.Whole.{
  dup_mm_exe_file, dup_mm, free_pt, unlock_both, areas_copied, mm_init, dup_mmap, clear_mm, Around,
  arch_copied, dup_areas,
}
use oshome_work.AddressSpace.{Counts, Mm, Copying, AreaAnswers, VmArea, copy_areas, VmStat, Errno}

module _ (vm_stat_account : VmArea → VmStat → VmStat) (answers : VmArea → AreaAnswers) (w : Around)
    (old : Mm) (local : IsLocal answers) (p : ℕ) (spared : IsSpared p old.mmap) where
  -- What `dup_mm` gives has no page at the address.
  Spares : Option Mm × Counts → Type 0
  Spares (none, d) = Unit
  Spares (some mm, d) = mm.page p ≡ none

  abbrev Quiet : Option Errno × Copying → Type 0
  Quiet r = r.1.mm.page p ≡ none

  arch_copied-Quiet :
      (r : Option Errno × Copying) → Quiet r → Quiet (arch_copied vm_stat_account answers w r)
  unfolding arch_copied
  arch_copied-Quiet (some e, s) h = h
  arch_copied-Quiet (none, s) h = h

  dup_mmap-Quiet :
      (s : Copying) → s.mm.page p ≡ none → Quiet (dup_mmap vm_stat_account answers w old s)
  unfolding dup_mmap dup_areas dup_mm_exe_file unlock_both
  dup_mmap-Quiet s e =
      let t : Copying = record {
        mm = record s.mm { locked = true; exe_file = old.exe_file; stat = old.stat };
        counts = record s.counts {
          old_locked = true;
          uprobes = s.counts.uprobes + 1;
          exe_files = (if old.exe_file then s.counts.exe_files + 1 else s.counts.exe_files);
        };
      } in
      either Quiet w.mmap_lock_killed e (
        either Quiet (is_some w.ksm_fork) e (
          either Quiet (is_some w.khugepaged_fork) e (
            arch_copied-Quiet (copy_areas vm_stat_account answers old.mmap t)
              (copy_areas-Bare vm_stat_account answers local p old.mmap t spared e))))

  areas_copied-Spares :
      (r : Option Errno × Copying) → Quiet r → Spares (areas_copied vm_stat_account answers w r)
  unfolding areas_copied free_pt Spares
  areas_copied-Spares (some e, s) h = tt
  areas_copied-Spares (none, s) h = either Spares (s.mm.binfmt && not w.try_module_get) tt h

  dup_mm-Spares : (c : Counts) → Spares (dup_mm vm_stat_account answers w old c)
  unfolding dup_mm mm_init Spares
  dup_mm-Spares c =
      let P = λ (r : Bool × Copying). Spares (
        if r.0
        then areas_copied vm_stat_account answers w (dup_mmap vm_stat_account answers w old r.1)
        else (none, r.1.counts)) in
      let s : Copying = record {
        mm = clear_mm old;
        counts = record c {
          mms = c.mms + 1;
          pgds = c.pgds + 1;
          contexts = c.contexts + 1;
          user_ns = c.user_ns + 1;
        };
      } in
      either Spares (not w.allocate_mm) tt (
        either P (not w.mm_alloc_pgd) tt (
          either P (not w.init_new_context) tt (
            areas_copied-Spares (dup_mmap vm_stat_account answers w old s)
              (dup_mmap-Quiet s refl))))

-- Where the areas of the old address space lie one after the other and each copy of pages sets
-- those of its own area only, the address space that `dup_mm` gives has no page in any area with
-- VM_WIPEONFORK, as the task view of the vdso has it.
pub dup_mm_wiped :
    (vm_stat_account : VmArea → VmStat → VmStat) (answers : VmArea → AreaAnswers) (w : Around)
    (old mm : Mm) (c d : Counts) (i p : ℕ) (x : VmArea)
    → IsLocal answers
    → IsOrdered 0 old.mmap
    → get_elem? old.mmap i ≡ some x
    → x.wipeonfork ≡ true
    → x.vm_start ≤ p
    → p < x.vm_end
    → dup_mm vm_stat_account answers w old c ≡ (some mm, d)
    → mm.page p ≡ none
unfolding Spares
dup_mm_wiped account answers w old mm c d i p x local ordered e wipe l l' q =
    let spared = wiped-IsSpared p 0 i old.mmap x ordered e wipe l l' in
    subst (Spares account answers w old local p spared) q
      (dup_mm-Spares account answers w old local p spared c)
