-- ===== src/AddressSpace/Mmput.antt =====
-- linux-5.15.178/kernel/fork.c: what `mmput` gives back.
use oshome_work.Base.{◌+◌, ◌≡◌, refl, Bool, List, [], ◌∷◌, arith, if◌then◌else◌}
use oshome_work.AddressSpace.Charges.{IsHeld, sum}
use oshome_work.AddressSpace.Whole.{Around, mmput, mmdrop}
use oshome_work.AddressSpace.{
  Copying, copy_areas, link_area, VmStat, fail_nomem_anon_vma_fork, Counts, fail_nomem, VmArea,
  fail_nomem_policy, prepare_area, dup_area, AreaAnswers, copy_area,
}

module _ (vm_stat_account : VmArea → VmStat → VmStat) (answers : VmArea → AreaAnswers) where
  copy_area-exe_file :
      (v : VmArea) (s : Copying)
      → let t = (copy_area vm_stat_account answers v s).1 in
        (t.mm.exe_file ≡ s.mm.exe_file) × (t.mm.binfmt ≡ s.mm.binfmt)
  unfolding copy_area dup_area prepare_area link_area fail_nomem fail_nomem_policy
      fail_nomem_anon_vma_fork
  copy_area-exe_file v s = ground arith

  pub copy_areas-exe_file :
      (vs : List VmArea) (s : Copying)
      → let t = (copy_areas vm_stat_account answers vs s).1 in
        (t.mm.exe_file ≡ s.mm.exe_file) × (t.mm.binfmt ≡ s.mm.binfmt)
  unfolding copy_areas
  copy_areas-exe_file [] s = (refl, refl)
  copy_areas-exe_file (v ∷ vs) s = ground (
    arith,
    copy_area-exe_file v s,
    copy_areas-exe_file vs (copy_area vm_stat_account answers v s).1,
  )

-- With one more address space, before its areas.
abbrev pub with_mm_struct : (exe_file binfmt : Bool) → Counts → Counts
with_mm_struct exe_file binfmt c = record c {
  mms = c.mms + 1;
  pgds = c.pgds + 1;
  contexts = c.contexts + 1;
  user_ns = c.user_ns + 1;
  exe_files = (if exe_file then c.exe_files + 1 else c.exe_files);
  modules = (if binfmt then c.modules + 1 else c.modules);
}

-- `exit_mmap` gives back what the areas hold.
pub record IsExit (exit_mmap : List VmArea → Counts → Counts) : Type 0 where
  pub exits : (c d : Counts) (mmap : List VmArea) → IsHeld c mmap d → IsHeld c [] (exit_mmap mmap d)

module _ (vm_stat_account : VmArea → VmStat → VmStat) (answers : VmArea → AreaAnswers) (w : Around)
    (x : IsExit w.exit_mmap) (c : Counts) where
  pub mmput-IsHeld :
      (s : Copying)
      → IsHeld (with_mm_struct s.mm.exe_file s.mm.binfmt c) s.mm.mmap s.counts
      → IsHeld c [] (mmput vm_stat_account answers w s)
  unfolding mmput mmdrop sum
  mmput-IsHeld s h =
      let k = x.exits _ s.counts s.mm.mmap h in
      record {
        accounted = k.accounted;
        areas = k.areas;
        policies = k.policies;
        files = k.files;
        writable = k.writable;
        mms = ground (arith, k.mms);
        pgds = ground (arith, k.pgds);
        contexts = ground (arith, k.contexts);
        user_ns = ground (arith, k.user_ns);
        exe_files = ground (arith, k.exe_files);
        modules = ground (arith, k.modules);
        uprobes = k.uprobes;
        old_locked = k.old_locked;
      }

pub IsHeld-none : (c : Counts) → IsHeld c [] c
unfolding sum
IsHeld-none c = record {
  accounted = omega arith;
  areas = omega arith;
  policies = omega arith;
  files = λ p. omega arith;
  writable = λ p. omega arith;
  mms = refl;
  pgds = refl;
  contexts = refl;
  user_ns = refl;
  exe_files = refl;
  modules = refl;
  uprobes = refl;
  old_locked = refl;
}
