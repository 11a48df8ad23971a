-- ===== src/AddressSpace/Balance.antt =====
-- linux-5.15.178/kernel/fork.c: what the kernel holds after `dup_mm`.
use oshome_work.AddressSpace.Mmput.{
  IsExit, IsHeld-none, mmput-IsHeld, with_mm_struct, copy_areas-exe_file,
}
use oshome_work.Base.{
  ℕ, ◌+◌, ◌-◌, ◌≡◌, refl, sym, Bool, true, false, not, ◌&&◌, Option, none, some, [], arith,
  if◌then◌else◌, is_some, either,
}
use oshome_work.AddressSpace.Areas.{copy_areas-IsHeld}
use oshome_work.AddressSpace.Charges.{IsHeld}
use oshome_work.AddressSpace.Whole.{
  free_pt, mm_init, areas_copied, dup_mm, unlock_both, dup_mm_exe_file, dup_mmap, clear_mm,
  dup_areas, arch_copied, Around,
}
use oshome_work.AddressSpace.{
  with_counts, Mm, Copying, VmStat, Counts, VmArea, AreaAnswers, Errno, with_mm, eintr,
}

module _ (vm_stat_account : VmArea → VmStat → VmStat) (answers : VmArea → AreaAnswers) (w : Around)
    (old : Mm) (c : Counts) (free : c.old_locked ≡ false) where
  -- `dup_mm` after `mm_init`, and in `dup_mmap` under both locks.
  abbrev begun : Copying
  begun = record { mm = clear_mm old; counts = with_mm_struct false false c }

  abbrev under_locks : Copying
  under_locks = record {
    mm = record begun.mm { locked = true; exe_file = old.exe_file; stat = old.stat };
    counts = record (with_mm_struct old.exe_file false c) {
      old_locked = true;
      uprobes = c.uprobes + 1;
    };
  }

  -- What holds until the locks are given back.
  abbrev Held : Option Errno × Copying → Type 0
  Held r =
      IsHeld under_locks.counts r.1.mm.mmap r.1.counts
      × (r.1.mm.exe_file ≡ old.exe_file)
      × (r.1.mm.binfmt ≡ old.binfmt)

  arch_copied-Held :
      (r : Option Errno × Copying) → Held r → Held (arch_copied vm_stat_account answers w r)
  unfolding arch_copied
  arch_copied-Held (some e, s) h = h
  arch_copied-Held (none, s) h = h

  dup_areas-Held : Held (dup_areas vm_stat_account answers w old.mmap under_locks)
  unfolding dup_areas
  dup_areas-Held =
      let k =
        copy_areas-IsHeld under_locks.counts vm_stat_account answers old.mmap under_locks
          (IsHeld-none under_locks.counts) in
      let (k₁, k₂) = copy_areas-exe_file vm_stat_account answers old.mmap under_locks in
      let start : Held (none, under_locks) = (IsHeld-none under_locks.counts, refl, refl) in
      either Held (is_some w.ksm_fork) start
        (either Held (is_some w.khugepaged_fork) start (arch_copied-Held _ (k, k₁, k₂)))

  -- What holds after `dup_mmap`.
  abbrev Done : Option Errno × Copying → Type 0
  Done r =
      IsHeld (with_mm_struct r.1.mm.exe_file false c) r.1.mm.mmap r.1.counts
      × (r.1.mm.binfmt ≡ old.binfmt)
      × (r.0 ≡ none → r.1.mm.exe_file ≡ old.exe_file)

  unlock_both-Done : (r : Option Errno × Copying) → Held r → Done (r.0, unlock_both r.1)
  unfolding unlock_both
  unlock_both-Done r h =
      let k = h.0 in
      (
        record {
          accounted = k.accounted;
          areas = k.areas;
          policies = k.policies;
          files = k.files;
          writable = k.writable;
          mms = k.mms;
          pgds = k.pgds;
          contexts = k.contexts;
          user_ns = k.user_ns;
          exe_files = rw (h.1) k.exe_files;
          modules = k.modules;
          uprobes = ground (arith, k.uprobes);
          old_locked = sym free;
        },
        h.2,
        λ e. h.1,
      )

  -- Without the lock nothing is taken.
  killed-Done : Done (some eintr, with_counts (λ d. record d { uprobes = d.uprobes + 1 - 1 }) begun)
  killed-Done =
      let k = IsHeld-none begun.counts in
      (
        record {
          accounted = k.accounted;
          areas = k.areas;
          policies = k.policies;
          files = k.files;
          writable = k.writable;
          mms = refl;
          pgds = refl;
          contexts = refl;
          user_ns = refl;
          exe_files = refl;
          modules = refl;
          uprobes = omega arith;
          old_locked = refl;
        },
        refl,
        λ e. ground arith,
      )

  dup_mmap-Done : Done (dup_mmap vm_stat_account answers w old begun)
  unfolding dup_mmap dup_mm_exe_file
  dup_mmap-Done =
      either Done w.mmap_lock_killed killed-Done
        (unlock_both-Done (dup_areas vm_stat_account answers w old.mmap under_locks) dup_areas-Held)

  -- With a reference to the module of the format.
  IsHeld-module :
      (s : Copying)
      → IsHeld (with_mm_struct s.mm.exe_file false c) s.mm.mmap s.counts
      → s.mm.binfmt ≡ old.binfmt
      → s.mm.exe_file ≡ old.exe_file
      → IsHeld
          (with_mm_struct old.exe_file old.binfmt c)
          s.mm.mmap
          (if s.mm.binfmt then record s.counts { modules = s.counts.modules + 1 } else s.counts)
  IsHeld-module s k e₁ e₂ = record {
    accounted = ground (arith, k.accounted);
    areas = ground (arith, k.areas);
    policies = ground (arith, k.policies);
    files = λ p. ground (arith, k.files p);
    writable = λ p. ground (arith, k.writable p);
    mms = ground (arith, k.mms);
    pgds = ground (arith, k.pgds);
    contexts = ground (arith, k.contexts);
    user_ns = ground (arith, k.user_ns);
    exe_files = ground (arith, k.exe_files);
    modules = ground (arith, k.modules);
    uprobes = ground (arith, k.uprobes);
    old_locked = ground (arith, k.old_locked);
  }

  -- A structure that `mm_init` frees.
  IsHeld-freed :
      (mms pgds : ℕ)
      → mms ≡ c.mms
      → pgds ≡ c.pgds
      → IsHeld c [] (record c { mms = mms; pgds = pgds })
  IsHeld-freed mms pgds e₁ e₂ =
      let k = IsHeld-none c in
      record {
        accounted = k.accounted;
        areas = k.areas;
        policies = k.policies;
        files = k.files;
        writable = k.writable;
        mms = e₁;
        pgds = e₂;
        contexts = refl;
        user_ns = refl;
        exe_files = refl;
        modules = refl;
        uprobes = refl;
        old_locked = refl;
      }

  -- What holds after `dup_mm`.
  pub Balances : Option Mm × Counts → Type 0
  Balances (none, d) = IsHeld c [] d
  Balances (some mm, d) = IsHeld (with_mm_struct old.exe_file old.binfmt c) mm.mmap d

  module _ (x : IsExit w.exit_mmap) where
    areas_copied-Balances :
        (r : Option Errno × Copying) → Done r → Balances (areas_copied vm_stat_account answers w r)
    unfolding Balances areas_copied free_pt
    areas_copied-Balances (some e, s) h =
        mmput-IsHeld vm_stat_account answers w x c (with_mm (λ mm. record mm { binfmt = false }) s)
          h.0
    areas_copied-Balances (none, s) h =
        either Balances (s.mm.binfmt && not w.try_module_get)
          (mmput-IsHeld vm_stat_account answers w x c
            (with_mm (λ mm. record mm { binfmt = false }) s) h.0)
          (IsHeld-module s h.0 h.1 (h.2 refl))

    -- With the lock of the old address space free and an `exit_mmap` that gives back what the areas
    -- hold: where `dup_mm` gives nothing, every count of the kernel is as before, that is
    -- structures, page tables, contexts, references, accounted memory and users of each file; where
    -- it gives an address space, each count has grown by what the structure and its areas hold.
    -- Either way the lock is free.
    pub dup_mm-Balances : Balances (dup_mm vm_stat_account answers w old c)
    unfolding Balances dup_mm mm_init
    dup_mm-Balances =
        let P = λ (r : Bool × Copying). Balances (
          if r.0
          then areas_copied vm_stat_account answers w (dup_mmap vm_stat_account answers w old r.1)
          else (none, r.1.counts)) in
        either Balances (not w.allocate_mm) (IsHeld-none c) (
          either P (not w.mm_alloc_pgd) (IsHeld-freed (c.mms + 1 - 1) c.pgds (omega arith) refl) (
            either P (not w.init_new_context)
              (IsHeld-freed (c.mms + 1 - 1) (c.pgds + 1 - 1) (omega arith) (omega arith))
              (areas_copied-Balances (dup_mmap vm_stat_account answers w old begun) dup_mmap-Done)))
