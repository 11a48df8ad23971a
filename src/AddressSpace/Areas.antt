-- ===== src/AddressSpace/Areas.antt =====
-- linux-5.15.178/kernel/fork.c: what the kernel holds after the loop over the areas, wherever it ends.
use oshome_work.Base.{
  ℕ, ◌+◌, ◌-◌, ◌≤◌, ◌≡◌, refl, ◌∙◌, not, ◌&&◌, Option, none, some, List, [], ◌∷◌, arith, is_some,
  either, length-append,
}
use oshome_work.AddressSpace.{
  dup_area, VmStat, copy_areas, copy_area, fail_nomem, fail_nomem_policy, prepare_area,
  fail_nomem_anon_vma_fork, with_counts, AreaAnswers, link_area, share_file, Counts, child_area,
  Copying, VmArea, Errno,
}
use oshome_work.AddressSpace.Charges.{sum-append_one, IsHeld, charge_of, writes_file, uses_file}

child_area-uses :
    (p : ℕ) (v : VmArea) (anon : Option ℕ) → uses_file p (child_area v anon) ≡ uses_file p v
child_area-uses p v anon = refl

-- One more area.
link_area-IsHeld :
    (v : VmArea) (anon : Option ℕ) (a : AreaAnswers) (s : Copying) (c : Counts)
    → IsHeld c s.mm.mmap (record s.counts {
      areas = s.counts.areas - 1;
      policies = s.counts.policies - 1;
      accounted = s.counts.accounted - charge_of v;
    })
    → 1 ≤ s.counts.areas
    → 1 ≤ s.counts.policies
    → charge_of v ≤ s.counts.accounted
    → let t = (link_area v anon a s).1 in IsHeld c t.mm.mmap t.counts
unfolding link_area share_file
link_area-IsHeld v anon a s c h l₁ l₂ l₃ =
    let w = child_area v anon in
    record {
      accounted = ground (arith, h.accounted, sum-append_one charge_of s.mm.mmap w);
      areas = ground (arith, h.areas, length-append s.mm.mmap (w ∷ []));
      policies = ground (arith, h.policies, length-append s.mm.mmap (w ∷ []));
      files = λ p. ground (arith, h.files p, sum-append_one (uses_file p) s.mm.mmap w);
      writable = λ p. ground (arith, h.writable p, sum-append_one (writes_file p) s.mm.mmap w);
      mms = ground (arith, h.mms);
      pgds = ground (arith, h.pgds);
      contexts = ground (arith, h.contexts);
      user_ns = ground (arith, h.user_ns);
      exe_files = ground (arith, h.exe_files);
      modules = ground (arith, h.modules);
      uprobes = ground (arith, h.uprobes);
      old_locked = ground (arith, h.old_locked);
    }

-- What is taken and given back leaves what is held.
same-IsHeld :
    (c : Counts) (mmap : List VmArea) (d : Counts) (accounted areas policies : ℕ)
    → IsHeld c mmap d
    → accounted ≡ d.accounted
    → areas ≡ d.areas
    → policies ≡ d.policies
    → IsHeld c mmap (record d { accounted = accounted; areas = areas; policies = policies })
same-IsHeld c mmap d x y z h e₁ e₂ e₃ = record {
  accounted = e₁ ∙ h.accounted;
  areas = e₂ ∙ h.areas;
  policies = e₃ ∙ h.policies;
  files = h.files;
  writable = h.writable;
  mms = h.mms;
  pgds = h.pgds;
  contexts = h.contexts;
  user_ns = h.user_ns;
  exe_files = h.exe_files;
  modules = h.modules;
  uprobes = h.uprobes;
  old_locked = h.old_locked;
}

module _ (c : Counts) where
  -- What the kernel holds once a step is done.
  abbrev Held : Option Errno × Copying → Type 0
  Held r = IsHeld c r.1.mm.mmap r.1.counts

  -- The kernel with what it has taken for one area.
  abbrev taken : (v : VmArea) (areas policies : ℕ) → Copying → Copying
  taken v areas policies s =
      with_counts
        (λ d. record d {
          accounted = d.accounted + charge_of v;
          areas = areas;
          policies = policies;
        })
        s

  prepare_area-IsHeld :
      (v : VmArea) (a : AreaAnswers) (s : Copying)
      → IsHeld c s.mm.mmap s.counts
      → Held
          (prepare_area (charge_of v) v a (taken v (s.counts.areas + 1) (s.counts.policies + 1) s))
  unfolding prepare_area fail_nomem_anon_vma_fork fail_nomem_policy fail_nomem
  prepare_area-IsHeld v a s h =
      let back =
        same-IsHeld c s.mm.mmap s.counts (s.counts.accounted + charge_of v - charge_of v)
          (s.counts.areas + 1 - 1) (s.counts.policies + 1 - 1) h (omega arith) (omega arith)
          (omega arith) in
      let link = λ (anon : Option ℕ).
        link_area-IsHeld v anon a (taken v (s.counts.areas + 1) (s.counts.policies + 1) s) c back
          (omega arith) (omega arith) (omega arith) in
      either Held (is_some a.dup_userfaultfd) back (
        either Held v.wipeonfork (link none)
          (elim a.anon_vma_fork
            as (λ o. Held (elim o [
              | none ↦
                  fail_nomem_anon_vma_fork (charge_of v)
                    (taken v (s.counts.areas + 1) (s.counts.policies + 1) s)
              | some anon ↦
                  link_area v anon a (taken v (s.counts.areas + 1) (s.counts.policies + 1) s)
            ])) [ none ↦ back | some anon ↦ link anon ]))

  dup_area-IsHeld :
      (v : VmArea) (a : AreaAnswers) (s : Copying)
      → IsHeld c s.mm.mmap s.counts
      → Held (dup_area (charge_of v) v a (taken v s.counts.areas s.counts.policies s))
  unfolding dup_area fail_nomem_policy fail_nomem
  dup_area-IsHeld v a s h =
      let back = λ (areas : ℕ) (e : areas ≡ s.counts.areas).
        same-IsHeld c s.mm.mmap s.counts (s.counts.accounted + charge_of v - charge_of v) areas
          s.counts.policies h (omega arith) e refl in
      either Held (not a.vm_area_dup) (back _ refl)
        (elim a.vma_dup_policy
          as (λ o. Held (elim o [
            | some e ↦
                fail_nomem_policy (charge_of v) (taken v (s.counts.areas + 1) s.counts.policies s)
            | none ↦
                prepare_area (charge_of v) v a
                  (taken v (s.counts.areas + 1) (s.counts.policies + 1) s)
          ])) [
            | some e ↦ back (s.counts.areas + 1 - 1) (omega arith)
            | none ↦ prepare_area-IsHeld v a s h
          ])

  module _ (vm_stat_account : VmArea → VmStat → VmStat) (answers : VmArea → AreaAnswers) where
    copy_area-IsHeld :
        (v : VmArea) (s : Copying)
        → IsHeld c s.mm.mmap s.counts
        → Held (copy_area vm_stat_account answers v s)
    unfolding copy_area fail_nomem
    copy_area-IsHeld v s h = either Held v.dontcopy h (
        either Held (answers v).fatal_signal_pending h (
          either Held (v.account && not (answers v).enough_memory)
            (same-IsHeld c s.mm.mmap s.counts (s.counts.accounted - 0) s.counts.areas
              s.counts.policies h (omega arith) refl refl)
            (dup_area-IsHeld v (answers v) s h)))

    pub copy_areas-IsHeld :
        (vs : List VmArea) (s : Copying)
        → IsHeld c s.mm.mmap s.counts
        → Held (copy_areas vm_stat_account answers vs s)
    unfolding copy_areas
    copy_areas-IsHeld [] s h = h
    copy_areas-IsHeld (v ∷ vs) s h =
        let k = copy_area-IsHeld v s h in
        either Held (is_some (copy_area vm_stat_account answers v s).0) k
          (copy_areas-IsHeld vs (copy_area vm_stat_account answers v s).1 k)
