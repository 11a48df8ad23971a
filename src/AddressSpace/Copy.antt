-- ===== src/AddressSpace/Copy.antt =====
-- linux-5.15.178/kernel/fork.c: the address space that `dup_mm` gives.
use oshome_work.Base.{
  ℕ, ◌+◌, ◌≡◌, refl, sym, ap, ◌∙◌, subst, inl, inr, Bool, true, false, not, ◌&&◌, Option, none,
  some, List, [], ◌∷◌, ◌++◌, arith, if◌then◌else◌, Bool-cases, is_some, either, either_if, length,
  length-append,
}
use mathlib.Core.List.{append-nil, append_assoc}
use oshome_work.AddressSpace.{
  copy_areas, copy_area, dup_area, Counts, AreaAnswers, Copying, prepare_area, child_area, VmStat,
  fail_nomem, link_area, fail_nomem_policy, fail_nomem_anon_vma_fork, VmArea, enomem, Errno,
}

abbrev pub or_none : Option (Option ℕ) → Option ℕ
or_none none = none
or_none (some o) = o

-- What the copy of an area is: the area, but not locked, and without anonymous memory where it is
-- wiped on a fork.
pub copy_of : VmArea → Option ℕ → VmArea
copy_of v anon = record v {
  anon_vma = if v.wipeonfork then none else anon;
  locked = false;
  lockonfault = false;
}

module _ (vm_stat_account : VmArea → VmStat → VmStat) (answers : VmArea → AreaAnswers) where
  -- The areas of the new address space: those of the old one, in order, but for VM_DONTCOPY.
  pub children : List VmArea → List VmArea
  children [] = []
  children (v ∷ vs) =
      if v.dontcopy
      then children vs
      else copy_of v (or_none (answers v).anon_vma_fork) ∷ children vs

  -- The statistics without the areas that are left out.
  pub without : List VmArea → VmStat → VmStat
  without [] st = st
  without (v ∷ vs) st = without vs (if v.dontcopy then vm_stat_account v st else st)

module _ (v : VmArea) (s : Copying) where
  -- A step that does not fail links the copy of the area.
  abbrev Linked : Option ℕ → Option Errno × Copying → Type 0
  Linked anon r =
      r.0 ≡ none
      → (r.1.mm.mmap ≡ s.mm.mmap ++ child_area v anon ∷ [])
        × (r.1.mm.map_count ≡ s.mm.map_count + 1)
        × (r.1.mm.stat ≡ s.mm.stat)

  fails-Linked :
      (anon : Option ℕ) (r : Option Errno × Copying) (e : Errno) → r.0 ≡ some e → Linked anon r
  fails-Linked anon r e q q' = ground arith

  -- The kernel's counts do not matter.
  link_area-Linked :
      (a : AreaAnswers) (c : Counts) (anon : Option ℕ)
      → Linked anon (link_area v anon a (record s { counts = c }))
  unfolding link_area
  link_area-Linked a c anon e = (refl, refl, refl)

  child_area-wiped : v.wipeonfork ≡ true → (anon : Option ℕ) → child_area v none ≡ child_area v anon
  child_area-wiped e anon =
      ap (λ (o : Option ℕ). record v { anon_vma = o; locked = false; lockonfault = false })
        (ground arith)

  prepare_area-Linked :
      (a : AreaAnswers) (c : Counts) (charge : ℕ)
      → Linked (or_none a.anon_vma_fork) (prepare_area charge v a (record s { counts = c }))
  unfolding prepare_area fail_nomem_anon_vma_fork fail_nomem_policy fail_nomem
  prepare_area-Linked a c charge =
      let n = or_none a.anon_vma_fork in
      let u = record s { counts = c } in
      let failed = fails-Linked n (fail_nomem_anon_vma_fork charge u) enomem refl in
      either (Linked n) (is_some a.dup_userfaultfd) failed (
        either_if (Linked n) v.wipeonfork
          (λ e.
            subst
              (λ w.
                (q : (link_area v none a u).0 ≡ none)
                → ((link_area v none a u).1.mm.mmap ≡ s.mm.mmap ++ w ∷ [])
                  × ((link_area v none a u).1.mm.map_count ≡ s.mm.map_count + 1)
                  × ((link_area v none a u).1.mm.stat ≡ s.mm.stat))
              (child_area-wiped e n) (link_area-Linked a c none))
          (λ e.
            elim a.anon_vma_fork
              as (λ o. Linked (or_none o) (elim o [
                | none ↦ fail_nomem_anon_vma_fork charge u
                | some anon ↦ link_area v anon a u
              ])) [
                | none ↦ fails-Linked none (fail_nomem_anon_vma_fork charge u) enomem refl
                | some anon ↦ link_area-Linked a c anon
              ]))

  dup_area-Linked :
      (a : AreaAnswers) (c : Counts) (charge : ℕ)
      → Linked (or_none a.anon_vma_fork) (dup_area charge v a (record s { counts = c }))
  unfolding dup_area fail_nomem_policy fail_nomem
  dup_area-Linked a c charge =
      let n = or_none a.anon_vma_fork in
      let u = record s { counts = c } in
      let t = record s { counts = record c { areas = c.areas + 1 } } in
      either (Linked n) (not a.vm_area_dup) (fails-Linked n (fail_nomem charge u) enomem refl)
        (elim a.vma_dup_policy
          as (λ o. Linked n (elim o [
            | some e ↦ fail_nomem_policy charge t
            | none ↦
                prepare_area charge v a (record s {
                  counts = record c { areas = c.areas + 1; policies = c.policies + 1 };
                })
          ])) [
            | some e ↦ fails-Linked n (fail_nomem_policy charge t) enomem refl
            | none ↦
                prepare_area-Linked a (record c { areas = c.areas + 1; policies = c.policies + 1 })
                  charge
          ])

module _ (vm_stat_account : VmArea → VmStat → VmStat) (answers : VmArea → AreaAnswers) where
  -- The copies of some areas are linked, and the others are left out of the statistics.
  pub record IsExtended (s : Copying) (vs : List VmArea) (t : Copying) : Type 0 where
    pub mmap : t.mm.mmap ≡ s.mm.mmap ++ children vm_stat_account answers vs
    pub map_count : t.mm.map_count ≡ s.mm.map_count + length (children vm_stat_account answers vs)
    pub stat : t.mm.stat ≡ without vm_stat_account answers vs s.mm.stat

  children-dontcopy :
      (v : VmArea) (vs : List VmArea)
      → v.dontcopy ≡ true
      → children vm_stat_account answers (v ∷ vs) ≡ children vm_stat_account answers vs
  unfolding children
  children-dontcopy v vs e = rw e refl

  children-copy_of :
      (v : VmArea) (vs : List VmArea)
      → v.dontcopy ≡ false
      → children vm_stat_account answers (v ∷ vs)
        ≡ child_area v (or_none (answers v).anon_vma_fork) ∷ children vm_stat_account answers vs
  unfolding children copy_of
  children-copy_of v vs e = rw e refl

  copy_area-IsExtended :
      (v : VmArea) (s : Copying)
      → (copy_area vm_stat_account answers v s).0 ≡ none
      → IsExtended s (v ∷ []) (copy_area vm_stat_account answers v s).1
  unfolding copy_area children without fail_nomem
  copy_area-IsExtended v s =
      let P = λ (r : Option Errno × Copying). r.0 ≡ none → IsExtended s (v ∷ []) r.1 in
      let n = or_none (answers v).anon_vma_fork in
      let charge = (if v.account then v.vma_pages else 0) in
      let d = record s.counts { accounted = s.counts.accounted + charge } in
      either_if P v.dontcopy
        (λ e q.
          let k = children-dontcopy v [] e in
          record {
            mmap = sym (append-nil s.mm.mmap) ∙ ap (λ ws. s.mm.mmap ++ ws) (sym k);
            map_count = ground (arith, ap length k);
            stat = rw e refl;
          })
        (λ e.
          either P (answers v).fatal_signal_pending (λ q. ground arith)
            (either P (v.account && not (answers v).enough_memory) (λ q. ground arith)
              (λ q.
                let (k₁, k₂, k₃) = dup_area-Linked v s (answers v) d charge q in
                let k = children-copy_of v [] e in
                record {
                  mmap = k₁ ∙ ap (λ ws. s.mm.mmap ++ ws) (sym k);
                  map_count = k₂ ∙ ap (λ (ws : List VmArea). s.mm.map_count + length ws) (sym k);
                  stat =
                      k₃
                      ∙ sym (
                          ap (λ (b : Bool). if b then vm_stat_account v s.mm.stat else s.mm.stat)
                            e);
                })))

  children-append :
      (v : VmArea) (vs : List VmArea)
      → children vm_stat_account answers (v ∷ []) ++ children vm_stat_account answers vs
        ≡ children vm_stat_account answers (v ∷ vs)
  unfolding children
  children-append v vs = elim (Bool-cases v.dontcopy) [ inl e ↦ rw e refl | inr e ↦ rw e refl ]

  pub copy_areas-IsExtended :
      (vs : List VmArea) (s : Copying)
      → (copy_areas vm_stat_account answers vs s).0 ≡ none
      → IsExtended s vs (copy_areas vm_stat_account answers vs s).1
  unfolding copy_areas children without
  copy_areas-IsExtended [] s =
      λ e. record { mmap = sym (append-nil s.mm.mmap); map_count = omega arith; stat = refl }
  copy_areas-IsExtended (v ∷ vs) s =
      let P = λ (r : Option Errno × Copying). r.0 ≡ none → IsExtended s (v ∷ vs) r.1 in
      let t = (copy_area vm_stat_account answers v s).1 in
      either_if P (is_some (copy_area vm_stat_account answers v s).0) (λ e q. ground arith)
        (λ e q.
          let h = copy_area-IsExtended v s (ground arith) in
          let k = copy_areas-IsExtended vs t q in
          record {
            mmap =
                k.mmap
                ∙ ap (λ ws. ws ++ children vm_stat_account answers vs) h.mmap
                ∙ append_assoc s.mm.mmap (children vm_stat_account answers (v ∷ []))
                    (children vm_stat_account answers vs)
                ∙ ap (λ ws. s.mm.mmap ++ ws) (children-append v vs);
            map_count =
                k.map_count
                ∙ omega (
                  arith,
                  h.map_count,
                  ap length (children-append v vs),
                  length-append (children vm_stat_account answers (v ∷ []))
                      (children vm_stat_account answers vs),
                );
            stat = k.stat ∙ ap (λ st. without vm_stat_account answers vs st) h.stat;
          })
