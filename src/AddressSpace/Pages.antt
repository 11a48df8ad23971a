-- ===== src/AddressSpace/Pages.antt =====
-- linux-5.15.178/kernel/fork.c: which addresses the loop over the areas copies pages to.
use oshome_work.Base.{
  ℕ, zero, suc, ◌+◌, ◌≤◌, ◌<◌, ◌≡◌, ◌∙◌, ◌⊎◌, inl, inr, true, not, ◌&&◌, Option, none, some, List,
  [], ◌∷◌, arith, if◌then◌else◌, is_some, either, either_if, get_elem?,
}
use oshome_work.AddressSpace.{
  with_counts, copy_area, Copying, link_area, prepare_area, fail_nomem, fail_nomem_policy,
  AreaAnswers, fail_nomem_anon_vma_fork, VmArea, copy_areas, dup_area, VmStat, Errno,
}

abbrev pub IsOutside : VmArea → ℕ → Type 0
IsOutside v p = (p < v.vm_start) ⊎ (v.vm_end ≤ p)

-- `copy_page_range` sets the pages of its area only.
pub record IsLocal (answers : VmArea → AreaAnswers) : Type 0 where
  pub local :
      (v : VmArea) (page : ℕ → Option ℕ) (p : ℕ)
      → IsOutside v p
      → ((answers v).copy_page_range page).1 p ≡ page p

-- The areas lie one after the other, from an address on.
unfoldable pub IsOrdered : ℕ → List VmArea → Type 0
IsOrdered start [] = Unit {0}
IsOrdered start (v ∷ vs) = (start ≤ v.vm_start) × (v.vm_start ≤ v.vm_end) × IsOrdered v.vm_end vs

-- An address that no area whose pages are copied holds.
unfoldable pub IsSpared : ℕ → List VmArea → Type 0
IsSpared p [] = Unit {0}
IsSpared p (v ∷ vs) = ((v.wipeonfork ≡ true) ⊎ IsOutside v p) × IsSpared p vs

before-IsSpared : (p start : ℕ) (vs : List VmArea) → p < start → IsOrdered start vs → IsSpared p vs
unfolding IsSpared IsOrdered
before-IsSpared p start [] l h = tt
before-IsSpared p start (v ∷ vs) l h =
    (inr (inl (omega (arith, h.0))), before-IsSpared p v.vm_end vs (omega (arith, h.0, h.1)) h.2)

start-IsOrdered :
    (start i : ℕ) (vs : List VmArea) (x : VmArea)
    → IsOrdered start vs
    → get_elem? vs i ≡ some x
    → start ≤ x.vm_start
unfolding IsOrdered
start-IsOrdered start i [] x h e = ground arith
start-IsOrdered start zero (v ∷ vs) x h e = ground (arith, h.0)
start-IsOrdered start (suc i) (v ∷ vs) x h e =
    omega (arith, h.0, h.1, start-IsOrdered v.vm_end i vs x h.2 e)

pub wiped-IsSpared :
    (p start i : ℕ) (vs : List VmArea) (x : VmArea)
    → IsOrdered start vs
    → get_elem? vs i ≡ some x
    → x.wipeonfork ≡ true
    → x.vm_start ≤ p
    → p < x.vm_end
    → IsSpared p vs
unfolding IsSpared IsOrdered
wiped-IsSpared p start i [] x h e w l l' = tt
wiped-IsSpared p start zero (v ∷ vs) x h e w l l' =
    (inl (ground arith), before-IsSpared p v.vm_end vs (ground arith) h.2)
wiped-IsSpared p start (suc i) (v ∷ vs) x h e w l l' = (
  inr (inr (omega (arith, start-IsOrdered v.vm_end i vs x h.2 e))),
  wiped-IsSpared p v.vm_end i vs x h.2 e w l l',
)

module _ (vm_stat_account : VmArea → VmStat → VmStat) (answers : VmArea → AreaAnswers)
    (local : IsLocal answers) (p : ℕ) where
  -- Nothing comes to the address.
  abbrev Bare : Option Errno × Copying → Type 0
  Bare r = r.1.mm.page p ≡ none

  link_area-Bare :
      (v : VmArea) (anon : Option ℕ) (s : Copying)
      → (v.wipeonfork ≡ true) ⊎ IsOutside v p
      → s.mm.page p ≡ none
      → Bare (link_area v anon (answers v) s)
  unfolding link_area
  link_area-Bare v anon s o e =
      either_if (λ (c : Option Errno × (ℕ → Option ℕ)). c.1 p ≡ none) v.wipeonfork (λ k. e)
        (λ k. elim o [ inl k' ↦ ground arith | inr l ↦ local.local v s.mm.page p l ∙ e ])

  prepare_area-Bare :
      (charge : ℕ) (v : VmArea) (s : Copying)
      → (v.wipeonfork ≡ true) ⊎ IsOutside v p
      → s.mm.page p ≡ none
      → Bare (prepare_area charge v (answers v) s)
  unfolding prepare_area fail_nomem fail_nomem_policy fail_nomem_anon_vma_fork
  prepare_area-Bare charge v s o e = either Bare (is_some (answers v).dup_userfaultfd) e (
      either Bare v.wipeonfork (link_area-Bare v none s o e)
        (elim (answers v).anon_vma_fork
          as (λ a. Bare (elim a [
            | none ↦ fail_nomem_anon_vma_fork charge s
            | some anon ↦ link_area v anon (answers v) s
          ])) [ none ↦ e | some anon ↦ link_area-Bare v anon s o e ]))

  dup_area-Bare :
      (charge : ℕ) (v : VmArea) (s : Copying)
      → (v.wipeonfork ≡ true) ⊎ IsOutside v p
      → s.mm.page p ≡ none
      → Bare (dup_area charge v (answers v) s)
  unfolding dup_area fail_nomem fail_nomem_policy
  dup_area-Bare charge v s o e =
      let t = with_counts (λ c. record c { areas = c.areas + 1 }) s in
      let u = with_counts (λ c. record c { policies = c.policies + 1 }) t in
      either Bare (not (answers v).vm_area_dup) e
        (elim (answers v).vma_dup_policy
          as (λ a. Bare (elim a [
            | some err ↦ fail_nomem_policy charge t
            | none ↦ prepare_area charge v (answers v) u
          ])) [ some err ↦ e | none ↦ prepare_area-Bare charge v u o e ])

  copy_area-Bare :
      (v : VmArea) (s : Copying)
      → (v.wipeonfork ≡ true) ⊎ IsOutside v p
      → s.mm.page p ≡ none
      → Bare (copy_area vm_stat_account answers v s)
  unfolding copy_area fail_nomem
  copy_area-Bare v s o e =
      let charge = (if v.account then v.vma_pages else 0) in
      either Bare v.dontcopy e (
        either Bare (answers v).fatal_signal_pending e (
          either Bare (v.account && not (answers v).enough_memory) e (
            dup_area-Bare charge v
              (with_counts (λ c. record c { accounted = c.accounted + charge }) s) o e)))

  pub copy_areas-Bare :
      (vs : List VmArea) (s : Copying)
      → IsSpared p vs
      → s.mm.page p ≡ none
      → Bare (copy_areas vm_stat_account answers vs s)
  unfolding copy_areas IsSpared
  copy_areas-Bare [] s o e = e
  copy_areas-Bare (v ∷ vs) s o e =
      let k = copy_area-Bare v s o.0 e in
      either Bare (is_some (copy_area vm_stat_account answers v s).0) k
        (copy_areas-Bare vs (copy_area vm_stat_account answers v s).1 o.1 k)
