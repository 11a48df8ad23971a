-- ===== src/Vdso/Move.antt =====
-- linux-5.15.178/arch/x86/entry/vdso/vma.c: what happens to the areas later. `vdso_join_timens` takes
-- the clock pages away when a task changes its time name space, and `vdso_mremap` follows the text
-- when it is moved; a 32-bit task that is inside of a system call has its return address fixed. The
-- read lock that the first takes and gives back is left out.
use oshome_work.Base.{
  ℕ, ◌+◌, ◌≡◌, refl, ◌∙◌, inl, inr, Bool, true, false, ◌&&◌, ◌||◌, Option, none, some, List, [],
  ◌∷◌, arith, ltb, leb, ◌==◌, if◌then◌else◌, Bool-cases,
}
use oshome_work.Vdso.Map.{MmStruct, Area, AreaKind, vvar_mapping}

-- `vma_is_special_mapping(vma, &vvar_mapping)`
abbrev pub is_vvar : AreaKind → Bool
is_vvar vvar_mapping = true
is_vvar _ = false

-- `vdso_join_timens`, on the page table of the process; `zap_page_range` is the argument.
unfoldable pub vdso_join_timens :
    ((start size : ℕ) → (ℕ → Option ℕ) → ℕ → Option ℕ) → List Area → (ℕ → Option ℕ) → ℕ → Option ℕ
vdso_join_timens zap_page_range [] page = page
vdso_join_timens zap_page_range (x ∷ xs) page =
    vdso_join_timens zap_page_range xs
      (if is_vvar x.kind then zap_page_range x.vm_start x.len page else page)

-- Whether a clock page can lie at an address.
unfoldable pub in_vvar : List Area → ℕ → Bool
in_vvar [] p = false
in_vvar (x ∷ xs) p =
    is_vvar x.kind && (leb x.vm_start p && ltb p (x.vm_start + x.len)) || in_vvar xs p

-- `zap_page_range` takes the pages of the range away and no other.
pub record IsZap (zap_page_range : (start size : ℕ) → (ℕ → Option ℕ) → ℕ → Option ℕ) : Type 0 where
  pub zaps :
      (start size : ℕ) (page : ℕ → Option ℕ) (p : ℕ)
      → zap_page_range start size page p
        ≡ (if leb start p && ltb p (start + size) then none else page p)

-- With a `zap_page_range` that takes away the pages of its range and no other, `vdso_join_timens`
-- takes away every page that lies in a vvar area and leaves every other page as it was.
pub vdso_join_timens-in_vvar :
    (zap_page_range : (start size : ℕ) → (ℕ → Option ℕ) → ℕ → Option ℕ) (xs : List Area)
    (page : ℕ → Option ℕ) (p : ℕ)
    → IsZap zap_page_range
    → vdso_join_timens zap_page_range xs page p ≡ (if in_vvar xs p then none else page p)
unfolding vdso_join_timens in_vvar
vdso_join_timens-in_vvar zap [] page p z = refl
vdso_join_timens-in_vvar zap (x ∷ xs) page p z =
    vdso_join_timens-in_vvar zap xs (if is_vvar x.kind then zap x.vm_start x.len page else page) p z
    ∙ elim (Bool-cases (is_vvar x.kind)) [
      | inl e ↦ rw e (ground (arith, z.zaps x.vm_start x.len page p))
      | inr e ↦ rw e refl
    ]

-- The registers of a task inside of a 32-bit call, with the symbols of `vdso_image_32`.
pub record Call32 : Type 0 where
  pub ip : ℕ
  pub sym_int80_landing_pad : ℕ
  pub sigreturn_landing_pad : ℕ
  pub rt_sigreturn_landing_pad : ℕ

-- `vdso_fix_landing`; there is no such call for another image or outside of a 32-bit call.
unfoldable pub vdso_fix_landing : Option Call32 → (vdso new_start : ℕ) → Option Call32
vdso_fix_landing none vdso new_start = none
vdso_fix_landing (some c) vdso new_start =
    if c.ip == c.sym_int80_landing_pad + vdso
    then some (record c { ip = new_start + c.sym_int80_landing_pad })
    else some c

-- `vdso_mremap`
unfoldable pub vdso_mremap : (new_start : ℕ) → Option Call32 → MmStruct → Option Call32 × MmStruct
unfolding vdso_fix_landing
vdso_mremap new_start c mm = (vdso_fix_landing c mm.vdso new_start, record mm { vdso = new_start })

-- `arch_syscall_is_vdso_sigreturn`
unfoldable pub arch_syscall_is_vdso_sigreturn : Option Call32 → MmStruct → Bool
arch_syscall_is_vdso_sigreturn none mm = false
arch_syscall_is_vdso_sigreturn (some c) mm =
    c.ip == mm.vdso + c.sigreturn_landing_pad || c.ip == mm.vdso + c.rt_sigreturn_landing_pad

-- A task that stands at the landing pad stands there after the move, and any other stays.
vdso_mremap-ip :
    (new_start : ℕ) (c : Call32) (mm : MmStruct) (d : Call32)
    → (vdso_mremap new_start (some c) mm).0 ≡ some d
    → d.ip ≡ (
        if c.ip == c.sym_int80_landing_pad + mm.vdso
        then (vdso_mremap new_start (some c) mm).1.vdso + c.sym_int80_landing_pad
        else c.ip)
unfolding vdso_mremap vdso_fix_landing
vdso_mremap-ip new_start c mm d e = ground arith
