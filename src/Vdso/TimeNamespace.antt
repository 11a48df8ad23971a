-- ===== src/Vdso/TimeNamespace.antt =====
-- linux-5.15.178/arch/x86/entry/vdso/vma.c: which clock page `vvar_fault` shows where.
use oshome_work.Base.{ℕ, ◌*◌, ◌≡◌, false, none, some, arith}
use oshome_work.Base.Int.{ℤ, pos, ◌-ℤ◌, eq_ℤ, eq_ℤ_self, sub_ℕ}
use oshome_work.Vdso.{page_size, VdsoImage}
use oshome_work.Vdso.PageFault.{Clocks, frame, two_frames, sigbus, vvar_fault, vvar_page_fault}

-- A page of the vvar area at a symbol of the image.
abbrev IsAt : VdsoImage → ℕ → ℤ → Type 0
IsAt image pgoff symbol = sub_ℕ (pgoff * page_size) image.vvar_size ≡ symbol

-- For an image whose vvar and name space symbols are not 0, with the second one different from the
-- other three, and an early insertion that succeeds: outside of a time name space the vvar page
-- shows the system's clocks and the page of the name space nothing; inside of one the first shows
-- the clocks of the name space, with the system's put at the second, and the second shows the
-- system's.
pub vvar_fault-timens :
    (image : VdsoImage) (k : Clocks) (p q : ℕ)
    → IsAt image p image.sym_vvar_page
    → IsAt image q image.sym_timens_page
    → eq_ℤ image.sym_vvar_page (pos 0) ≡ false
    → eq_ℤ image.sym_timens_page (pos 0) ≡ false
    → eq_ℤ image.sym_timens_page image.sym_vvar_page ≡ false
    → eq_ℤ image.sym_timens_page image.sym_pvclock_page ≡ false
    → eq_ℤ image.sym_timens_page image.sym_hvclock_page ≡ false
    → k.insert_fails ≡ false
    → (vvar_fault (some image) p k ≡ elim k.timens_frame [
      | none ↦ frame k.vvar_frame
      | some t ↦ two_frames (image.sym_timens_page -ℤ image.sym_vvar_page) k.vvar_frame t
    ])
      × (vvar_fault (some image) q k
          ≡ elim k.timens_frame [ none ↦ sigbus | some t ↦ frame k.vvar_frame ])
unfolding vvar_fault vvar_page_fault
vvar_fault-timens image k p q hp hq v t tv tp th inserts = (
  ground (arith, hp, eq_ℤ_self image.sym_vvar_page),
  ground (arith, hq, eq_ℤ_self image.sym_timens_page),
)
