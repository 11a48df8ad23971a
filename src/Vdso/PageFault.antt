-- ===== src/Vdso/PageFault.antt =====
-- linux-5.15.178/arch/x86/entry/vdso/vma.c: the page fault handlers of the three areas. A handler
-- gets the page number in its area; what it puts there is the result.
use oshome_work.Base.{
  ℕ, ◌+◌, ◌-◌, ◌*◌, ◌/◌, ◌%◌, Bool, Option, none, some, leb, ◌==◌, if◌then◌else◌,
}
use oshome_work.Base.Int.{ℤ, pos, ◌-ℤ◌, eq_ℤ, sub_ℕ}
use oshome_work.Vdso.{VdsoImage, page_size, vtask_size}

-- What a page fault ends in. `view_page` is the fresh page with `struct my_task_struct_view`.
pub data FaultResult : Type 0 where
  sigbus oom : FaultResult
  image_page : ℕ → FaultResult  -- the page of the image at a byte offset
  frame : ℕ → FaultResult  -- a page frame number
  two_frames : ℤ → ℕ → ℕ → FaultResult  -- one more frame, at an offset from the faulting address
  insert_error : FaultResult
  view_page : (page_offset pid : ℕ) → FaultResult

-- `vdso_fault`
unfoldable pub vdso_fault : Option VdsoImage → ℕ → FaultResult
vdso_fault none pgoff = sigbus
vdso_fault (some image) pgoff =
    if leb image.size (pgoff * page_size) then sigbus else image_page (pgoff * page_size)

-- What `vvar_fault` reads elsewhere: the frames of `__vvar_page`, of the time name space, of the two
-- clock pages if they are there and in use, and whether the early insertion fails.
pub record Clocks : Type 0 where
  pub vvar_frame : ℕ
  pub timens_frame : Option ℕ
  pub pvclock_frame : Option ℕ
  pub hvclock_frame : Option ℕ
  pub insert_fails : Bool

abbrev frame_or_sigbus : Option ℕ → FaultResult
frame_or_sigbus none = sigbus
frame_or_sigbus (some n) = frame n

-- `sym_offset == image->sym_vvar_page`
unfoldable pub vvar_page_fault : VdsoImage → ℤ → Clocks → FaultResult
vvar_page_fault image sym_offset k = elim k.timens_frame [
  | none ↦ frame k.vvar_frame
  | some t ↦
      if k.insert_fails
      then insert_error
      else two_frames (image.sym_timens_page -ℤ sym_offset) k.vvar_frame t
]

-- `vvar_fault`
unfoldable pub vvar_fault : Option VdsoImage → ℕ → Clocks → FaultResult
unfolding vvar_page_fault
vvar_fault none pgoff k = sigbus
vvar_fault (some image) pgoff k =
    let sym_offset = sub_ℕ (pgoff * page_size) image.vvar_size in
    if eq_ℤ sym_offset (pos 0)
    then sigbus
    else (if eq_ℤ sym_offset image.sym_vvar_page
        then vvar_page_fault image sym_offset k
        else (if eq_ℤ sym_offset image.sym_pvclock_page
            then frame_or_sigbus k.pvclock_frame
            else (if eq_ℤ sym_offset image.sym_hvclock_page
                then frame_or_sigbus k.hvclock_frame
                else (if eq_ℤ sym_offset image.sym_timens_page
                    then elim k.timens_frame [ none ↦ sigbus | some t ↦ frame k.vvar_frame ]
                    else sigbus))))

-- `vtask_fault`: `pa` is the physical address of `current`, `room` whether a page can be allocated.
-- Physical memory is mapped linearly, so the address of the byte `n` of the task is `pa + n`.
unfoldable pub vtask_fault : (task_size pa pid : ℕ) → Bool → ℕ → FaultResult
unfolding vtask_size
vtask_fault task_size pa pid room pgoff =
    if leb (vtask_size task_size) (pgoff * page_size)
    then sigbus
    else (if pgoff == 0
        then (if room then view_page (pa % page_size) pid else oom)
        else frame ((pa + pgoff * page_size - page_size) / page_size))
