-- ===== src/Vdso.antt =====
-- linux-5.15.178/arch/x86/entry/vdso: the areas that vma.c maps into a process, its page faults, and
-- vgetinfo.c, which reads the task_struct through them. Pages are the 4096 bytes of x86. Addresses
-- and sizes are `unsigned long`s that lie below the user address limit and do not overflow there;
-- `Vdso.Address` and `Vdso.View` write out where they wrap around.
pub mod PageFault
pub mod Map
pub mod Address
pub mod TimeNamespace
pub mod Move
pub mod Setup
pub mod View
mod Intervals
mod Tests
use oshome_work.Base.{ℕ, ◌+◌, ◌*◌, ◌/◌}
use oshome_work.Base.Int.{ℤ}

abbrev pub page_size : ℕ
page_size = 4096

-- `ALIGN(x, PAGE_SIZE)` and `PAGE_ALIGN(x)`.
unfoldable pub page_align : ℕ → ℕ
page_align x = (x + 4095) / 4096 * 4096

-- `VTASK_SIZE`, for a `struct task_struct` of the given size.
unfoldable pub vtask_size : ℕ → ℕ
unfolding page_align
vtask_size task_size = page_align task_size + page_size

-- What the code uses of `struct vdso_image`: offsets from the start of the text, which lie below it
-- for the pages of data. `vvar_size` is `-sym_vvar_start`.
pub record VdsoImage : Type 0 where
  pub size : ℕ
  pub vvar_size : ℕ
  pub sym_vvar_page : ℤ
  pub sym_pvclock_page : ℤ
  pub sym_hvclock_page : ℤ
  pub sym_timens_page : ℤ

-- The error numbers that a call gives back.
pub data Errno : Type 0 where
  eintr eexist efault : Errno
  callee : ℕ → Errno
