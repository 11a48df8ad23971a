-- ===== src/Vdso/Setup.antt =====
-- linux-5.15.178/arch/x86/entry/vdso/vma.c: which vdso a new program gets, of the three images of the
-- kernel: `load_vdso32`, `arch_setup_additional_pages` and `compat_arch_setup_additional_pages`.
use oshome_work.Base.{
  ℕ, ◌≡◌, refl, inl, inr, Bool, true, false, not, ◌&&◌, Option, none, some, ◌==◌, if◌then◌else◌,
  Bool-cases,
}
use oshome_work.Vdso.{Errno, VdsoImage}
use oshome_work.Vdso.Map.{MmStruct, map_vdso, Memory}
use oshome_work.Vdso.Map.Layout.{Laid, map_vdso-Laid}
use oshome_work.Vdso.Address.{map_vdso_randomized}

-- CONFIG_X86_X32_ABI and CONFIG_IA32_EMULATION; `vdso64_enabled` and `vdso32_enabled`; the images.
pub record Kernel : Type 0 where
  pub x86_x32_abi : Bool
  pub ia32_emulation : Bool
  pub vdso64_enabled : ℕ
  pub vdso32_enabled : ℕ
  pub vdso_image_64 : VdsoImage
  pub vdso_image_x32 : VdsoImage
  pub vdso_image_32 : VdsoImage

module _ (align_vdso_addr : ℕ → ℕ) (mem : Memory) (task_size : ℕ) (killed : Bool)
    (random window start_stack : ℕ) where
  -- `load_vdso32`
  unfoldable pub load_vdso32 : Kernel → MmStruct → Option Errno × MmStruct
  unfolding map_vdso
  load_vdso32 k mm =
      if not (k.vdso32_enabled == 1)
      then (none, mm)
      else map_vdso mem k.vdso_image_32 task_size killed 0 mm

  -- `if (!vdso64_enabled) return 0; return map_vdso_randomized(image);`
  unfoldable pub load_vdso64 : Kernel → VdsoImage → MmStruct → Option Errno × MmStruct
  unfolding map_vdso_randomized
  load_vdso64 k image mm =
      if k.vdso64_enabled == 0
      then (none, mm)
      else map_vdso_randomized align_vdso_addr mem image task_size killed random window start_stack
          mm

  -- `arch_setup_additional_pages` of a 64-bit kernel
  unfoldable pub arch_setup_additional_pages : Kernel → MmStruct → Option Errno × MmStruct
  unfolding load_vdso64
  arch_setup_additional_pages k mm = load_vdso64 k k.vdso_image_64 mm

  -- `compat_arch_setup_additional_pages`
  unfoldable pub compat_arch_setup_additional_pages :
      Kernel → (x32 : Bool) → MmStruct → Option Errno × MmStruct
  unfolding load_vdso64 load_vdso32
  compat_arch_setup_additional_pages k x32 mm =
      if k.x86_x32_abi && x32
      then load_vdso64 k k.vdso_image_x32 mm
      else if k.ia32_emulation
      then load_vdso32 k mm
      else (none, mm)

-- The image for a program: of 64 bits, with the x32 interface, or of 32 bits.
pub data Program : Type 0 where
  bits_64 bits_x32 bits_32 : Program

image_for_32 : Kernel → Option VdsoImage
image_for_32 k = if k.ia32_emulation && k.vdso32_enabled == 1 then some k.vdso_image_32 else none

pub image_for : Kernel → Program → Option VdsoImage
image_for k bits_64 = if k.vdso64_enabled == 0 then none else some k.vdso_image_64
image_for k bits_x32 =
    if k.x86_x32_abi
    then (if k.vdso64_enabled == 0 then none else some k.vdso_image_x32)
    else image_for_32 k
image_for k bits_32 = image_for_32 k

-- The memory of a program with that image, or with none.
pub IsSetUp : Option VdsoImage → (task_size : ℕ) → MmStruct → Option Errno × MmStruct → Type 0
IsSetUp none task_size m r = r ≡ (none, m)
IsSetUp (some image) task_size m r = Laid image task_size m r

module _ (align_vdso_addr : ℕ → ℕ) (mem : Memory) (task_size : ℕ) (killed : Bool)
    (random window start_stack : ℕ) (m : MmStruct) (free : m.locked ≡ false) where
  abbrev pub setup : Kernel → Program → Option Errno × MmStruct
  setup k bits_64 =
      arch_setup_additional_pages align_vdso_addr mem task_size killed random window start_stack k m
  setup k bits_x32 =
      compat_arch_setup_additional_pages align_vdso_addr mem task_size killed random window
        start_stack k true m
  setup k bits_32 =
      compat_arch_setup_additional_pages align_vdso_addr mem task_size killed random window
        start_stack k false m

  randomized-Laid :
      (image : VdsoImage)
      → Laid image task_size m (
          map_vdso_randomized align_vdso_addr mem image task_size killed random window start_stack
            m)
  unfolding map_vdso_randomized
  randomized-Laid image = map_vdso-Laid mem image task_size _ killed m free

  load_vdso64-IsSetUp :
      (k : Kernel) (image : VdsoImage)
      → IsSetUp
          (if k.vdso64_enabled == 0 then none else some image)
          task_size
          m
          (load_vdso64 align_vdso_addr mem task_size killed random window start_stack k image m)
  unfolding IsSetUp load_vdso64
  load_vdso64-IsSetUp k image = elim (Bool-cases (k.vdso64_enabled == 0)) [
    | inl b ↦ rw (b) refl
    | inr b ↦ rw (b) (randomized-Laid image)
  ]

  compat32-IsSetUp :
      (k : Kernel)
      → IsSetUp (image_for_32 k) task_size m (
          if k.ia32_emulation
          then load_vdso32 align_vdso_addr mem task_size killed random window start_stack k m
          else (none, m))
  unfolding IsSetUp image_for_32 load_vdso32
  compat32-IsSetUp k = elim (Bool-cases k.ia32_emulation) [
    | inl a ↦ elim (Bool-cases (k.vdso32_enabled == 1)) [
      | inl b ↦ rw (a, b) (map_vdso-Laid mem k.vdso_image_32 task_size 0 killed m free)
      | inr b ↦ rw (a, b) refl
    ]
    | inr a ↦ rw (a) refl
  ]

  -- For a new program with the lock of its memory free: where no image is enabled for its kind, of
  -- 64 bits, x32 or 32 bits, nothing changes; otherwise, where anything fails, addresses, context
  -- and lock are as they were, and where nothing fails, the task view, the clock pages and the text
  -- of the image lie side by side, the context holds the image and the start of the text, and no
  -- other address changes.
  pub setup-IsSetUp :
      (k : Kernel) (program : Program) → IsSetUp (image_for k program) task_size m (setup k program)
  unfolding image_for image_for_32 arch_setup_additional_pages compat_arch_setup_additional_pages
      load_vdso32
  setup-IsSetUp k bits_64 = load_vdso64-IsSetUp k k.vdso_image_64
  setup-IsSetUp k bits_x32 = elim (Bool-cases k.x86_x32_abi) [
    | inl a ↦ rw (a) (load_vdso64-IsSetUp k k.vdso_image_x32)
    | inr a ↦ rw (a) (compat32-IsSetUp k)
  ]
  setup-IsSetUp k bits_32 = elim (Bool-cases k.x86_x32_abi) [
    | inl a ↦ rw (a) (compat32-IsSetUp k)
    | inr a ↦ rw (a) (compat32-IsSetUp k)
  ]
