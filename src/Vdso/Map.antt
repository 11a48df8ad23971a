-- ===== src/Vdso/Map.antt =====
-- linux-5.15.178/arch/x86/entry/vdso/vma.c: `map_vdso` and `map_vdso_once`, which put
-- the vtask, vvar and vdso areas into an address space. The memory manager's `get_unmapped_area`,
-- `_install_special_mapping` and `do_munmap` are the operations of `Memory`, with what their
-- documentation says of them; the dump of the areas on an error is left out.
pub mod Layout
pub mod Once
use oshome_work.Base.{
  ℕ, ◌+◌, ◌≤◌, ◌<◌, ◌≡◌, ◌⊎◌, inl, inr, Bool, true, false, ◌&&◌, ◌||◌, Option, none, some, List, [],
  ◌∷◌, ltb, leb, if◌then◌else◌,
}
use oshome_work.Vdso.{VdsoImage, vtask_size, Errno, eintr, eexist}

-- `vm_private_data` and `name`: which special mapping an area is.
pub data AreaKind : Type 0 where
  vdso_mapping vvar_mapping vtask_mapping other : AreaKind

-- `struct vm_area_struct`: `vm_start`, the length, and the mapping.
pub record Area : Type 0 where
  pub vm_start : ℕ
  pub len : ℕ
  pub kind : AreaKind

-- `struct mm_struct`: its areas, its write lock, and `context.vdso` with `context.vdso_image`.
pub record MmStruct : Type 0 where
  pub mmap : List Area
  pub locked : Bool
  pub vdso : ℕ
  pub vdso_image : Option VdsoImage

abbrev pub overlay : (start len : ℕ) → Option AreaKind → ℕ → Option AreaKind → Option AreaKind
overlay start len k a old = if leb start a && ltb a (start + len) then k else old

-- What is mapped at an address: the first area that holds it.
abbrev pub mapped : List Area → ℕ → Option AreaKind
mapped [] a = none
mapped (x ∷ xs) a = overlay x.vm_start x.len (some x.kind) a (mapped xs a)

-- The memory manager.
pub record Memory : Type 0 where
  pub get_unmapped_area : (addr len : ℕ) → List Area → Errno ⊎ ℕ
  pub install_special_mapping : (start len : ℕ) → AreaKind → List Area → Errno ⊎ List Area
  pub do_munmap : (start len : ℕ) → List Area → List Area
  pub unmapped :
      (addr len start : ℕ) (m : List Area)
      → get_unmapped_area addr len m ≡ inr start
      → (a : ℕ) → start ≤ a
      → a < start + len
      → mapped m a ≡ none
  pub installed :
      (start len : ℕ) (k : AreaKind) (m t : List Area)
      → install_special_mapping start len k m ≡ inr t
      → (a : ℕ) → mapped t a ≡ overlay start len (some k) a (mapped m a)
  pub removed :
      (start len : ℕ) (m : List Area) (a : ℕ)
      → mapped (do_munmap start len m) a ≡ overlay start len none a (mapped m a)

-- `mmap_write_unlock` and `return ret`.
unfoldable pub up_fail : Option Errno → MmStruct → Option Errno × MmStruct
up_fail ret mm = (ret, record mm { locked = false })

module _ (mem : Memory) (image : VdsoImage) (task_size : ℕ) where
  -- After the third installation: the error path, or the context.
  unfoldable pub vtask_installed : ℕ → MmStruct → Errno ⊎ List Area → Option Errno × MmStruct
  unfolding up_fail
  vtask_installed addr mm (inl e) =
      let vvar_start = addr + vtask_size task_size in
      let text_start = addr + vtask_size task_size + image.vvar_size in
      up_fail (some e) (record mm {
        mmap =
            mem.do_munmap vvar_start image.vvar_size (mem.do_munmap text_start image.size mm.mmap);
      })
  vtask_installed addr mm (inr t) = up_fail none (record mm {
    mmap = t;
    vdso = addr + vtask_size task_size + image.vvar_size;
    vdso_image = some image;
  })

  -- After the second one: the error path, or the third.
  unfoldable pub vvar_installed : ℕ → MmStruct → Errno ⊎ List Area → Option Errno × MmStruct
  unfolding vtask_installed
  vvar_installed addr mm (inl e) =
      let text_start = addr + vtask_size task_size + image.vvar_size in
      up_fail (some e) (record mm { mmap = mem.do_munmap text_start image.size mm.mmap })
  vvar_installed addr mm (inr t) =
      vtask_installed addr (record mm { mmap = t })
        (mem.install_special_mapping addr (vtask_size task_size) vtask_mapping t)

  -- After the first one: the error path, or the second.
  unfoldable pub text_installed : ℕ → MmStruct → Errno ⊎ List Area → Option Errno × MmStruct
  unfolding vvar_installed
  text_installed addr mm (inl e) = up_fail (some e) mm
  text_installed addr mm (inr t) =
      let vvar_start = addr + vtask_size task_size in
      vvar_installed addr (record mm { mmap = t })
        (mem.install_special_mapping vvar_start image.vvar_size vvar_mapping t)

  -- After `get_unmapped_area`: its error, or the first installation.
  unfoldable pub area_found : MmStruct → Errno ⊎ ℕ → Option Errno × MmStruct
  unfolding text_installed
  area_found mm (inl e) = up_fail (some e) mm
  area_found mm (inr addr) =
      let text_start = addr + vtask_size task_size + image.vvar_size in
      text_installed addr mm
        (mem.install_special_mapping text_start image.size vdso_mapping mm.mmap)

  -- `map_vdso`: `killed` is the answer of `mmap_write_lock_killable`, `addr` the address asked for.
  unfoldable pub map_vdso : Bool → ℕ → MmStruct → Option Errno × MmStruct
  unfolding area_found
  map_vdso killed addr mm =
      if killed
      then (some eintr, mm)
      else area_found (record mm { locked = true })
          (mem.get_unmapped_area addr (image.size + image.vvar_size + vtask_size task_size) mm.mmap)

-- `vma_is_special_mapping` for the vdso or the vvar mapping.
abbrev pub is_vdso_or_vvar : AreaKind → Bool
is_vdso_or_vvar vdso_mapping = true
is_vdso_or_vvar vvar_mapping = true
is_vdso_or_vvar _ = false

-- The loop of `map_vdso_once` over the areas.
unfoldable pub already_mapped : List Area → Bool
already_mapped [] = false
already_mapped (x ∷ xs) = is_vdso_or_vvar x.kind || already_mapped xs

-- `map_vdso_once`
unfoldable pub map_vdso_once :
    Memory → VdsoImage → ℕ → Bool → ℕ → MmStruct → Option Errno × MmStruct
unfolding already_mapped
map_vdso_once mem image task_size killed addr mm =
    if already_mapped mm.mmap
    then (some eexist, record mm { locked = false })
    else map_vdso mem image task_size killed addr (record mm { locked = false })
