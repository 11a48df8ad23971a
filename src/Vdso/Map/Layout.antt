-- ===== src/Vdso/Map/Layout.antt =====
-- linux-5.15.178/arch/x86/entry/vdso/vma.c: what `map_vdso` leaves behind, whatever fails.
use oshome_work.Base.{
  ℕ, ◌+◌, ◌≤◌, ◌<◌, ◌≡◌, refl, ◌⊎◌, inl, inr, Bool, true, false, Option, none, some, List, arith,
}
use oshome_work.Vdso.{VdsoImage, vtask_size, Errno}
use oshome_work.Vdso.Map.{
  vvar_installed, area_found, vtask_installed, map_vdso, text_installed, MmStruct, mapped, overlay,
  vdso_mapping, up_fail, vtask_mapping, vvar_mapping, Memory, Area,
}

-- The three areas side by side from `start`, and nothing else changed.
pub record IsLaid (image : VdsoImage) (task_size : ℕ) (m t : MmStruct) : Type 0 where
  pub start : ℕ
  pub unlocked : t.locked ≡ false
  pub context : t.vdso ≡ start + vtask_size task_size + image.vvar_size
  pub of_image : t.vdso_image ≡ some image
  pub vtask :
      (a : ℕ) → start ≤ a → a < start + vtask_size task_size → mapped t.mmap a ≡ some vtask_mapping
  pub vvar :
      (a : ℕ)
      → start + vtask_size task_size ≤ a
      → a < start + vtask_size task_size + image.vvar_size
      → mapped t.mmap a ≡ some vvar_mapping
  pub text : (a : ℕ) → t.vdso ≤ a → a < t.vdso + image.size → mapped t.mmap a ≡ some vdso_mapping
  pub others : (a : ℕ) → (a < start) ⊎ (t.vdso + image.size ≤ a) → mapped t.mmap a ≡ mapped m.mmap a

-- The address space as before.
pub record IsUnchanged (m t : MmStruct) : Type 0 where
  pub same : (a : ℕ) → mapped t.mmap a ≡ mapped m.mmap a
  pub unlocked : t.locked ≡ false
  pub context : t.vdso ≡ m.vdso
  pub of_image : t.vdso_image ≡ m.vdso_image

unfoldable pub Laid : VdsoImage → ℕ → MmStruct → Option Errno × MmStruct → Type 0
Laid image task_size m (none, t) = IsLaid image task_size m t
Laid image task_size m (some e, t) = IsUnchanged m t

module _ (mem : Memory) (image : VdsoImage) (n : ℕ) (m : MmStruct) (start : ℕ) where
  text_start : ℕ
  text_start = start + vtask_size n + image.vvar_size

  vtask_installed-Laid :
      ((a : ℕ)
        → start ≤ a
        → a < start + (image.size + image.vvar_size + vtask_size n)
        → mapped m.mmap a ≡ none)
      → (t u : List Area)
      → ((a : ℕ)
          → mapped t a ≡ overlay text_start image.size (some vdso_mapping) a (mapped m.mmap a))
      → ((a : ℕ)
          → mapped u a
            ≡ overlay (start + vtask_size n) image.vvar_size (some vvar_mapping) a (mapped t a))
      → (o : Errno ⊎ List Area)
      → mem.install_special_mapping start (vtask_size n) vtask_mapping u ≡ o
      → Laid image n m (vtask_installed mem image n start (record m { mmap = u; locked = true }) o)
  unfolding vtask_installed up_fail Laid text_start
  vtask_installed-Laid free t u ht hu (inl e) h = record {
    same = λ a. ground (
      arith,
      ht a,
      hu a,
      free a,
      mem.removed (start + vtask_size n) image.vvar_size once a,
      mem.removed text_start image.size u a,
    );
    unlocked = refl;
    context = refl;
    of_image = refl;
  }
    where
      once : List Area
      once = mem.do_munmap text_start image.size u
  vtask_installed-Laid free t u ht hu (inr w) h =
      let last = mem.installed start (vtask_size n) vtask_mapping u w h in
      record {
        start = start;
        unlocked = refl;
        context = refl;
        of_image = refl;
        vtask = λ a p q. ground (arith, last a);
        vvar = λ a p q. ground (arith, hu a, last a);
        text = λ a p q. ground (arith, ht a, hu a, last a);
        others = λ a p. ground (arith, ht a, hu a, last a);
      }

  vvar_installed-Laid :
      ((a : ℕ)
        → start ≤ a
        → a < start + (image.size + image.vvar_size + vtask_size n)
        → mapped m.mmap a ≡ none)
      → (t : List Area)
      → ((a : ℕ)
          → mapped t a ≡ overlay text_start image.size (some vdso_mapping) a (mapped m.mmap a))
      → (o : Errno ⊎ List Area)
      → mem.install_special_mapping (start + vtask_size n) image.vvar_size vvar_mapping t ≡ o
      → Laid image n m (vvar_installed mem image n start (record m { mmap = t; locked = true }) o)
  unfolding vvar_installed up_fail Laid text_start
  vvar_installed-Laid free t ht (inl e) h = record {
    same = λ a. ground (arith, ht a, free a, mem.removed text_start image.size t a);
    unlocked = refl;
    context = refl;
    of_image = refl;
  }
  vvar_installed-Laid free t ht (inr u) h =
      vtask_installed-Laid free t u ht (mem.installed _ _ _ t u h) _ refl

  text_installed-Laid :
      ((a : ℕ)
        → start ≤ a
        → a < start + (image.size + image.vvar_size + vtask_size n)
        → mapped m.mmap a ≡ none)
      → (o : Errno ⊎ List Area)
      → mem.install_special_mapping text_start image.size vdso_mapping m.mmap ≡ o
      → Laid image n m (text_installed mem image n start (record m { locked = true }) o)
  unfolding text_installed up_fail Laid text_start
  text_installed-Laid free (inl e) h = record {
    same = λ a. refl;
    unlocked = refl;
    context = refl;
    of_image = refl;
  }
  text_installed-Laid free (inr t) h =
      vvar_installed-Laid free t (mem.installed _ _ _ m.mmap t h) _ refl

area_found-Laid :
    (mem : Memory) (image : VdsoImage) (n addr : ℕ) (m : MmStruct) (o : Errno ⊎ ℕ)
    → mem.get_unmapped_area addr (image.size + image.vvar_size + vtask_size n) m.mmap ≡ o
    → Laid image n m (area_found mem image n (record m { locked = true }) o)
unfolding area_found up_fail Laid text_start
area_found-Laid mem image n addr m (inl e) h = record {
  same = λ a. refl;
  unlocked = refl;
  context = refl;
  of_image = refl;
}
area_found-Laid mem image n addr m (inr start) h =
    text_installed-Laid mem image n m start (mem.unmapped _ _ start m.mmap h) _ refl

-- Called with the lock of the address space free, `map_vdso` leaves addresses, context and lock as
-- they were where anything fails; where nothing fails, the task view, the clock pages and the text
-- lie side by side, the context holds the image and the start of the text, and no other address
-- changes.
pub map_vdso-Laid :
    (mem : Memory) (image : VdsoImage) (n addr : ℕ) (killed : Bool) (m : MmStruct)
    → m.locked ≡ false
    → Laid image n m (map_vdso mem image n killed addr m)
unfolding map_vdso Laid
map_vdso-Laid mem image n addr true m h = record {
  same = λ a. refl;
  unlocked = h;
  context = refl;
  of_image = refl;
}
map_vdso-Laid mem image n addr false m h = area_found-Laid mem image n addr m _ refl
