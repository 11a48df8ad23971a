-- ===== src/Vdso/Map/Once.antt =====
-- linux-5.15.178/arch/x86/entry/vdso/vma.c: `map_vdso_once` never maps a second vdso.
use oshome_work.Base.{
  ℕ, ◌<◌, ◌≡◌, sym, ap, ◌≢◌, inl, inr, Bool, true, false, Option, none, some, List, [], ◌∷◌, arith,
  Bool-cases,
}
use oshome_work.Vdso.{Errno, eexist, VdsoImage}
use oshome_work.Vdso.Map.Layout.{Laid, map_vdso-Laid}
use oshome_work.Vdso.Map.{
  mapped, map_vdso_once, is_vdso_or_vvar, map_vdso, AreaKind, Memory, Area, vdso_mapping,
  already_mapped, MmStruct,
}

already_mapped-mapped :
    (xs : List Area) (a : ℕ) → mapped xs a ≡ some vdso_mapping → already_mapped xs ≡ true
unfolding already_mapped
already_mapped-mapped [] a h = ground arith
already_mapped-mapped (x ∷ xs) a h = elim (Bool-cases (is_vdso_or_vvar x.kind)) [
  | inl e ↦ ground arith
  | inr e ↦ ground (arith, already_mapped-mapped xs a, other_kind x.kind e)
]
  where
    other_kind : (k : AreaKind) → is_vdso_or_vvar k ≡ false → k ≢ vdso_mapping
    other_kind k e q = ground arith

-- After a `map_vdso` that was called with the lock free and ended without an error, for an image
-- that has a text, every `map_vdso_once` fails with EEXIST and changes nothing.
pub map_vdso_once-map_vdso :
    (mem : Memory) (image image' : VdsoImage) (n n' addr addr' : ℕ) (killed killed' : Bool)
    (m : MmStruct)
    → m.locked ≡ false
    → 0 < image.size
    → (map_vdso mem image n killed addr m).0 ≡ none
    → let t = (map_vdso mem image n killed addr m).1 in
      map_vdso_once mem image' n' killed' addr' t ≡ (some eexist, t)
unfolding map_vdso_once Laid
map_vdso_once-map_vdso mem image image' n n' addr addr' killed killed' m free text fine =
    go _ (map_vdso-Laid mem image n addr killed m free) fine
  where
    go :
        (r : Option Errno × MmStruct)
        → Laid image n m r
        → r.0 ≡ none
        → map_vdso_once mem image' n' killed' addr' r.1 ≡ (some eexist, r.1)
    go (none, t) laid e =
        rw (already_mapped-mapped t.mmap t.vdso (laid.text t.vdso (omega arith) (omega arith)))
          (ap (λ b. (some eexist, record t { locked = b })) (sym laid.unlocked))
    go (some x, t) laid e = ground arith
