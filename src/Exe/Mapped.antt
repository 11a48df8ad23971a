-- ===== src/Exe/Mapped.antt =====
-- linux-5.15.178/kernel/fork.c: whether the executable is still mapped, and which error
-- `replace_mm_exe_file` gives for it.
use oshome_work.Base.{
  ℕ, zero, suc, ◌≤◌, ◌≡◌, refl, subst, inl, inr, Bool, true, false, Option, none, some, List, [],
  ◌∷◌, arith, ltb, if◌then◌else◌, Bool-cases, get_elem?,
}
use oshome_work.Exe.{is_mapped, ExeMm, Files, Errno, ebusy, eacces}

-- The executable is still mapped: some area is of a file with its path.
pub StillMapped : (ℕ → ℕ → Bool) → ExeMm → Type 0
StillMapped path_equal mm =
    (g i h : ℕ) × (mm.exe_file ≡ some g)
    × (get_elem? mm.vm_files i ≡ some (some h))
    × (path_equal h g ≡ true)

-- Which error comes when, for a new file with so many writers.
pub record IsAnswer (path_equal : ℕ → ℕ → Bool) (mm : ExeMm) (writers : ℕ) (r : Option Errno)
    : Type 0 where
  pub busy : StillMapped path_equal mm → r ≡ some ebusy
  pub denied : ¬ (StillMapped path_equal mm) → 1 ≤ writers → r ≡ some eacces
  pub done : ¬ (StillMapped path_equal mm) → writers ≡ 0 → r ≡ none

module _ (path_equal : ℕ → ℕ → Bool) (g : ℕ) where
  -- What the loop over the areas finds.
  mapped_at :
      (vs : List (Option ℕ))
      → is_mapped path_equal g vs ≡ true
      → (i h : ℕ) × (get_elem? vs i ≡ some (some h)) × (path_equal h g ≡ true)
  unfolding is_mapped
  mapped_at [] e = absurd (ground arith)
  mapped_at (none ∷ vs) e = let (i, h, q, k) = mapped_at vs e in (suc i, h, q, k)
  mapped_at (some h ∷ vs) e = elim (Bool-cases (path_equal h g)) [
    | inl b ↦ (0, h, refl, b)
    | inr b ↦ let (i, h', q, k) = mapped_at vs (ground (arith, e, b)) in (suc i, h', q, k)
  ]

  is_mapped-get_elem? :
      (vs : List (Option ℕ)) (i h : ℕ)
      → get_elem? vs i ≡ some (some h)
      → path_equal h g ≡ true
      → is_mapped path_equal g vs ≡ true
  unfolding is_mapped
  is_mapped-get_elem? [] i h q k = absurd (ground arith)
  is_mapped-get_elem? (none ∷ vs) zero h q k = absurd (ground arith)
  is_mapped-get_elem? (none ∷ vs) (suc i) h q k = is_mapped-get_elem? vs i h q k
  is_mapped-get_elem? (some h' ∷ vs) zero h q k = ground (arith, q, k)
  is_mapped-get_elem? (some h' ∷ vs) (suc i) h q k = ground (arith, is_mapped-get_elem? vs i h q k)

module _ (path_equal : ℕ → ℕ → Bool) (f : ℕ) (mm : ExeMm) (s : Files) where
  -- Without an executable, and with one that is mapped or not.
  pub none-IsAnswer :
      (r : Option Errno)
      → mm.exe_file ≡ none
      → r ≡ (if ltb 0 (s.writers f) then some eacces else none)
      → IsAnswer path_equal mm (s.writers f) r
  unfolding StillMapped
  none-IsAnswer r e q = record {
    busy = λ (g, i, h, k, q, l). absurd (ground (arith, e, k));
    denied = λ n l. ground (arith, q, l);
    done = λ n l. ground (arith, q, l);
  }

  pub mapped-IsAnswer :
      (r : Option Errno) (g : ℕ)
      → mm.exe_file ≡ some g
      → is_mapped path_equal g mm.vm_files ≡ true
      → r ≡ some ebusy
      → IsAnswer path_equal mm (s.writers f) r
  unfolding StillMapped
  mapped-IsAnswer r g e b q =
      let (i, h, k, l) = mapped_at path_equal g mm.vm_files b in
      record {
        busy = λ m. q;
        denied = λ n m. absurd (n (g, i, h, e, k, l));
        done = λ n m. absurd (n (g, i, h, e, k, l));
      }

  pub unmapped-IsAnswer :
      (r : Option Errno) (g : ℕ)
      → mm.exe_file ≡ some g
      → is_mapped path_equal g mm.vm_files ≡ false
      → r ≡ (if ltb 0 (s.writers f) then some eacces else none)
      → IsAnswer path_equal mm (s.writers f) r
  unfolding StillMapped
  unmapped-IsAnswer r g e b q = record {
    busy = λ (g', i, h, e', k, l).
        let same : g' ≡ g = ground (arith, e, e') in
        let l' = subst (λ x. path_equal h x ≡ true) same l in
        absurd (ground (arith, b, is_mapped-get_elem? path_equal g mm.vm_files i h k l'));
    denied = λ n l. ground (arith, q, l);
    done = λ n l. ground (arith, q, l);
  }
