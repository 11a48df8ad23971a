-- ===== src/Exe/Balance.antt =====
-- linux-5.15.178/kernel/fork.c: the references and the denials of the executables.
use oshome_work.Base.{
  ℕ, ◌+◌, ◌≤◌, ◌≡◌, refl, sym, ap, ◌∙◌, subst, inl, inr, Bool, false, Option, none, some, arith,
  ltb, ◌==◌, if◌then◌else◌, Bool-cases, Option-cases, holds, either,
}
use oshome_work.Exe.Mapped.{IsAnswer, none-IsAnswer, mapped-IsAnswer, unmapped-IsAnswer}
use oshome_work.Exe.{
  old_found, replace_mm_exe_file, is_mapped, get_mm_exe_file, ExeMm, set_mm_exe_file, Files, let_go,
  allow_write_access, get_file, deny_write_access, Errno, fput, exchange, ebusy, eacces,
}

-- What the address space holds is counted.
pub record IsHolding (mm : ExeMm) (s : Files) : Type 0 where
  pub count : (f : ℕ) → holds mm.exe_file f ≤ s.count f
  pub denied : (f : ℕ) → holds mm.exe_file f ≤ s.denied f

-- What others hold of each file is as before.
pub record IsSwapped (mm : ExeMm) (s : Files) (mm' : ExeMm) (t : Files) : Type 0 where
  pub count : (f : ℕ) → t.count f + holds mm.exe_file f ≡ s.count f + holds mm'.exe_file f
  pub denied : (f : ℕ) → t.denied f + holds mm.exe_file f ≡ s.denied f + holds mm'.exe_file f
  pub writers : (f : ℕ) → t.writers f ≡ s.writers f
  pub areas : mm'.vm_files ≡ mm.vm_files

-- A change that fails changes nothing; one that does not swaps the files.
pub Changed : Option ℕ → ExeMm → Files → Option Errno × ExeMm × Files → Type 0
Changed new mm s (some e, mm', t) = (mm' ≡ mm) × IsSwapped mm s mm t
Changed new mm s (none, mm', t) = (mm'.exe_file ≡ new) × IsSwapped mm s mm' t

module _ (mm : ExeMm) (s : Files) (h : IsHolding mm s) where
  let_go-IsSwapped :
      (f : ℕ)
      → IsSwapped mm s
          (record mm { exe_file = some f })
          (let_go mm.exe_file (get_file f (deny_write_access f s)))
  unfolding let_go get_file deny_write_access fput allow_write_access
  let_go-IsSwapped f = elim (Option-cases mm.exe_file) [
    | inl e ↦ record {
      count = λ g. rw (e) (ground arith);
      denied = λ g. rw (e) (ground arith);
      writers = λ g. rw (e) refl;
      areas = refl;
    }
    | inr (o, e) ↦ record {
      count = λ g. let k = h.count o in rw (e) (ground (arith, k, e));
      denied = λ g. let k = h.denied o in rw (e) (ground (arith, k, e));
      writers = λ g. rw (e) refl;
      areas = refl;
    }
  ]

  IsSwapped-refl : IsSwapped mm s mm s
  IsSwapped-refl = record {
    count = λ g. refl;
    denied = λ g. refl;
    writers = λ g. refl;
    areas = refl;
  }

  -- `set_mm_exe_file` swaps the executable, or changes nothing.
  pub set_mm_exe_file-Changed : (new : Option ℕ) → Changed new mm s (set_mm_exe_file new mm s)
  unfolding set_mm_exe_file Changed let_go fput allow_write_access
  set_mm_exe_file-Changed none = elim (Option-cases mm.exe_file) [
    | inl e ↦ (
      refl,
      record {
        count = λ g. rw (e) (ground arith);
        denied = λ g. rw (e) (ground arith);
        writers = λ g. rw (e) refl;
        areas = refl;
      },
    )
    | inr (o, e) ↦ (
      refl,
      record {
        count = λ g. let k = h.count o in rw (e) (ground (arith, k, e));
        denied = λ g. let k = h.denied o in rw (e) (ground (arith, k, e));
        writers = λ g. rw (e) refl;
        areas = refl;
      },
    )
  ]
  set_mm_exe_file-Changed (some f) =
      either (Changed (some f) mm s) (ltb 0 (s.writers f)) (refl, IsSwapped-refl)
        (refl, let_go-IsSwapped f)

  -- The reference of `get_mm_exe_file` that is given back.
  looked_at : (g : ℕ) → mm.exe_file ≡ some g → (f : ℕ) → (fput g (get_file g s)).count f ≡ s.count f
  unfolding fput get_file
  looked_at g e f = ground arith

module _ (mm : ExeMm) (s u : Files) (c : (f : ℕ) → u.count f ≡ s.count f)
    (d : (f : ℕ) → u.denied f ≡ s.denied f) (w : (f : ℕ) → u.writers f ≡ s.writers f) where
  IsSwapped-same : (mm' : ExeMm) (t : Files) → IsSwapped mm u mm' t → IsSwapped mm s mm' t
  IsSwapped-same mm' t k = record {
    count = λ f. omega (arith, k.count f, c f);
    denied = λ f. omega (arith, k.denied f, d f);
    writers = λ f. k.writers f ∙ w f;
    areas = k.areas;
  }

  exchange-Changed : (f : ℕ) → IsHolding mm s → Changed (some f) mm s (exchange f mm u)
  unfolding exchange Changed
  exchange-Changed f h =
      let k : IsHolding mm u = record {
        count = λ g. omega (arith, h.count g, c g);
        denied = λ g. omega (arith, h.denied g, d g);
      } in
      either (Changed (some f) mm s) (ltb 0 (u.writers f))
        (refl, IsSwapped-same mm u (IsSwapped-refl mm u k))
        (refl, IsSwapped-same _ _ (let_go-IsSwapped mm u k f))

module _ (path_equal : ℕ → ℕ → Bool) (f : ℕ) (mm : ExeMm) (s : Files) where
  replace_mm_exe_file-none :
      mm.exe_file ≡ none → replace_mm_exe_file path_equal f mm s ≡ exchange f mm s
  unfolding replace_mm_exe_file old_found get_mm_exe_file
  replace_mm_exe_file-none e = rw (e) refl

  replace_mm_exe_file-some :
      (g : ℕ)
      → mm.exe_file ≡ some g
      → 1 ≤ s.count g
      → replace_mm_exe_file path_equal f mm s ≡ (
          if is_mapped path_equal g mm.vm_files
          then (some ebusy, mm, fput g (get_file g s))
          else exchange f mm (fput g (get_file g s)))
  unfolding replace_mm_exe_file old_found get_mm_exe_file
  replace_mm_exe_file-some g e l =
      let z : (s.count g == 0) ≡ false = ground arith in rw (e) (rw (z) refl)

  exchange-error :
      (u : Files)
      → ((f : ℕ) → u.writers f ≡ s.writers f)
      → (exchange f mm u).0 ≡ (if ltb 0 (s.writers f) then some eacces else none)
  unfolding exchange
  exchange-error u w = let k = w f in ground (arith, k)

-- Where the references and denials of the executable are counted, `replace_mm_exe_file` answers
-- EBUSY where some area is of a file with the path of the old one, else EACCES where the new one is
-- open for writing, and else 0. Where it fails nothing changes; where it does not, the new file is
-- the executable, and the references and denials that others hold of each file are as before.
pub replace_mm_exe_file-Changed :
    (path_equal : ℕ → ℕ → Bool) (f : ℕ) (mm : ExeMm) (s : Files)
    → IsHolding mm s
    → Changed (some f) mm s (replace_mm_exe_file path_equal f mm s)
      × IsAnswer path_equal mm (s.writers f) (replace_mm_exe_file path_equal f mm s).0
unfolding Changed fput get_file
replace_mm_exe_file-Changed path_equal f mm s h = elim (Option-cases mm.exe_file) [
  | inl e ↦
      let k = replace_mm_exe_file-none path_equal f mm s e in
      (
        subst (Changed (some f) mm s) (sym k)
            (exchange-Changed mm s s (λ g. refl) (λ g. refl) (λ g. refl) f h),
        none-IsAnswer path_equal f mm s (replace_mm_exe_file path_equal f mm s).0 e
            (ap (λ r. r.0) k ∙ exchange-error path_equal f mm s s (λ g. refl)),
      )
  | inr (g, e) ↦
      let u = fput g (get_file g s) in
      let k = replace_mm_exe_file-some path_equal f mm s g e (ground (arith, h.count g, e)) in
      let c = looked_at mm s h g e in
      (
        subst (Changed (some f) mm s) (sym k) (
            either (Changed (some f) mm s) (is_mapped path_equal g mm.vm_files)
              (
                refl,
                record {
                  count = λ f. ap (λ n. n + holds mm.exe_file f) (c f);
                  denied = λ f. refl;
                  writers = λ f. refl;
                  areas = refl;
                },
              )
              (exchange-Changed mm s u c (λ f. refl) (λ f. refl) f h)),
        elim (Bool-cases (is_mapped path_equal g mm.vm_files)) [
          | inl b ↦
              mapped-IsAnswer path_equal f mm s (replace_mm_exe_file path_equal f mm s).0 g e b
                (ap (λ r. r.0) k ∙ rw (b) refl)
          | inr b ↦
              unmapped-IsAnswer path_equal f mm s (replace_mm_exe_file path_equal f mm s).0 g e b
                (ap (λ r. r.0) k ∙ rw (b) (exchange-error path_equal f mm s u (λ f. refl)))
        ],
      )
]
