-- ===== src/Unshare/Steps.antt =====
-- linux-5.15.178/kernel/fork.c: how a call of `ksys_unshare` ends, step by step.
use oshome_work.Base.{
  ℕ, ◌≡◌, refl, ap, subst, ◌⊎◌, inl, inr, true, false, Option, none, some, arith, if◌then◌else◌,
  Option-cases, is_some,
}
use oshome_work.Unshare.Kept.{
  IsFresh, NewFd, unshare_fs-NewFs, IsKept, with_copies-none, NewFs, with_copies,
  cleanup_cred-IsKept, unshare_fd-NewFd,
}
use oshome_work.Fork.Flags.{CloneFlags, Errno}
use oshome_work.Unshare.{
  Sharing, implied_flags, check_unshare_flags, ksys_unshare, fd_unshared, fs_unshared, cred_charged,
  unshare_fs, free_fs, switch_over, put_fd, ns_unshared, unshare_fd, cred_unshared, cleanup_fd,
  Copies, cleanup_cred, cleanup_fs, Task,
}

-- How a call of `unshare` ends: as before, but for name spaces that nobody gives back where the
-- credentials cannot be charged; or with a property.
unfoldable pub Ends : Copies → Task → (Task → Type 0) → Option Errno × Task → Type 0
Ends a s Q (none, t) = Q t
Ends a s Q (some e, t) = IsKept s t × ((t.owns_nsproxy ≡ false) ⊎ (a.set_cred_ucounts ≡ some e))

-- The part that cannot fail leads from the copies to the property.
pub record Leads (a : Copies) (f : CloneFlags) (s : Task) (Q : Task → Type 0) : Type 0 where
  pub leads :
      (new_fs new_fd new_cred new_nsproxy : Option ℕ)
      → unshare_fs a f s ≡ inr new_fs
      → unshare_fd a f s ≡ inr new_fd
      → a.unshare_userns ≡ inr new_cred
      → a.unshare_nsproxy ≡ inr new_nsproxy
      → NewFs new_fs s
      → NewFd new_fd s
      → Q (
          switch_over f new_fs new_fd new_cred new_nsproxy
            (with_copies new_fs new_fd (is_some new_cred) (is_some new_nsproxy) s))

module _ (a : Copies) (f : CloneFlags) (s : Task) (Q : Task → Type 0) (l : Leads a f s Q)
    (new_fs new_fd : Option ℕ) (e₁ : unshare_fs a f s ≡ inr new_fs)
    (e₂ : unshare_fd a f s ≡ inr new_fd) (h : NewFs new_fs s) (h' : NewFd new_fd s) where
  cred_charged-Ends :
      (new_cred new_nsproxy : Option ℕ) (o : Option Errno)
      → a.unshare_userns ≡ inr new_cred
      → a.unshare_nsproxy ≡ inr new_nsproxy
      → (if is_some new_cred then a.set_cred_ucounts else none) ≡ o
      → Ends a s Q (
          cred_charged a f new_fs new_fd new_cred new_nsproxy
            (with_copies new_fs new_fd (is_some new_cred) (is_some new_nsproxy) s)
            o)
  unfolding cred_charged Ends
  cred_charged-Ends new_cred new_nsproxy none e₃ e₄ q =
      l.leads new_fs new_fd new_cred new_nsproxy e₁ e₂ e₃ e₄ h h'
  cred_charged-Ends new_cred new_nsproxy (some e) e₃ e₄ q = (
    cleanup_cred-IsKept s (is_some new_nsproxy) new_fs new_fd new_cred h h',
    inr (ground (arith, q)),
  )

  ns_unshared-Ends :
      (new_cred : Option ℕ) (o : Errno ⊎ Option ℕ)
      → a.unshare_userns ≡ inr new_cred
      → a.unshare_nsproxy ≡ o
      → Ends a s Q (
          ns_unshared a f new_fs new_fd new_cred
            (with_copies new_fs new_fd (is_some new_cred) false s)
            o)
  unfolding ns_unshared Ends cleanup_cred cleanup_fd cleanup_fs
  ns_unshared-Ends new_cred (inl e) e₃ e₄ =
      (cleanup_cred-IsKept s false new_fs new_fd new_cred h h', inl refl)
  ns_unshared-Ends new_cred (inr new_nsproxy) e₃ e₄ =
      cred_charged-Ends new_cred new_nsproxy _ e₃ e₄ refl

  cred_unshared-Ends :
      (o : Errno ⊎ Option ℕ)
      → a.unshare_userns ≡ o
      → Ends a s Q (cred_unshared a f new_fs new_fd (with_copies new_fs new_fd false false s) o)
  unfolding cred_unshared Ends cleanup_fd cleanup_fs cleanup_cred
  cred_unshared-Ends (inl e) e₃ = (cleanup_cred-IsKept s false new_fs new_fd none h h', inl refl)
  cred_unshared-Ends (inr new_cred) e₃ = ns_unshared-Ends new_cred _ e₃ refl

module _ (a : Copies) (f : CloneFlags) (s : Task) (Q : Task → Type 0) (l : Leads a f s Q)
    (fresh : IsFresh a s) where
  fd_unshared-Ends :
      (new_fs : Option ℕ) (o : Errno ⊎ Option ℕ)
      → unshare_fs a f s ≡ inr new_fs
      → unshare_fd a f s ≡ o
      → Ends a s Q (fd_unshared a f new_fs (with_copies new_fs none false false s) o)
  unfolding fd_unshared Ends cleanup_fd cleanup_fs cleanup_cred
  fd_unshared-Ends new_fs (inl e) e₁ e₂ = (
    cleanup_cred-IsKept s false new_fs none none (unshare_fs-NewFs a f s new_fs fresh e₁) tt,
    inl refl,
  )
  fd_unshared-Ends new_fs (inr new_fd) e₁ e₂ =
      cred_unshared-Ends a f s Q l new_fs new_fd e₁ e₂ (unshare_fs-NewFs a f s new_fs fresh e₁)
        (unshare_fd-NewFd a f s new_fd fresh e₂) _ refl

  fs_unshared-Ends :
      (o : Errno ⊎ Option ℕ)
      → unshare_fs a f s ≡ o
      → Ends a s Q (fs_unshared a f (with_copies none none false false s) o)
  unfolding fs_unshared Ends unshare_fd
  fs_unshared-Ends (inl e) e₁ = (cleanup_cred-IsKept s false none none none tt tt, inl refl)
  fs_unshared-Ends (inr new_fs) e₁ = fd_unshared-Ends new_fs _ e₁ refl

-- A call whose flags pass the checks.
pub unshare-Ends :
    (a : Copies) (f : CloneFlags) (s : Task) (Q : Task → Type 0)
    → Leads a f s Q
    → IsFresh a s
    → Ends a s Q (fs_unshared a f s (unshare_fs a f s))
unshare-Ends a f s Q l fresh =
    subst (λ t. Ends a s Q (fs_unshared a f t (unshare_fs a f s)))
      (with_copies-none s fresh.2 fresh.3) (fs_unshared-Ends a f s Q l fresh _ refl)

pub IsKept-refl : (a : Copies) (s : Task) → IsFresh a s → IsKept s s
unfolding cleanup_cred cleanup_fd cleanup_fs free_fs put_fd
IsKept-refl a s fresh =
    subst (λ t. IsKept s t) (with_copies-none s fresh.2 fresh.3)
      (cleanup_cred-IsKept s false none none none tt tt)

pub ksys_unshare-Ends :
    (c : Sharing) (a : Copies) (flags : CloneFlags) (s : Task) (Q : Task → Type 0)
    → Leads a (implied_flags flags) s Q
    → IsFresh a s
    → Ends a s Q (ksys_unshare c a flags s)
unfolding ksys_unshare Ends
ksys_unshare-Ends c a flags s Q l fresh =
    let f = implied_flags flags in
    elim (Option-cases (check_unshare_flags c f)) [
      | inr (d, m) ↦ rw (m, ksys_unshare, Ends) (IsKept-refl a s fresh, inl fresh.3)
      | inl m ↦ rw (m, ksys_unshare) (unshare-Ends a f s Q l fresh)
    ]

-- With copies at fresh addresses, an `unshare` that fails leaves the task, the users of every root
-- directory and the count of every file table as they were, and gives new credentials back; it also
-- gives new name spaces back, but perhaps where `set_cred_ucounts` gave its error.
pub ksys_unshare-IsKept :
    (c : Sharing) (a : Copies) (flags : CloneFlags) (s t : Task) (e : Errno)
    → IsFresh a s
    → ksys_unshare c a flags s ≡ (some e, t)
    → IsKept s t × ((t.owns_nsproxy ≡ false) ⊎ (a.set_cred_ucounts ≡ some e))
unfolding Ends
ksys_unshare-IsKept c a flags s t e fresh q = subst (Ends a s (λ u. Unit {0})) q (
    ksys_unshare-Ends c a flags s (λ u. Unit {0})
      (record { leads = λ n₁ n₂ n₃ n₄ e₁ e₂ e₃ e₄ h h'. tt }) fresh)

module _ (c : Sharing) (a : Copies) (flags : CloneFlags) (s : Task) (n₁ n₂ : Option ℕ) (q r : ℕ)
    (e : Errno) (e₀ : check_unshare_flags c (implied_flags flags) ≡ none)
    (e₁ : unshare_fs a (implied_flags flags) s ≡ inr n₁)
    (e₂ : unshare_fd a (implied_flags flags) s ≡ inr n₂) (e₃ : a.unshare_userns ≡ inr (some q))
    (e₄ : a.unshare_nsproxy ≡ inr (some r)) (e₅ : a.set_cred_ucounts ≡ some e) where
  ksys_unshare-cleanup_cred :
      ksys_unshare c a flags s
      ≡ (some e, cleanup_cred n₁ n₂ (some q) (with_copies n₁ n₂ true true s))
  unfolding fs_unshared fd_unshared cred_unshared ns_unshared cred_charged ksys_unshare
  ksys_unshare-cleanup_cred =
      rw (e₀, ksys_unshare) (rw (e₁) (rw (e₂) (rw (e₃) (rw (e₄) (rw (e₅) refl)))))

  -- Where the checks pass, each copy succeeds with new credentials and new name spaces, and
  -- `set_cred_ucounts` fails, `unshare` fails with its error and still holds the reference to the
  -- new name spaces.
  pub ksys_unshare-owns_nsproxy :
      ((ksys_unshare c a flags s).0 ≡ some e) × ((ksys_unshare c a flags s).1.owns_nsproxy ≡ true)
  unfolding cleanup_cred cleanup_fd cleanup_fs
  ksys_unshare-owns_nsproxy = (
    ap (λ w. w.0) ksys_unshare-cleanup_cred,
    ap (λ w. w.1.owns_nsproxy) ksys_unshare-cleanup_cred,
  )
