-- ===== src/Unshare/Parts.antt =====
-- linux-5.15.178/kernel/fork.c: what `unshare_fs` and `unshare_fd` answer, and the root directory and
-- the file table after the part of `ksys_unshare` that cannot fail.
use oshome_work.Base.{
  ℕ, ◌+◌, ◌≤◌, ◌≡◌, refl, ap, ◌∙◌, subst, ◌≢◌, inl, inr, Bool, true, false, Option, none, some,
  arith, Option-cases, Sum-cases, holds,
}
use oshome_work.Unshare.Kept.{with_copies, NewFs, NewFd}
use oshome_work.Fork.Flags.{CloneFlags}
use oshome_work.Unshare.{
  add_fs, add_fd, Copies, unshare_fs, unshare_fd, users_of, cleanup_fd, commit_creds, free_fs,
  put_fd, leave_ipc, switch_namespaces, swap_fs, swap_fd, switch_over, Task, cleanup_fs,
}
use oshome_work.Unshare.Private.{IsCounted}

module _ (f : CloneFlags) (n₁ n₂ n₃ n₄ : Option ℕ) (s : Task) where
  pub switch_over-fs : (switch_over f n₁ n₂ n₃ n₄ s).fs ≡ (swap_fs n₁ s).1.fs
  unfolding switch_over swap_fs swap_fd cleanup_fd cleanup_fs commit_creds switch_namespaces
      leave_ipc
  switch_over-fs = ground arith

  pub switch_over-fs_users :
      (p : ℕ)
      → (switch_over f n₁ n₂ n₃ n₄ s).fs_users p
        ≡ free_fs (swap_fs n₁ s).0 (swap_fs n₁ s).1.fs_users p
  unfolding switch_over swap_fs swap_fd cleanup_fd cleanup_fs commit_creds switch_namespaces
      leave_ipc
  switch_over-fs_users p = ground arith

  pub switch_over-files : (switch_over f n₁ n₂ n₃ n₄ s).files ≡ (swap_fd n₂ s).1.files
  unfolding switch_over swap_fs swap_fd cleanup_fd cleanup_fs commit_creds switch_namespaces
      leave_ipc
  switch_over-files = ground arith

  pub switch_over-files_count :
      (p : ℕ)
      → (switch_over f n₁ n₂ n₃ n₄ s).files_count p ≡ put_fd (swap_fd n₂ s).0 s.files_count p
  unfolding switch_over swap_fs swap_fd cleanup_fd cleanup_fs commit_creds switch_namespaces
      leave_ipc put_fd
  switch_over-files_count p = ground arith

module _ (a : Copies) (f : CloneFlags) (s : Task) where
  -- Nothing is copied for a task that is alone or does not ask.
  unshare_fd-none :
      (p : ℕ)
      → unshare_fd a f s ≡ inr none
      → f.files ≡ true
      → s.files ≡ some p
      → s.files_count p ≤ 1
  unfolding unshare_fd
  unshare_fd-none p e g h = elim (Sum-cases a.dup_fd) [
    | inl (d, m) ↦ ground arith
    | inr (d, m) ↦ ground arith
  ]

  unshare_fs-none :
      (p : ℕ)
      → unshare_fs a f s ≡ inr none
      → f.fs ≡ true
      → s.fs ≡ some p
      → users_of (s.fs_users p) ≡ 1
  unfolding unshare_fs
  unshare_fs-none p e g h = elim (Option-cases a.copy_fs_struct) [
    | inl m ↦ ground arith
    | inr (d, m) ↦ ground arith
  ]

  unshare_fd-some :
      (q : ℕ)
      → unshare_fd a f s ≡ inr (some q)
      → (f.files ≡ true) × ((p : ℕ) × (s.files ≡ some p) × (2 ≤ s.files_count p))
  unfolding unshare_fd
  unshare_fd-some q e = elim (Option-cases s.files) [
    | inl n ↦ ground arith
    | inr (p, n) ↦ (ground arith, (p, n, ground arith))
  ]

  unshare_fs-some :
      (q : ℕ)
      → unshare_fs a f s ≡ inr (some q)
      → (f.fs ≡ true) × ((p : ℕ) × (s.fs ≡ some p) × (users_of (s.fs_users p) ≢ 1))
  unfolding unshare_fs
  unshare_fs-some q e = elim (Option-cases s.fs) [
    | inl n ↦ ground arith
    | inr (p, n) ↦ (ground arith, (p, n, λ m. ground arith))
  ]

module _ (a : Copies) (f : CloneFlags) (s : Task) where
  -- The new table is held in place of the old one.
  pub fd_moved :
      (n : Option ℕ) (p : ℕ)
      → unshare_fd a f s ≡ inr n
      → NewFd n s
      → put_fd (swap_fd n s).0 (add_fd n s.files_count) p + holds s.files p
        ≡ s.files_count p + holds (swap_fd n s).1.files p
  unfolding swap_fd put_fd add_fd
  fd_moved none p e h = refl
  fd_moved (some q) p e h =
      let (g, w) = unshare_fd-some a f s q e in let (r, m, k) = w in rw (m) (ground arith)

  pub fd_stays :
      (n : Option ℕ) → unshare_fd a f s ≡ inr n → f.files ≡ false → (swap_fd n s).1.files ≡ s.files
  unfolding swap_fd
  fd_stays none e g = refl
  fd_stays (some q) e g = let (g', w) = unshare_fd-some a f s q e in ground arith

  pub fd_alone :
      (n : Option ℕ)
      → IsCounted s
      → unshare_fd a f s ≡ inr n
      → NewFd n s
      → f.files ≡ true
      → (p : ℕ) → s.files ≡ some p
      → (q : ℕ) × ((swap_fd n s).1.files ≡ some q)
        × (put_fd (swap_fd n s).0 (add_fd n s.files_count) q ≡ 1)
  unfolding swap_fd put_fd add_fd
  fd_alone none c e h g p m = (p, m, ground (arith, c.files p m, unshare_fd-none a f s p e g m))
  fd_alone (some q) c e h g p m =
      let (g', w) = unshare_fd-some a f s q e in
      let (r, m', k) = w in (q, refl, rw (m') (ground arith))

module _ (a : Copies) (f : CloneFlags) (s : Task) (n m : Option ℕ) (b₁ b₂ : Bool) (c : IsCounted s)
    (e : unshare_fs a f s ≡ inr n) (h : NewFs n s) where
  pub fs_moved :
      (p : ℕ)
      → users_of (
            free_fs
              (swap_fs n (with_copies n m b₁ b₂ s)).0
              (swap_fs n (with_copies n m b₁ b₂ s)).1.fs_users
              p)
          + holds s.fs p
        ≡ users_of (s.fs_users p) + holds (swap_fs n (with_copies n m b₁ b₂ s)).1.fs p
  unfolding swap_fs free_fs add_fs
  fs_moved p = elim (Option-cases n) [
    | inl o ↦ rw (o) refl
    | inr (q, o) ↦
        let (g, w) = unshare_fs-some a f s q (e ∙ ap inr o) in
        let (r, k, l) = w in
        let new = subst (λ t. NewFs t s) o h in rw (o, k) (ground (arith, c.fs r k, new))
  ]

  pub fs_alone :
      f.fs ≡ true
      → (p : ℕ) → s.fs ≡ some p
      → (q : ℕ) × ((swap_fs n (with_copies n m b₁ b₂ s)).1.fs ≡ some q)
        × (users_of (
              free_fs
                (swap_fs n (with_copies n m b₁ b₂ s)).0
                (swap_fs n (with_copies n m b₁ b₂ s)).1.fs_users
                q)
            ≡ 1)
  unfolding swap_fs free_fs add_fs
  fs_alone g p k = elim (Option-cases n) [
    | inl o ↦ (p, rw (o) k, rw (o) (unshare_fs-none a f s p (e ∙ ap inr o) g k))
    | inr (q, o) ↦
        let (g', w) = unshare_fs-some a f s q (e ∙ ap inr o) in
        let (r, k', l) = w in
        let new = subst (λ t. NewFs t s) o h in
        (q, rw (o, k') refl, rw (o, k') (ground (arith, c.fs r k', new)))
  ]

  pub fs_stays : f.fs ≡ false → (swap_fs n (with_copies n m b₁ b₂ s)).1.fs ≡ s.fs
  unfolding swap_fs
  fs_stays g = elim (Option-cases n) [
    | inl o ↦ rw (o) refl
    | inr (q, o) ↦ let (g', w) = unshare_fs-some a f s q (e ∙ ap inr o) in ground arith
  ]
