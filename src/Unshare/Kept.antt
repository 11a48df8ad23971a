-- ===== src/Unshare/Kept.antt =====
-- linux-5.15.178/kernel/fork.c: an `unshare` that fails leaves the task as it was.
use oshome_work.Base.{
  ℕ, ◌≡◌, refl, sym, inl, inr, Bool, false, Option, none, some, arith, Option-cases, Sum-cases,
  is_some,
}
use oshome_work.Fork.Flags.{CloneFlags}
use oshome_work.Unshare.{
  unshare_fs, free_fs, add_fd, add_fs, put_fd, unshare_fd, cleanup_fd, Copies, cleanup_cred,
  cleanup_fs, Task,
}

-- The addresses that the copies get are not in use.
abbrev pub NewFs : Option ℕ → Task → Type 0
NewFs none s = Unit {0}
NewFs (some q) s = s.fs_users q ≡ none

abbrev pub NewFd : Option ℕ → Task → Type 0
NewFd none s = Unit {0}
NewFd (some q) s = s.files_count q ≡ 0

abbrev pub IsFresh : Copies → Task → Type 0
IsFresh a s =
    ((q : ℕ) → a.copy_fs_struct ≡ some q → s.fs_users q ≡ none)
    × ((q : ℕ) → a.dup_fd ≡ inr q → s.files_count q ≡ 0)
    × (s.owns_cred ≡ false)
    × (s.owns_nsproxy ≡ false)

-- The task, and every count.
pub record IsKept (s t : Task) : Type 0 where
  pub fs : t.fs ≡ s.fs
  pub files : t.files ≡ s.files
  pub cred : t.cred ≡ s.cred
  pub nsproxy : t.nsproxy ≡ s.nsproxy
  pub users : (p : ℕ) → t.fs_users p ≡ s.fs_users p
  pub counts : (p : ℕ) → t.files_count p ≡ s.files_count p
  pub owned : t.owns_cred ≡ false
  pub undo_list : t.left_undo_list ≡ s.left_undo_list
  pub segments : t.left_segments ≡ s.left_segments

pub free_fs-add_fs :
    (new_fs : Option ℕ) (s : Task) (p : ℕ)
    → NewFs new_fs s
    → free_fs new_fs (add_fs new_fs s.fs_users) p ≡ s.fs_users p
unfolding free_fs add_fs
free_fs-add_fs none s p h = refl
free_fs-add_fs (some q) s p h = ground arith

pub put_fd-add_fd :
    (new_fd : Option ℕ) (s : Task) (p : ℕ)
    → NewFd new_fd s
    → put_fd new_fd (add_fd new_fd s.files_count) p ≡ s.files_count p
unfolding put_fd add_fd
put_fd-add_fd none s p h = refl
put_fd-add_fd (some q) s p h = ground arith

-- The task with its copies.
abbrev pub with_copies : (new_fs new_fd : Option ℕ) → (owns_cred owns_nsproxy : Bool) → Task → Task
with_copies new_fs new_fd owns_cred owns_nsproxy s = record s {
  fs_users = add_fs new_fs s.fs_users;
  files_count = add_fd new_fd s.files_count;
  owns_cred = owns_cred;
  owns_nsproxy = owns_nsproxy;
}

pub cleanup_cred-IsKept :
    (s : Task) (b : Bool) (new_fs new_fd new_cred : Option ℕ)
    → NewFs new_fs s
    → NewFd new_fd s
    → IsKept s
        (cleanup_cred new_fs new_fd new_cred (with_copies new_fs new_fd (is_some new_cred) b s))
unfolding cleanup_cred cleanup_fd cleanup_fs
cleanup_cred-IsKept s b new_fs new_fd new_cred h h' = record {
  fs = refl;
  files = refl;
  cred = refl;
  nsproxy = refl;
  users = λ p. free_fs-add_fs new_fs s p h;
  counts = λ p. put_fd-add_fd new_fd s p h';
  owned = ground arith;
  undo_list = refl;
  segments = refl;
}

unshare_fd-dup_fd :
    (a : Copies) (f : CloneFlags) (s : Task) (q : ℕ)
    → unshare_fd a f s ≡ inr (some q)
    → a.dup_fd ≡ inr q
unfolding unshare_fd
unshare_fd-dup_fd a f s q e = elim (Option-cases s.files) [
  | inl n ↦ ground (arith, n, e)
  | inr (p, n) ↦ elim (Sum-cases a.dup_fd) [
    | inl (d, m) ↦ ground (arith, n, m, e)
    | inr (d, m) ↦ ground (arith, n, m, e)
  ]
]

unshare_fs-copy_fs :
    (a : Copies) (f : CloneFlags) (s : Task) (q : ℕ)
    → unshare_fs a f s ≡ inr (some q)
    → a.copy_fs_struct ≡ some q
unfolding unshare_fs
unshare_fs-copy_fs a f s q e = elim (Option-cases s.fs) [
  | inl n ↦ ground (arith, n, e)
  | inr (p, n) ↦ elim (Option-cases a.copy_fs_struct) [
    | inl m ↦ ground (arith, n, m, e)
    | inr (d, m) ↦ ground (arith, n, m, e)
  ]
]

pub unshare_fd-NewFd :
    (a : Copies) (f : CloneFlags) (s : Task) (new_fd : Option ℕ)
    → IsFresh a s
    → unshare_fd a f s ≡ inr new_fd
    → NewFd new_fd s
unshare_fd-NewFd a f s none fresh e = tt
unshare_fd-NewFd a f s (some q) fresh e = fresh.1 q (unshare_fd-dup_fd a f s q e)

pub unshare_fs-NewFs :
    (a : Copies) (f : CloneFlags) (s : Task) (new_fs : Option ℕ)
    → IsFresh a s
    → unshare_fs a f s ≡ inr new_fs
    → NewFs new_fs s
unshare_fs-NewFs a f s none fresh e = tt
unshare_fs-NewFs a f s (some q) fresh e = fresh.0 q (unshare_fs-copy_fs a f s q e)

-- A call starts without copies.
pub with_copies-none :
    (s : Task)
    → s.owns_cred ≡ false
    → s.owns_nsproxy ≡ false
    → with_copies none none false false s ≡ s
unfolding add_fs add_fd
with_copies-none s h h' = λ i. record s { owns_cred = sym h i; owns_nsproxy = sym h' i }
