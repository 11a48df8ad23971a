-- ===== src/Unshare/Files.antt =====
-- linux-5.15.178/kernel/fork.c: `unshare_files`, with which a new program gets a file table of its own.
use oshome_work.Base.{
  ℕ, ◌+◌, ◌≤◌, ◌≡◌, refl, ◌⊎◌, inl, inr, true, Option, none, some, arith, ltb, Bool-cases,
  Option-cases, Sum-cases, holds,
}
use oshome_work.Fork.Flags.{no_flags, CloneFlags, Errno}
use oshome_work.Unshare.{put_fd, add_fd, unshare_fd, Copies, Task}

-- CLONE_FILES alone.
abbrev pub clone_files : CloneFlags
clone_files = record no_flags { files = true }

-- After `unshare_fd`, and `unshare_files`.
unfoldable pub files_copied : Errno ⊎ Option ℕ → Task → Option Errno × Task
files_copied (inl e) s = (some e, s)
files_copied (inr none) s = (none, s)
files_copied (inr (some q)) s =
    let t = record s { files = some q; files_count = add_fd (some q) s.files_count } in
    (none, record t { files_count = put_fd s.files t.files_count })

unfoldable pub unshare_files : Copies → Task → Option Errno × Task
unfolding files_copied
unshare_files a s = files_copied (unshare_fd a clone_files s) s

-- What it leaves: the task as it was, or with a table that nobody else uses.
pub HasOwn : Task → Option Errno × Task → Type 0
HasOwn s (some e, t) = t ≡ s
HasOwn s (none, t) =
    ((p : ℕ) → t.files ≡ some p → t.files_count p ≡ 1)
    × ((p : ℕ) → t.files_count p + holds s.files p ≡ s.files_count p + holds t.files p)

-- For a copy at a fresh address and a table that is counted, an `unshare_files` that fails changes
-- nothing; one that does not leaves the task as the only user of its file table, if it has one,
-- with the users that others are of each table as before.
pub unshare_files-HasOwn :
    (a : Copies) (s : Task)
    → ((q : ℕ) → a.dup_fd ≡ inr q → s.files_count q ≡ 0)
    → ((p : ℕ) → s.files ≡ some p → 1 ≤ s.files_count p)
    → HasOwn s (unshare_files a s)
unfolding HasOwn unshare_files files_copied unshare_fd add_fd put_fd
unshare_files-HasOwn a s fresh counted = elim (Option-cases s.files) [
  | inl e ↦ rw (e) ((λ p k. ground (arith, k)), (λ p. refl))
  | inr (p, e) ↦ elim (Bool-cases (ltb 1 (s.files_count p))) [
    | inl b ↦ elim (Sum-cases a.dup_fd) [
      | inl (x, d) ↦ rw (e, b, d) refl
      | inr (q, d) ↦
          let f = fresh q d in
          let c = counted p e in
          rw (e, b, d) ((λ r k. ground (arith, k, f, c, e)), (λ r. ground (arith, f, c, e)))
    ]
    | inr b ↦
        let c = counted p e in
        rw (e, b) ((λ r k. ground (arith, k, b, c, e)), (λ r. ground (arith, e)))
  ]
]
