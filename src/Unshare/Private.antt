-- ===== src/Unshare/Private.antt =====
-- linux-5.15.178/kernel/fork.c: what an `unshare` that succeeds promises.
use oshome_work.Base.{ℕ, ◌+◌, ◌≤◌, ◌≡◌, inr, Bool, true, false, ◌||◌, Option, none, some, holds}
use oshome_work.Fork.Flags.{CloneFlags}
use oshome_work.Unshare.{Copies, users_of, Task}

-- What the task holds is counted.
pub record IsCounted (s : Task) : Type 0 where
  pub fs : (p : ℕ) → s.fs ≡ some p → 1 ≤ users_of (s.fs_users p)
  pub files : (p : ℕ) → s.files ≡ some p → 1 ≤ s.files_count p

-- Where `root` says so the task is alone with its root directory, and else keeps it; so it is with
-- `table` and the file table. The users that other tasks are of each stay as they were.
pub record IsApart (root table : Bool) (s t : Task) : Type 0 where
  pub root_alone :
      root ≡ true
      → (p : ℕ) → s.fs ≡ some p
      → (q : ℕ) × (t.fs ≡ some q) × (users_of (t.fs_users q) ≡ 1)
  pub root_stays : root ≡ false → t.fs ≡ s.fs
  pub root_others :
      (p : ℕ) → users_of (t.fs_users p) + holds s.fs p ≡ users_of (s.fs_users p) + holds t.fs p
  pub table_alone :
      table ≡ true
      → (p : ℕ) → s.files ≡ some p
      → (q : ℕ) × (t.files ≡ some q) × (t.files_count q ≡ 1)
  pub table_stays : table ≡ false → t.files ≡ s.files
  pub table_others : (p : ℕ) → t.files_count p + holds s.files p ≡ s.files_count p + holds t.files p

-- The new one, if one was made.
abbrev pub taken : Option ℕ → ℕ → ℕ
taken none old = old
taken (some new) old = new

-- The credentials and the name spaces are those that were made, if any were.
pub record IsSwitched (a : Copies) (f : CloneFlags) (s t : Task) : Type 0 where
  pub cred : (n : Option ℕ) → a.unshare_userns ≡ inr n → t.cred ≡ taken n s.cred
  pub nsproxy : (n : Option ℕ) → a.unshare_nsproxy ≡ inr n → t.nsproxy ≡ taken n s.nsproxy
  pub owns_cred : t.owns_cred ≡ false
  pub owns_nsproxy : t.owns_nsproxy ≡ false
  pub undo_list : (f.newipc || f.sysvsem) ≡ true → t.left_undo_list ≡ true
  pub segments : f.newipc ≡ true → t.left_segments ≡ true
