-- ===== src/Unshare.antt =====
-- linux-5.15.178/kernel/fork.c: `ksys_unshare`, which takes what a task shares apart, and its error
-- path. What copies a file table, a root directory, credentials or name spaces elsewhere in the
-- kernel is a parameter.
pub mod Kept
pub mod Private
mod Parts
mod Steps
mod Success
pub mod Files
mod Tests
use oshome_work.Base.{
  ℕ, ◌-◌, ◌⊎◌, inl, inr, Bool, false, not, ◌&&◌, ◌||◌, Option, none, some, ltb, ◌==◌, if◌then◌else◌,
  is_some, update,
}
use oshome_work.Fork.Flags.{CloneFlags, einval, enomem, Errno}

-- What the checks read of `current`.
pub record Sharing : Type 0 where
  pub thread_group_empty : Bool
  pub sighand_count : ℕ
  pub single_threaded : Bool

-- The answers of the functions that are called. `unshare_userns` and `unshare_nsproxy_namespaces`
-- give a pointer, or NULL where there is nothing to do.
pub record Copies : Type 0 where
  pub copy_fs_struct : Option ℕ
  pub dup_fd : Errno ⊎ ℕ
  pub unshare_userns : Errno ⊎ Option ℕ
  pub unshare_nsproxy : Errno ⊎ Option ℕ
  pub set_cred_ucounts : Option Errno

-- `current`, the users of each `fs_struct` that is allocated, the count of each `files_struct`, 0
-- where it is freed, and whether this call owns a reference to new credentials or name spaces.
pub record Task : Type 0 where
  pub fs : Option ℕ
  pub files : Option ℕ
  pub cred : ℕ
  pub nsproxy : ℕ
  pub fs_users : ℕ → Option ℕ
  pub files_count : ℕ → ℕ
  pub owns_cred : Bool
  pub owns_nsproxy : Bool
  pub left_undo_list : Bool
  pub left_segments : Bool

-- The flags that one flag brings with it, in the order of the code.
unfoldable pub implied_flags : CloneFlags → CloneFlags
implied_flags f₀ =
    let f₁ = record f₀ { thread = f₀.thread || f₀.newuser; fs = f₀.fs || f₀.newuser } in
    let f₂ = record f₁ { sighand = f₁.sighand || f₁.vm } in
    let f₃ = record f₂ { thread = f₂.thread || f₂.sighand } in record f₃ { fs = f₃.fs || f₃.newns }

-- Any bit but those of the mask.
abbrev pub has_other_flags : CloneFlags → Bool
has_other_flags f =
    f.pidfd
    || f.ptrace
    || f.vfork
    || f.parent
    || f.settls
    || f.parent_settid
    || f.child_cleartid
    || f.detached
    || f.untraced
    || f.child_settid
    || f.io
    || f.clear_sighand
    || f.into_cgroup
    || ltb 0 f.csignal
    || f.unknown

-- `check_unshare_flags`
unfoldable pub check_unshare_flags : Sharing → CloneFlags → Option Errno
check_unshare_flags c f =
    if has_other_flags f
    then some einval
    else if (f.thread || f.sighand || f.vm) && not c.thread_group_empty
    then some einval
    else if (f.sighand || f.vm) && ltb 1 c.sighand_count
    then some einval
    else if f.vm && not c.single_threaded
    then some einval
    else none

abbrev pub users_of : Option ℕ → ℕ
users_of none = 0
users_of (some n) = n

-- `unshare_fs`
unfoldable pub unshare_fs : Copies → CloneFlags → Task → Errno ⊎ Option ℕ
unshare_fs a f s = elim s.fs [
  | none ↦ inr none
  | some p ↦
      if not f.fs || users_of (s.fs_users p) == 1
      then inr none
      else elim a.copy_fs_struct [ none ↦ inl enomem | some q ↦ inr (some q) ]
]

-- `unshare_fd`
unfoldable pub unshare_fd : Copies → CloneFlags → Task → Errno ⊎ Option ℕ
unshare_fd a f s = elim s.files [
  | none ↦ inr none
  | some p ↦
      if f.files && ltb 1 (s.files_count p)
      then elim a.dup_fd [ inl e ↦ inl e | inr q ↦ inr (some q) ]
      else inr none
]

-- A copy has one user; the end of it.
unfoldable pub add_fs : Option ℕ → (ℕ → Option ℕ) → ℕ → Option ℕ
add_fs none users = users
add_fs (some q) users = update users q (some 1)

unfoldable pub free_fs : Option ℕ → (ℕ → Option ℕ) → ℕ → Option ℕ
free_fs none users = users
free_fs (some q) users = update users q none

unfoldable pub add_fd : Option ℕ → (ℕ → ℕ) → ℕ → ℕ
add_fd none count = count
add_fd (some q) count = update count q 1

unfoldable pub put_fd : Option ℕ → (ℕ → ℕ) → ℕ → ℕ
put_fd none count = count
put_fd (some q) count = update count q (count q - 1)

-- The labels `bad_unshare_cleanup_fs`, `_fd` and `_cred`, each with those below it.
unfoldable pub cleanup_fs : Option ℕ → Task → Task
unfolding free_fs
cleanup_fs new_fs s = record s { fs_users = free_fs new_fs s.fs_users }

unfoldable pub cleanup_fd : (new_fs new_fd : Option ℕ) → Task → Task
unfolding cleanup_fs put_fd
cleanup_fd new_fs new_fd s =
    cleanup_fs new_fs (record s { files_count = put_fd new_fd s.files_count })

unfoldable pub cleanup_cred : (new_fs new_fd new_cred : Option ℕ) → Task → Task
unfolding cleanup_fd
cleanup_cred new_fs new_fd new_cred s =
    cleanup_fd new_fs new_fd
      (record s { owns_cred = (if is_some new_cred then false else s.owns_cred) })

-- `current->fs = new_fs`; what is left in `new_fs`, to be freed.
unfoldable pub swap_fs : Option ℕ → Task → Option ℕ × Task
swap_fs none s = (none, s)
swap_fs (some q) s = elim s.fs [
  | none ↦ (none, record s { fs = some q })
  | some p ↦
      let left = users_of (s.fs_users p) - 1 in
      (
        (if left == 0 then some p else none),
        record s { fs = some q; fs_users = update s.fs_users p (some left) },
      )
]

-- `current->files = new_fd`; what is left in `new_fd`, to be put.
unfoldable pub swap_fd : Option ℕ → Task → Option ℕ × Task
swap_fd none s = (none, s)
swap_fd (some q) s = (s.files, record s { files = some q })

-- `switch_task_namespaces` and `commit_creds` take the reference over.
unfoldable pub switch_namespaces : Option ℕ → Task → Task
switch_namespaces none s = s
switch_namespaces (some q) s = record s { nsproxy = q; owns_nsproxy = false }

unfoldable pub commit_creds : Option ℕ → Task → Task
commit_creds none s = s
commit_creds (some q) s = record s { cred = q; owns_cred = false }

-- `exit_sem`, `exit_shm` and `shm_init_task`.
unfoldable pub leave_ipc : CloneFlags → Task → Task
leave_ipc f s = record s {
  left_undo_list = s.left_undo_list || f.newipc || f.sysvsem;
  left_segments = s.left_segments || f.newipc;
}

-- The part that cannot fail, down to the end. With nothing new and no undo list to leave, each of
-- its steps does nothing.
unfoldable pub switch_over :
    CloneFlags → (new_fs new_fd new_cred new_nsproxy : Option ℕ) → Task → Task
unfolding swap_fs swap_fd switch_namespaces commit_creds leave_ipc cleanup_fd
switch_over f new_fs new_fd new_cred new_nsproxy s =
    let (old_fs, t) = swap_fs new_fs (switch_namespaces new_nsproxy (leave_ipc f s)) in
    let (old_fd, u) = swap_fd new_fd t in cleanup_fd old_fs old_fd (commit_creds new_cred u)

module _ (a : Copies) (f : CloneFlags) where
  -- After `set_cred_ucounts`.
  unfoldable pub cred_charged :
      (new_fs new_fd new_cred new_nsproxy : Option ℕ) → Task → Option Errno → Option Errno × Task
  unfolding switch_over cleanup_cred
  cred_charged new_fs new_fd new_cred new_nsproxy s (some e) =
      (some e, cleanup_cred new_fs new_fd new_cred s)
  cred_charged new_fs new_fd new_cred new_nsproxy s none =
      (none, switch_over f new_fs new_fd new_cred new_nsproxy s)

  -- After each of the four functions that copy: its error, or the next one.
  unfoldable pub ns_unshared :
      (new_fs new_fd new_cred : Option ℕ) → Task → Errno ⊎ Option ℕ → Option Errno × Task
  unfolding cred_charged
  ns_unshared new_fs new_fd new_cred s (inl e) = (some e, cleanup_cred new_fs new_fd new_cred s)
  ns_unshared new_fs new_fd new_cred s (inr new_nsproxy) =
      cred_charged new_fs new_fd new_cred new_nsproxy
        (record s { owns_nsproxy = is_some new_nsproxy })
        (if is_some new_cred then a.set_cred_ucounts else none)

  unfoldable pub cred_unshared :
      (new_fs new_fd : Option ℕ) → Task → Errno ⊎ Option ℕ → Option Errno × Task
  unfolding ns_unshared
  cred_unshared new_fs new_fd s (inl e) = (some e, cleanup_fd new_fs new_fd s)
  cred_unshared new_fs new_fd s (inr new_cred) =
      ns_unshared new_fs new_fd new_cred (record s { owns_cred = is_some new_cred })
        a.unshare_nsproxy

  unfoldable pub fd_unshared : (new_fs : Option ℕ) → Task → Errno ⊎ Option ℕ → Option Errno × Task
  unfolding cred_unshared add_fd
  fd_unshared new_fs s (inl e) = (some e, cleanup_fs new_fs s)
  fd_unshared new_fs s (inr new_fd) =
      cred_unshared new_fs new_fd (record s { files_count = add_fd new_fd s.files_count })
        a.unshare_userns

  unfoldable pub fs_unshared : Task → Errno ⊎ Option ℕ → Option Errno × Task
  unfolding fd_unshared unshare_fd add_fs
  fs_unshared s (inl e) = (some e, s)
  fs_unshared s (inr new_fs) =
      fd_unshared new_fs (record s { fs_users = add_fs new_fs s.fs_users }) (unshare_fd a f s)

-- `ksys_unshare`
unfoldable pub ksys_unshare : Sharing → Copies → CloneFlags → Task → Option Errno × Task
unfolding implied_flags check_unshare_flags unshare_fs fs_unshared
ksys_unshare c a flags s =
    let f = implied_flags flags in
    elim (check_unshare_flags c f) [
      | some e ↦ (some e, s)
      | none ↦ fs_unshared a f s (unshare_fs a f s)
    ]
