-- ===== src/Clone/Extended.antt =====
-- linux-5.15.178/kernel/fork.c: `clone3` and `copy_clone_args_from_user`. What the functions that
-- read user memory answer is a parameter.
use oshome_work.Base.{
  ℕ, ◌^◌, ◌⊎◌, inl, inr, Bool, false, not, ◌&&◌, ◌||◌, Option, none, some, List, [], ltb, leb, ◌==◌,
  if◌then◌else◌,
}
use oshome_work.Fork.State.{St}
use oshome_work.Fork.Flags.{CloneArgs, clone3_args_valid, CloneFlags, e2big, efault}
use oshome_work.Clone.{Setting, Result, kernel_clone, Errno, einval}

-- `struct clone_args` as it is read; the flags are split into bits.
pub record UserArgs : Type 0 where
  pub flags : CloneFlags
  pub pidfd : ℕ
  pub child_tid : ℕ
  pub parent_tid : ℕ
  pub exit_signal : ℕ
  pub stack : ℕ
  pub stack_size : ℕ
  pub tls : ℕ
  pub set_tid : ℕ
  pub set_tid_size : ℕ
  pub cgroup : ℕ

-- `copy_struct_from_user` for a size, `copy_from_user` for an address and a number of process ids,
-- `valid_signal` and `access_ok`.
pub record UserMemory : Type 0 where
  pub copy_struct_from_user : ℕ → Errno ⊎ UserArgs
  pub copy_from_user : (address count : ℕ) → Option (List ℕ)
  pub valid_signal : ℕ → Bool
  pub access_ok : ℕ → ℕ → Bool

abbrev pub page_size : ℕ
page_size = 4096

abbrev pub size_ver0 : ℕ
size_ver0 = 64

abbrev pub size_ver2 : ℕ
size_ver2 = 88

abbrev pub max_pid_ns_level : ℕ
max_pid_ns_level = 32

-- The checks of the structure that was read; all fail with -EINVAL.
unfoldable pub has_bad_args : UserMemory → (usize : ℕ) → UserArgs → Bool
has_bad_args m usize u =
    ltb max_pid_ns_level u.set_tid_size
    || (u.set_tid == 0) && ltb 0 u.set_tid_size
    || not (u.set_tid == 0) && (u.set_tid_size == 0)
    || leb 256 u.exit_signal
    || not (m.valid_signal u.exit_signal)
    || u.flags.into_cgroup && (leb (2 ^ 31) u.cgroup || ltb usize size_ver2)

-- `*kargs`, with the process ids.
abbrev pub kargs_of : UserArgs → List ℕ → CloneArgs
kargs_of u ids = record {
  flags = u.flags;
  exit_signal = u.exit_signal;
  stack = u.stack;
  stack_size = u.stack_size;
  pidfd = u.pidfd;
  parent_tid = u.parent_tid;
  io_thread = false;
  child_tid = u.child_tid;
  tls = u.tls;
  set_tid = ids;
  set_tid_size = u.set_tid_size;
  cgroup = u.cgroup;
}

-- After `copy_struct_from_user`.
unfoldable pub args_read : UserMemory → (usize : ℕ) → Errno ⊎ UserArgs → Errno ⊎ CloneArgs
unfolding has_bad_args
args_read m usize (inl e) = inl e
args_read m usize (inr u) =
    if has_bad_args m usize u
    then inl einval
    else if u.set_tid == 0
    then inr (kargs_of u [])
    else elim (m.copy_from_user u.set_tid u.set_tid_size) [
      | none ↦ inl efault
      | some ids ↦ inr (kargs_of u ids)
    ]

-- `copy_clone_args_from_user`
unfoldable pub copy_clone_args_from_user : UserMemory → (usize : ℕ) → Errno ⊎ CloneArgs
unfolding args_read
copy_clone_args_from_user m usize =
    if ltb page_size usize
    then inl e2big
    else if ltb usize size_ver0
    then inl einval
    else args_read m usize (m.copy_struct_from_user usize)

module _ (w : Setting) (m : UserMemory) where
  -- After `copy_clone_args_from_user`.
  unfoldable pub kargs_read : Errno ⊎ CloneArgs → St → Result
  unfolding clone3_args_valid
  kargs_read (inl e) s = (inl e, s, [])
  kargs_read (inr k) s =
      let (valid, k') = clone3_args_valid m.access_ok k in
      if not valid then (inl einval, s, []) else kernel_clone w k' s

  -- `clone3`
  unfoldable pub clone3 : (size : ℕ) → St → Result
  unfolding kargs_read copy_clone_args_from_user
  clone3 size s = kargs_read (copy_clone_args_from_user m size) s
