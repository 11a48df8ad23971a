-- ===== src/Fork/Flags.antt =====
-- linux-5.15.178/kernel/fork.c: the flags of `clone`, the arguments of a fork, and the checks that
-- `copy_process` and `clone3` make of them before anything is allocated.
-- The bit positions of the flags are in a header outside this repository, so a word of flags is the
-- record of its bits: `csignal` is its low byte, and `unknown` says whether any bit is set that no
-- other field names. CLONE_NEWTIME lies inside that byte.
use oshome_work.Base.{
  ℕ, ◌+◌, ◌%◌, ◌^◌, Bool, true, false, not, ◌&&◌, ◌||◌, Option, none, some, List, ltb, ◌==◌,
  if◌then◌else◌,
}

pub record CloneFlags : Type 0 where
  pub vm : Bool
  pub fs : Bool
  pub files : Bool
  pub sighand : Bool
  pub pidfd : Bool
  pub ptrace : Bool
  pub vfork : Bool
  pub parent : Bool
  pub thread : Bool
  pub newns : Bool
  pub sysvsem : Bool
  pub settls : Bool
  pub parent_settid : Bool
  pub child_cleartid : Bool
  pub detached : Bool
  pub untraced : Bool
  pub child_settid : Bool
  pub newcgroup : Bool
  pub newuts : Bool
  pub newipc : Bool
  pub newuser : Bool
  pub newpid : Bool
  pub newnet : Bool
  pub io : Bool
  pub clear_sighand : Bool
  pub into_cgroup : Bool
  pub newtime : Bool
  pub csignal : ℕ  -- the bits of CSIGNAL but CLONE_NEWTIME
  pub unknown : Bool

-- No flag at all.
abbrev pub no_flags : CloneFlags
no_flags = record {
  vm = false;
  fs = false;
  files = false;
  sighand = false;
  pidfd = false;
  ptrace = false;
  vfork = false;
  parent = false;
  thread = false;
  newns = false;
  sysvsem = false;
  settls = false;
  parent_settid = false;
  child_cleartid = false;
  detached = false;
  untraced = false;
  child_settid = false;
  newcgroup = false;
  newuts = false;
  newipc = false;
  newuser = false;
  newpid = false;
  newnet = false;
  io = false;
  clear_sighand = false;
  into_cgroup = false;
  newtime = false;
  csignal = 0;
  unknown = false;
}

-- The errors that the code names; `callee` is one that a called function returned.
pub data Errno : Type 0 where
  einval enomem eagain eintr erestartnointr efault e2big eexist enodev eacces ebusy ebadf : Errno
  callee : ℕ → Errno

-- What the checks read of `current`: SIGNAL_UNKILLABLE, and whether the name spaces for children
-- are its own.
pub record Caller : Type 0 where
  pub unkillable : Bool
  pub same_pid_ns : Bool
  pub same_time_ns : Bool

-- The guards of `copy_process`, in their order; all fail with -EINVAL.
unfoldable pub check_clone_flags : CloneFlags → Caller → Option Errno
check_clone_flags f c =
    if f.newns && f.fs
    then some einval
    else if f.newuser && f.fs
    then some einval
    else if f.thread && not f.sighand
    then some einval
    else if f.sighand && not f.vm
    then some einval
    else if f.parent && c.unkillable
    then some einval
    else if f.thread && (f.newuser || f.newpid || not c.same_pid_ns)
    then some einval
    else if (f.thread || f.vm) && not c.same_time_ns
    then some einval
    else if f.pidfd && (f.detached || f.thread)
    then some einval
    else none

-- `struct kernel_clone_args`
pub record CloneArgs : Type 0 where
  pub flags : CloneFlags
  pub exit_signal : ℕ
  pub stack : ℕ
  pub stack_size : ℕ
  pub pidfd : ℕ
  pub parent_tid : ℕ
  pub io_thread : Bool
  pub child_tid : ℕ
  pub tls : ℕ
  pub set_tid : List ℕ
  pub set_tid_size : ℕ
  pub cgroup : ℕ

-- `clone3_stack_valid`, on a machine whose stack grows down; `access_ok` is the argument. It moves
-- the stack pointer to the top of the area.
unfoldable pub clone3_stack_valid : (ℕ → ℕ → Bool) → CloneArgs → Bool × CloneArgs
clone3_stack_valid access_ok a =
    if a.stack == 0
    then (if ltb 0 a.stack_size then (false, a) else (true, a))
    else (if a.stack_size == 0
        then (false, a)
        else (if not (access_ok a.stack a.stack_size)
            then (false, a)
            else (true, record a { stack = (a.stack + a.stack_size) % 2 ^ 64 })))

-- `clone3_args_valid`.
unfoldable pub clone3_args_valid : (ℕ → ℕ → Bool) → CloneArgs → Bool × CloneArgs
unfolding clone3_stack_valid
clone3_args_valid access_ok a =
    let f = a.flags in
    if f.unknown
    then (false, a)
    else if f.detached || ltb 0 f.csignal
    then (false, a)
    else if f.sighand && f.clear_sighand
    then (false, a)
    else if (f.thread || f.parent) && ltb 0 a.exit_signal
    then (false, a)
    else clone3_stack_valid access_ok a
