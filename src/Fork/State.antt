-- ===== src/Fork/State.antt =====
-- linux-5.15.178/kernel/fork.c: the state of `copy_process`. What the new task holds is a list; the
-- functions of other files that a fork calls enter by their return values, in `Answers`.
use oshome_work.Base.{
  ℕ, ◌+◌, Bool, false, not, ◌||◌, Option, none, some, List, [], ◌∷◌, ◌==◌, if◌then◌else◌,
}
use oshome_work.Fork.Flags.{Errno}
use oshome_work.Kv.{KvStore, Kernel}

-- What a fork acquires and its error path has to give back.
pub data Resource : Type 0 where
  task creds policy perf audit security semundo files fs sighand signal mm namespaces io thread pid
        pidfd cgroup :
      Resource

-- The new task has a thing of its own, or one more reference to a thing of its parent.
pub data Hold : Type 0 where
  own share : Resource → Hold

abbrev pub index : Resource → ℕ
index task = 0
index creds = 1
index policy = 2
index perf = 3
index audit = 4
index security = 5
index semundo = 6
index files = 7
index fs = 8
index sighand = 9
index signal = 10
index mm = 11
index namespaces = 12
index io = 13
index thread = 14
index pid = 15
index pidfd = 16
index cgroup = 17

abbrev pub what : Hold → Resource
what (own r) = r
what (share r) = r

-- What the code reads of `current`, besides its flags for the checks.
pub record Parent : Type 0 where
  pub signal_pending : Bool
  pub has_mm : Bool
  pub has_files : Bool
  pub fs_in_exec : Bool
  pub has_io : Bool
  pub ioprio_valid : Bool
  pub pid : ℕ
  pub tgid : ℕ
  pub group_leader : ℕ
  pub real_parent : ℕ
  pub leader_exit_signal : ℕ
  pub kv : Option ℕ

-- The counters of the system and of the parent's thread group.
pub record Counters : Type 0 where
  pub nr_threads : ℕ
  pub total_forks : ℕ
  pub group_threads : ℕ

-- The new `task_struct`, as far as the code here sets it up. A task is named by its pid.
pub record Child : Type 0 where
  pub has_files : Bool
  pub has_mm : Bool
  pub has_io : Bool
  pub kv : Option ℕ
  pub pid : ℕ
  pub tgid : ℕ
  pub group_leader : ℕ
  pub real_parent : ℕ
  pub exit_signal : Option ℕ  -- `none` for -1

-- The answers of the functions that a fork calls. An `Option Errno` is an integer result, `none` for
-- 0; a Boolean of an allocation is true where it succeeds.
pub record Answers : Type 0 where
  pub dup_task : Bool
  pub copy_creds : Option Errno
  pub over_nproc : Bool
  pub privileged : Bool  -- INIT_USER, CAP_SYS_RESOURCE or CAP_SYS_ADMIN
  pub mpol_dup : Option Errno
  pub sched_fork : Option Errno
  pub perf_init : Option Errno
  pub audit_alloc : Option Errno
  pub security_alloc : Option Errno
  pub copy_semundo : Option Errno
  pub dup_fd : Option Errno
  pub copy_fs_struct : Bool
  pub sighand_alloc : Bool
  pub signal_alloc : Bool
  pub dup_mm : Bool
  pub copy_namespaces : Option Errno
  pub io_context_alloc : Bool
  pub copy_thread : Option Errno
  pub alloc_pid : Option Errno
  pub pid_nr : ℕ
  pub unused_fd : Option Errno
  pub pidfile : Option Errno
  pub put_user : Option Errno
  pub kv_alloc : Option (ℕ × KvStore)
  pub can_fork : Option Errno
  pub pidns_adding : Bool
  pub fatal_pending : Bool
  pub thread_group_leader : Child → Bool

-- `spilled` counts the releases of things that were not held.
pub record St : Type 0 where
  pub held : List Hold
  pub spilled : ℕ
  pub delayed : Bool  -- `delayed.node` is on the parent's list
  pub locked : Bool  -- `tasklist_lock` and `siglock`
  pub child : Child
  pub counters : Counters
  pub kernel : Kernel

-- The labels of the error path, top to bottom.
pub data Label : Type 0 where
  cancel_cgroup put_pidfd free_pid cleanup_thread cleanup_io cleanup_namespaces cleanup_mm
        cleanup_signal cleanup_sighand cleanup_fs cleanup_files cleanup_semundo cleanup_security
        cleanup_audit cleanup_perf cleanup_policy cleanup_threadgroup_lock cleanup_count
        bad_fork_free fork_out :
      Label

-- A step goes on, or jumps to a label with `retval` set.
pub data Outcome : Type 0 where
  next : St → Outcome
  goto : Label → Errno → St → Outcome

infixl 5 ◌>>=◌
abbrev pub ◌>>=◌ : Outcome → (St → Outcome) → Outcome
next s >>= f = f s
goto l e s >>= f = goto l e s

unfoldable pub hold : Hold → St → St
hold h s = record s { held = h ∷ s.held }

-- The holds without the first one of `r`.
unfoldable pub erase : Resource → List Hold → List Hold
erase r [] = []
erase r (h ∷ hs) = if index (what h) == index r then hs else h ∷ erase r hs

unfoldable pub holds : Resource → List Hold → Bool
holds r [] = false
holds r (h ∷ hs) = index (what h) == index r || holds r hs

unfoldable pub release : Resource → St → St
unfolding erase holds
release r s = record s {
  held = erase r s.held;
  spilled = (if holds r s.held then s.spilled else s.spilled + 1);
}

-- `if (c) release(r);`
unfoldable pub release_if : Bool → Resource → St → St
unfolding erase holds
release_if c r s = record s {
  held = (if c then erase r s.held else s.held);
  spilled = (if not c || holds r s.held then s.spilled else s.spilled + 1);
}

-- A call that returns an error or acquires a thing of its own.
unfoldable pub acquire : Option Errno → Resource → St → Option Errno × St
unfolding hold
acquire none r s = (none, hold (own r) s)
acquire (some e) r s = (some e, s)

-- `if (retval) goto l;`
unfoldable pub try : Label → Option Errno × St → Outcome
try l (none, s) = next s
try l (some e, s) = goto l e s
