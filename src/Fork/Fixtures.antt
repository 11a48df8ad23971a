-- ===== src/Fork/Fixtures.antt =====
-- linux-5.15.178/kernel/fork.c: flags, callers and answers of forks, for the tests.
use oshome_work.Base.{true, false, none, some, [], ◌==◌, update}
pub use oshome_work.Fork.Flags.{no_flags}
use oshome_work.Kv.{KvStore}
use oshome_work.Fork.Flags.{eagain}
use oshome_work.Fork.State.{Answers}
use oshome_work.Fork.Flags.{Caller, CloneFlags}
use oshome_work.Fork.State.{St, Parent}

abbrev pub thread_flags : CloneFlags
thread_flags = record no_flags { vm = true; fs = true; files = true; sighand = true; thread = true }

abbrev pub caller : Caller
caller = record { unkillable = false; same_pid_ns = true; same_time_ns = true }

abbrev pub parent : Parent
parent = record {
  signal_pending = false;
  has_mm = true;
  has_files = true;
  fs_in_exec = false;
  has_io = true;
  ioprio_valid = true;
  pid = 7;
  tgid = 7;
  group_leader = 7;
  real_parent = 1;
  leader_exit_signal = 17;
  kv = some 0;
}

-- The memory that the allocator gives for a store.
abbrev pub garbage : KvStore
garbage = record { locks = λ _. true; head = λ _. [] }

abbrev pub answers : Answers
answers = record {
  dup_task = true;
  copy_creds = none;
  over_nproc = false;
  privileged = false;
  mpol_dup = none;
  sched_fork = none;
  perf_init = none;
  audit_alloc = none;
  security_alloc = none;
  copy_semundo = none;
  dup_fd = none;
  copy_fs_struct = true;
  sighand_alloc = true;
  signal_alloc = true;
  dup_mm = true;
  copy_namespaces = none;
  io_context_alloc = true;
  copy_thread = none;
  alloc_pid = none;
  pid_nr = 8;
  unused_fd = none;
  pidfile = none;
  put_user = none;
  kv_alloc = some (5, garbage);
  can_fork = none;
  pidns_adding = true;
  fatal_pending = false;
  thread_group_leader = λ c. c.pid == c.tgid;
}

abbrev pub empty_store : KvStore
empty_store = record { locks = λ _. false; head = λ _. [] }

abbrev pub before : St
before = record {
  held = [];
  spilled = 0;
  delayed = false;
  locked = false;
  child = record {
    has_files = false;
    has_mm = false;
    has_io = false;
    kv = none;
    pid = 0;
    tgid = 0;
    group_leader = 0;
    real_parent = 0;
    exit_signal = none;
  };
  counters = record { nr_threads = 20; total_forks = 100; group_threads = 1 };
  kernel = record { stores = update (λ _. none) 0 (some empty_store); nodes = 0 };
}

abbrev pub full : Answers
full = record answers { kv_alloc = none }

-- The control groups refuse the fork.
abbrev pub refused : Answers
refused = record answers { can_fork = some eagain }
