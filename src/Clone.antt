-- ===== src/Clone.antt =====
-- linux-5.15.178/kernel/fork.c: `kernel_clone` and the calls that lead to it: `fork`, `vfork`,
-- `clone`, `clone3` and `kernel_thread`. What `kernel_clone` does after the copy is a list of actions.
-- The copy is `copy_process` of `Fork`; it uses the flags and the exit signal of the arguments. The
-- references to the task and its pid that `kernel_clone` takes and gives back are left out.
pub mod Extended
pub mod Same
pub mod Started
mod Tests
use oshome_work.Base.{
  ℕ, ◌+◌, ◌⊎◌, inl, inr, Bool, true, false, ◌&&◌, Option, none, some, List, [], ◌∷◌, ◌++◌, ◌==◌,
  if◌then◌else◌,
}
use oshome_work.Fork.{copy_process}
use oshome_work.Fork.State.{Parent, Answers, St}
use oshome_work.Fork.Flags.{Caller, CloneArgs, CloneFlags, einval, Errno}

-- The events that a tracer is told of.
pub data Trace : Type 0 where
  event_fork event_vfork event_clone : Trace

-- What is done once there is a new task: its number is written for the parent, a `vfork` is set up,
-- the task is woken, the tracer is told, a `vfork` waits, and the tracer is told of its end.
pub data Action : Type 0 where
  put_nr : (parent_tid nr : ℕ) → Action
  init_completion : Action
  wake_up_new_task : Action
  report : Trace → Action
  wait_for_vfork_done : Action
  report_vfork_done : Action

-- The answers of `ptrace_event_enabled`, `pid_vnr` and `wait_for_vfork_done`.
pub record Tracing : Type 0 where
  pub event_enabled : Trace → Bool
  pub vnr : ℕ → ℕ
  pub killed : Bool

abbrev pub sigchld : ℕ
sigchld = 17

-- Which event is reported.
unfoldable pub trace_of : CloneArgs → Tracing → Option Trace
trace_of a w =
    if a.flags.untraced
    then none
    else let trace =
        (if a.flags.vfork
          then event_vfork
          else (if a.exit_signal == sigchld then event_fork else event_clone)) in
      if w.event_enabled trace then some trace else none

abbrev pub report_of : Option Trace → List Action
report_of none = []
report_of (some trace) = report trace ∷ []

-- From the new task to the end.
unfoldable pub actions : CloneArgs → Tracing → (nr : ℕ) → List Action
unfolding trace_of
actions a w nr =
    (if a.flags.parent_settid then put_nr a.parent_tid nr ∷ [] else [])
    ++ (if a.flags.vfork then init_completion ∷ [] else [])
    ++ wake_up_new_task ∷ report_of (trace_of a w)
    ++ (if a.flags.vfork
        then wait_for_vfork_done ∷ (if w.killed then [] else report_vfork_done ∷ [])
        else [])

-- What does not change: the caller, the answers of the functions that a fork calls, and the limit.
pub record Setting : Type 0 where
  pub caller : Caller
  pub parent : Parent
  pub answers : Answers
  pub max_threads : ℕ
  pub tracing : Tracing

-- The number of the new task or an error, the state, and what was done.
abbrev pub Result : Type 0
Result = (Errno ⊎ ℕ) × St × List Action

-- After `copy_process`.
unfoldable pub task_copied : CloneArgs → Tracing → Option Errno × St → Result
unfolding actions
task_copied a w (some e, t) = (inl e, t, [])
task_copied a w (none, t) = let nr = w.vnr t.child.pid in (inr nr, t, actions a w nr)

-- `kernel_clone`
unfoldable pub kernel_clone : Setting → CloneArgs → St → Result
unfolding task_copied
kernel_clone w a s =
    if a.flags.pidfd && a.flags.parent_settid && a.pidfd == a.parent_tid
    then (inl einval, s, [])
    else task_copied a w.tracing
        (copy_process a.flags a.exit_signal w.caller w.parent w.answers w.max_threads s)

-- `lower_32_bits(flags)`, `flags & ~CSIGNAL` and `flags & CSIGNAL`. CLONE_NEWTIME is a bit of CSIGNAL.
abbrev pub lower_32_bits : CloneFlags → CloneFlags
lower_32_bits f = record f { clear_sighand = false; into_cgroup = false; unknown = false }

abbrev pub without_signal : CloneFlags → CloneFlags
without_signal f = record f { newtime = false; csignal = 0 }

abbrev pub signal_of : CloneFlags → ℕ
signal_of f = f.csignal + (if f.newtime then 128 else 0)

-- The members that an initializer leaves out.
abbrev pub zero_flags : CloneFlags
zero_flags = record {
  vm = false;
  fs = false;
  files = false;
  sighand = false;
  pidfd = false;
  ptrace = false;
  vfork = false;
  parent = false;
  thread = false;
  newns = false;
  sysvsem = false;
  settls = false;
  parent_settid = false;
  child_cleartid = false;
  detached = false;
  untraced = false;
  child_settid = false;
  newcgroup = false;
  newuts = false;
  newipc = false;
  newuser = false;
  newpid = false;
  newnet = false;
  io = false;
  clear_sighand = false;
  into_cgroup = false;
  newtime = false;
  csignal = 0;
  unknown = false;
}

abbrev pub zero_args : CloneArgs
zero_args = record {
  flags = zero_flags;
  exit_signal = 0;
  stack = 0;
  stack_size = 0;
  pidfd = 0;
  parent_tid = 0;
  io_thread = false;
  child_tid = 0;
  tls = 0;
  set_tid = [];
  set_tid_size = 0;
  cgroup = 0;
}

-- The arguments of `kernel_thread`, `fork`, `vfork` and `clone`.
abbrev pub kernel_thread_args : (fn arg : ℕ) → CloneFlags → CloneArgs
kernel_thread_args fn arg f = record zero_args {
  flags = without_signal (record (lower_32_bits f) { vm = true; untraced = true });
  exit_signal = signal_of (lower_32_bits f);
  stack = fn;
  stack_size = arg;
}

abbrev pub fork_args : CloneArgs
fork_args = record zero_args { exit_signal = sigchld }

abbrev pub vfork_args : CloneArgs
vfork_args = record zero_args {
  flags = record zero_flags { vfork = true; vm = true };
  exit_signal = sigchld;
}

abbrev pub clone_args : CloneFlags → (newsp parent_tidptr child_tidptr tls : ℕ) → CloneArgs
clone_args f newsp parent_tidptr child_tidptr tls = record zero_args {
  flags = without_signal (lower_32_bits f);
  pidfd = parent_tidptr;
  child_tid = child_tidptr;
  parent_tid = parent_tidptr;
  exit_signal = signal_of (lower_32_bits f);
  stack = newsp;
  tls = tls;
}

module _ (w : Setting) where
  unfoldable pub kernel_thread : (fn arg : ℕ) → CloneFlags → St → Result
  kernel_thread fn arg f = kernel_clone w (kernel_thread_args fn arg f)

  unfoldable pub fork : St → Result
  fork = kernel_clone w fork_args

  unfoldable pub vfork : St → Result
  vfork = kernel_clone w vfork_args

  unfoldable pub clone : CloneFlags → (newsp parent_tidptr child_tidptr tls : ℕ) → St → Result
  clone f newsp parent_tidptr child_tidptr tls =
      kernel_clone w (clone_args f newsp parent_tidptr child_tidptr tls)
