-- ===== src/Fork/Checks.antt =====
-- linux-5.15.178/kernel/fork.c: what the checks of the flags let through.
use oshome_work.Base.{ℕ, ◌≡◌, ◌≢◌, ◌↔◌, ◌⊎◌, Bool, true, false, none, arith}
use oshome_work.Fork.Flags.{CloneArgs, clone3_args_valid, check_clone_flags, Caller, CloneFlags}

-- The rules of the comments, as one table.
pub record IsAllowed (f : CloneFlags) (c : Caller) : Type 0 where
  pub root : (f.fs ≡ false) ⊎ ((f.newns ≡ false) × (f.newuser ≡ false))
  pub signals : (f.thread ≡ false) ⊎ (f.sighand ≡ true)
  pub memory : (f.sighand ≡ false) ⊎ (f.vm ≡ true)
  pub sibling : (f.parent ≡ false) ⊎ (c.unkillable ≡ false)
  pub group :
      (f.thread ≡ false) ⊎ ((f.newuser ≡ false) × (f.newpid ≡ false) × (c.same_pid_ns ≡ true))
  pub time : ((f.thread ≡ false) × (f.vm ≡ false)) ⊎ (c.same_time_ns ≡ true)
  pub descriptor : (f.pidfd ≡ false) ⊎ ((f.detached ≡ false) × (f.thread ≡ false))

-- `copy_process` lets a set of flags through exactly where it shares no root across name spaces,
-- makes threads only with shared signal handlers and shares these only with the memory, gives no
-- sibling to an unkillable process, keeps threads and shared memory within their pid and time name
-- spaces, and opens a pidfd only for a process.
pub check_clone_flags-IsAllowed :
    (f : CloneFlags) (c : Caller) → (check_clone_flags f c ≡ none) ↔ IsAllowed f c
unfolding check_clone_flags
check_clone_flags-IsAllowed f c = (
  λ h. record {
    root = ground arith;
    signals = ground arith;
    memory = ground arith;
    sibling = ground arith;
    group = ground arith;
    time = ground arith;
    descriptor = ground arith;
  },
  λ h. ground arith,
)

-- `clone3` refuses unknown flags, a detached child, a signal in the flags, both ways to treat the
-- handlers at once, an exit signal for a thread or sibling, and a stack with no size or no place; it
-- refuses nothing else, and an accepted stack is passed on by its upper end.
pub record IsClone3 (access_ok : ℕ → ℕ → Bool) (a : CloneArgs) : Type 0 where
  pub known : a.flags.unknown ≡ false
  pub attached : a.flags.detached ≡ false
  pub plain : a.flags.csignal ≡ 0
  pub handlers : (a.flags.sighand ≡ false) ⊎ (a.flags.clear_sighand ≡ false)
  pub silent : ((a.flags.thread ≡ false) × (a.flags.parent ≡ false)) ⊎ (a.exit_signal ≡ 0)
  pub stack :
      ((a.stack ≡ 0) × (a.stack_size ≡ 0))
      ⊎ ((a.stack ≢ 0) × (a.stack_size ≢ 0) × (access_ok a.stack a.stack_size ≡ true))

-- `clone3` accepts its arguments exactly where no flag is unknown or detached, no signal stands in
-- the flags, the handlers are not both shared and cleared, a thread or sibling has no exit signal,
-- and the stack has both a place that is accessible and a size, or neither.
pub clone3_args_valid-IsClone3 :
    (access_ok : ℕ → ℕ → Bool) (a : CloneArgs)
    → ((clone3_args_valid access_ok a).0 ≡ true) ↔ IsClone3 access_ok a
unfolding clone3_args_valid
clone3_args_valid-IsClone3 access_ok a = (
  λ h. record {
    known = ground arith;
    attached = ground arith;
    plain = ground arith;
    handlers = ground arith;
    silent = ground arith;
    stack = ground arith;
  },
  λ h. ground arith,
)
