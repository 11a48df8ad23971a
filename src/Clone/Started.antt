-- ===== src/Clone/Started.antt =====
-- linux-5.15.178/kernel/fork.c: how a call of `kernel_clone` ends.
use oshome_work.Base.{
  ℕ, suc, ◌≡◌, refl, ap, inl, inr, true, false, not, ◌&&◌, Option, none, some, List, [], ◌∷◌, arith,
  ◌==◌, if◌then◌else◌, either,
}
use oshome_work.Fork.State.{St}
use oshome_work.Fork.NewTask.{copy_process-Made, Made}
use oshome_work.Fork.{copy_process}
use oshome_work.Fork.Undone.{Undone}
use oshome_work.Fork.Cleanup.{copy_process-Undone}
use oshome_work.Fork.Flags.{CloneArgs}
use oshome_work.Clone.{
  event_vfork, event_fork, event_clone, report_vfork_done, Setting, kernel_clone, Result,
  task_copied, Tracing, wait_for_vfork_done, trace_of, wake_up_new_task, Action, Trace, put_nr,
  report, actions, Errno, sigchld,
}

-- What the actions write to the memory of the caller, how often they wake the task, wait for the end
-- of a `vfork` and tell the tracer, and what follows the first wake-up.
pub writes : List Action → List (ℕ × ℕ)
writes [] = []
writes (put_nr at_ nr ∷ acts) = (at_, nr) ∷ writes acts
writes (_ ∷ acts) = writes acts

pub wakes : List Action → ℕ
wakes [] = 0
wakes (wake_up_new_task ∷ acts) = suc (wakes acts)
wakes (_ ∷ acts) = wakes acts

pub waits : List Action → ℕ
waits [] = 0
waits (wait_for_vfork_done ∷ acts) = suc (waits acts)
waits (_ ∷ acts) = waits acts

pub reports : List Action → List Trace
reports [] = []
reports (report trace ∷ acts) = trace ∷ reports acts
reports (_ ∷ acts) = reports acts

-- How often the tracer is told of the end of a `vfork`.
pub ends : List Action → ℕ
ends [] = 0
ends (report_vfork_done ∷ acts) = suc (ends acts)
ends (_ ∷ acts) = ends acts

pub after_wake : List Action → List Action
after_wake [] = []
after_wake (wake_up_new_task ∷ acts) = acts
after_wake (_ ∷ acts) = after_wake acts

-- The kind of a new task.
abbrev pub kind_of : CloneArgs → Trace
kind_of a =
    if a.flags.vfork
    then event_vfork
    else if a.exit_signal == sigchld
    then event_fork
    else event_clone

-- The task is woken once; the parent's memory is written only before that, and the tracer told and
-- a `vfork` waited for only after it. The end of a `vfork` is told whatever CLONE_UNTRACED says.
pub record IsStart (a : CloneArgs) (w : Tracing) (nr : ℕ) (acts : List Action) : Type 0 where
  pub woken : wakes acts ≡ 1
  pub written : writes acts ≡ (if a.flags.parent_settid then (a.parent_tid, nr) ∷ [] else [])
  pub written_after : writes (after_wake acts) ≡ []
  pub waited : waits acts ≡ (if a.flags.vfork then 1 else 0)
  pub waited_after : waits (after_wake acts) ≡ waits acts
  pub untraced : a.flags.untraced ≡ true → reports acts ≡ []
  pub traced :
      a.flags.untraced ≡ false
      → reports acts ≡ (if w.event_enabled (kind_of a) then kind_of a ∷ [] else [])
  pub told_after : reports (after_wake acts) ≡ reports acts
  pub ended : ends acts ≡ (if a.flags.vfork && not w.killed then 1 else 0)
  pub ended_after : ends (after_wake acts) ≡ ends acts

actions-IsStart : (a : CloneArgs) (w : Tracing) (nr : ℕ) → IsStart a w nr (actions a w nr)
unfolding actions trace_of writes wakes waits reports ends after_wake
actions-IsStart a w nr = record {
  woken = ground arith;
  written = ground arith;
  written_after = ground arith;
  waited = ground arith;
  waited_after = ground arith;
  untraced = λ e. ground arith;
  traced = λ e. ground arith;
  told_after = ground arith;
  ended = ground arith;
  ended_after = ground arith;
}

-- A call that fails has done nothing and holds nothing; one that does not has made the task, gives
-- its number, and has started it.
pub Ended : Setting → CloneArgs → St → Result → Type 0
Ended w a s (inl e, t, acts) = Undone t × (acts ≡ [])
Ended w a s (inr nr, t, acts) =
    Made a.flags a.exit_signal w.parent w.answers s t
    × (nr ≡ w.tracing.vnr w.answers.pid_nr)
    × IsStart a w.tracing nr acts

task_copied-Ended :
    (w : Setting) (a : CloneArgs) (s : St) (r : Option Errno × St)
    → ((e : Errno) → r.0 ≡ some e → Undone r.1)
    → (r.0 ≡ none → Made a.flags a.exit_signal w.parent w.answers s r.1)
    → Ended w a s (task_copied a w.tracing r)
unfolding task_copied Ended
task_copied-Ended w a s (some e, t) h k = (h e refl, refl)
task_copied-Ended w a s (none, t) h k =
    let m = k refl in
    (m, ap w.tracing.vnr m.pid, actions-IsStart a w.tracing (w.tracing.vnr t.child.pid))

-- From a state in which nothing is held, no signal delayed and no lock taken: a `kernel_clone` that
-- fails does nothing for a new task and leaves the state so; one that does not gives the number of
-- the task that `copy_process` made, wakes it once, writes the number to the parent's memory
-- exactly where that is asked for and before the task is woken, waits exactly for a `vfork`, and
-- tells the tracer and waits only after the task is woken; an untraced task is not reported, and
-- any other one exactly where the tracer asked for its kind, a `vfork`, a fork with SIGCHLD or
-- another clone; the end of a `vfork` that no signal cuts short is told once, untraced or not.
pub kernel_clone-Ended :
    (w : Setting) (a : CloneArgs) (s : St) → Undone s → Ended w a s (kernel_clone w a s)
unfolding kernel_clone Ended
kernel_clone-Ended w a s h =
    either (Ended w a s) (a.flags.pidfd && a.flags.parent_settid && a.pidfd == a.parent_tid)
      (h, refl)
      (task_copied-Ended w a s
        (copy_process a.flags a.exit_signal w.caller w.parent w.answers w.max_threads s)
        (λ e q.
          copy_process-Undone a.flags a.exit_signal w.caller w.parent w.answers w.max_threads s e h
            q)
        (λ q.
          copy_process-Made a.flags a.exit_signal w.caller w.parent w.answers w.max_threads s q))
