-- ===== src/Vfork.antt =====
-- linux-5.15.178/kernel/fork.c: a parent that waits for the child of a `vfork`, step by step: the end
-- of `kernel_clone`, `wait_for_vfork_done`, `mm_release` and `complete_vfork_done`. The completion is
-- a variable of the parent's `kernel_clone`; the steps of both tasks interleave in any order.
pub mod Sound
pub mod Runs
mod Tests
use oshome_work.Base.{ℕ, ◌+◌, ◌-◌, ◌≡◌, Bool, true, false}

-- Where the parent is: before `init_completion`, in `wait_for_completion_killable`, after it with or
-- without a fatal signal, with the lock of the child, after the lock, and after `put_task_struct`.
pub data ParentAt : Type 0 where
  forking waiting woken killed locked cleared leaving returned : ParentAt

-- Where the child is: outside of `mm_release`, before the lock, with the lock, before and after
-- `complete`, and after its last step.
pub data ChildAt : Type 0 where
  asleep running entered holding completing completed exited : ChildAt

pub data Holder : Type 0 where
  nobody by_parent by_child : Holder

-- Both tasks: `vfork_done` of the child points to the completion, which may be done; who holds the
-- lock of the child; the references to the child; whether the child has called `mm_release`, and
-- whether a fatal signal ended the wait.
pub record Pair : Type 0 where
  pub parent : ParentAt
  pub child : ChildAt
  pub vfork_done : Bool
  pub done : Bool
  pub task_lock : Holder
  pub usage : ℕ
  pub released : Bool
  pub was_killed : Bool

-- A step of one of them.
pub data Step : Pair → Pair → Type 0 where
  -- `p->vfork_done = &vfork`, `init_completion`, `get_task_struct` and `wake_up_new_task`
  set_up :
      (s : Pair)
      → s.parent ≡ forking
      → s.child ≡ asleep
      → Step s (record s {
        parent = waiting;
        child = running;
        vfork_done = true;
        done = false;
        usage = s.usage + 1;
      })
  -- `wait_for_completion_killable`
  wake : (s : Pair) → s.parent ≡ waiting → s.done ≡ true → Step s (record s { parent = woken })
  signal :
      (s : Pair) → s.parent ≡ waiting → Step s (record s { parent = killed; was_killed = true })
  -- `task_lock`, `child->vfork_done = NULL` and `task_unlock`
  lock :
      (s : Pair)
      → s.parent ≡ killed
      → s.task_lock ≡ nobody
      → Step s (record s { parent = locked; task_lock = by_parent })
  clear :
      (s : Pair) → s.parent ≡ locked → Step s (record s { parent = cleared; vfork_done = false })
  unlock :
      (s : Pair) → s.parent ≡ cleared → Step s (record s { parent = leaving; task_lock = nobody })
  -- `put_task_struct(child)`, and the return
  put_woken :
      (s : Pair) → s.parent ≡ woken → Step s (record s { parent = returned; usage = s.usage - 1 })
  put_killed :
      (s : Pair) → s.parent ≡ leaving → Step s (record s { parent = returned; usage = s.usage - 1 })
  -- `mm_release`, whose test of `vfork_done` is without the lock
  release :
      (s : Pair)
      → s.child ≡ running
      → s.vfork_done ≡ true
      → Step s (record s { child = entered; released = true })
  release_nothing :
      (s : Pair) → s.child ≡ running → s.vfork_done ≡ false → Step s (record s { released = true })
  -- `complete_vfork_done`
  child_lock :
      (s : Pair)
      → s.child ≡ entered
      → s.task_lock ≡ nobody
      → Step s (record s { child = holding; task_lock = by_child })
  take :
      (s : Pair)
      → s.child ≡ holding
      → s.vfork_done ≡ true
      → Step s (record s { child = completing; vfork_done = false })
  take_nothing :
      (s : Pair)
      → s.child ≡ holding
      → s.vfork_done ≡ false
      → Step s (record s { child = completed })
  complete :
      (s : Pair) → s.child ≡ completing → Step s (record s { child = completed; done = true })
  child_unlock :
      (s : Pair) → s.child ≡ completed → Step s (record s { child = running; task_lock = nobody })
  -- The child exits after its last `mm_release`, and its own reference goes.
  exit :
      (s : Pair)
      → s.child ≡ running
      → s.released ≡ true
      → Step s (record s { child = exited; usage = s.usage - 1 })

-- The states that a fork leads to.
pub data Reach (s : Pair) : Pair → Type 0 where
  here : Reach s s
  next : {t u : Pair} → Reach s t → Step t u → Reach s u

-- `copy_process` has made the child, which does not run yet.
abbrev pub copied : Pair
copied = record {
  parent = forking;
  child = asleep;
  vfork_done = false;
  done = false;
  task_lock = nobody;
  usage = 1;
  released = false;
  was_killed = false;
}
