-- ===== src/Life/Group.antt =====
-- linux-5.15.178/kernel/fork.c: the threads of a process and the `signal_struct` that they share:
-- `__put_task_struct`, `put_signal_struct`, `free_signal_struct` and `free_task`. The threads are
-- numbered below a bound. Whether `profile_handoff_task` takes a task over is an answer of each put.
pub mod Sigcnt
pub mod Once
mod Tests
use oshome_work.Base.{ℕ, ◌+◌, ◌-◌, ◌≤◌, ◌<◌, ◌≡◌, Bool, ◌==◌, if◌then◌else◌, update}

-- The references to each task, `sigcnt`, and whether `oom_mm` is set; what was freed and handed over,
-- and how often `oom_mm` was dropped; those who refer to each task, and the tasks that were made.
pub record Group : Type 0 where
  pub usage : ℕ → ℕ
  pub sigcnt : ℕ
  pub oom_mm : Bool
  pub task_frees : ℕ → ℕ
  pub handed_over : ℕ → ℕ
  pub signal_frees : ℕ
  pub oom_drops : ℕ
  pub refs : ℕ → ℕ
  pub made : ℕ → ℕ

-- `free_signal_struct`, `put_signal_struct` and `free_task`
unfoldable pub free_signal_struct : Group → Group
free_signal_struct g = record g {
  oom_drops = (if g.oom_mm then g.oom_drops + 1 else g.oom_drops);
  signal_frees = g.signal_frees + 1;
}

unfoldable pub put_signal_struct : Group → Group
unfolding free_signal_struct
put_signal_struct g =
    let t = record g { sigcnt = g.sigcnt - 1 } in
    if g.sigcnt - 1 == 0 then free_signal_struct t else t

unfoldable pub free_task : ℕ → Group → Group
free_task p g = record g { task_frees = update g.task_frees p (g.task_frees p + 1) }

unfoldable pub hand_over : ℕ → Group → Group
hand_over p g = record g { handed_over = update g.handed_over p (g.handed_over p + 1) }

-- `__put_task_struct`, and `put_task_struct` by one that refers to the task
unfoldable pub last_put : (handoff : Bool) → ℕ → Group → Group
unfolding put_signal_struct free_task hand_over
last_put handoff p g =
    let t = put_signal_struct g in if handoff then hand_over p t else free_task p t

unfoldable pub put_task_struct : (handoff : Bool) → ℕ → Group → Group
unfolding last_put
put_task_struct handoff p g =
    let t = record g {
      usage = update g.usage p (g.usage p - 1);
      refs = update g.refs p (g.refs p - 1);
    } in
    if g.usage p - 1 == 0 then last_put handoff p t else t

unfoldable pub get_task_struct : ℕ → Group → Group
get_task_struct p g = record g {
  usage = update g.usage p (g.usage p + 1);
  refs = update g.refs p (g.refs p + 1);
}

-- A new thread, with one reference to it and one of it to the `signal_struct`.
unfoldable pub add_thread : ℕ → Group → Group
add_thread p g = record g {
  usage = update g.usage p 1;
  refs = update g.refs p 1;
  made = update g.made p 1;
  sigcnt = g.sigcnt + 1;
}

pub data Step (n : ℕ) : Group → Group → Type 0 where
  add :
      (g : Group) (p q : ℕ)
      → p < n
      → q < n
      → g.made p ≡ 0
      → 1 ≤ g.refs q
      → Step n g (add_thread p g)
  get : (g : Group) (p : ℕ) → p < n → 1 ≤ g.refs p → Step n g (get_task_struct p g)
  put :
      (g : Group) (p : ℕ) (handoff : Bool)
      → p < n
      → 1 ≤ g.refs p
      → Step n g (put_task_struct handoff p g)

pub data Reach (n : ℕ) (s : Group) : Group → Type 0 where
  here : Reach n s s
  next : {t u : Group} → Reach n s t → Step n t u → Reach n s u

-- The first thread alone.
abbrev pub single : Bool → Group
single oom = record {
  usage = λ p. if p == 0 then 1 else 0;
  sigcnt = 1;
  oom_mm = oom;
  task_frees = λ p. 0;
  handed_over = λ p. 0;
  signal_frees = 0;
  oom_drops = 0;
  refs = λ p. if p == 0 then 1 else 0;
  made = λ p. if p == 0 then 1 else 0;
}
