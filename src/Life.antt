-- ===== src/Life.antt =====
-- linux-5.15.178/kernel/fork.c: the life of an address space, by its two counters: `mmput` and
-- `mmput_async`, `__mmput`, `mmdrop` and `mmdrop_async`, their work functions, `get_task_mm` and
-- `mm_access`. `mm_users` counts those who use the memory; all of them together are one of those that
-- `mm_count` counts, who hold the structure. The calls interleave in any order, so `__mmput` is cut at
-- `exit_mmap`, which takes the memory away, and at its `mmdrop`.
pub mod Counted
pub mod Freed
pub mod Group
mod Tests
use oshome_work.Base.{
  ℕ, ◌+◌, ◌-◌, ◌≤◌, ◌≡◌, Bool, true, false, ◌||◌, Option, none, some, ◌==◌, if◌then◌else◌,
}
use oshome_work.Fork.Flags.{Errno, eacces}

-- `async_put_work`: nothing, `mmput_async_fn` or `mmdrop_async_fn` is queued.
pub data Work : Type 0 where
  no_work put_queued drop_queued : Work

-- The counters and the work; how many `__mmput` have begun, and how many have come past `exit_mmap`;
-- whether the memory is there; how often the structure was freed; whether a queued work was
-- initialised again; and those who hold a reference of each kind.
pub record Life : Type 0 where
  pub mm_users : ℕ
  pub mm_count : ℕ
  pub work : Work
  pub ending : ℕ
  pub ended : ℕ
  pub mapped : Bool
  pub freed : ℕ
  pub requeued : Bool
  pub users : ℕ
  pub holders : ℕ

-- `INIT_WORK` and `schedule_work`
unfoldable pub schedule : Work → Life → Life
schedule w s = elim s.work [
  | no_work ↦ record s { work = w }
  | put_queued ↦ record s { work = w; requeued = true }
  | drop_queued ↦ record s { work = w; requeued = true }
]

-- `mmget` and `mmgrab`, of the headers
unfoldable pub mmget : Life → Life
mmget s = record s { mm_users = s.mm_users + 1; users = s.users + 1 }

unfoldable pub mmgrab : Life → Life
mmgrab s = record s { mm_count = s.mm_count + 1; holders = s.holders + 1 }

-- `__mmdrop`, and what `mmdrop` and `mmdrop_async` do where `mm_count` gets to 0
unfoldable pub dropped : Life → Life
dropped s = record s { freed = s.freed + 1 }

unfoldable pub drop_count : (Life → Life) → Life → Life
drop_count at_zero s =
    let t = record s { mm_count = s.mm_count - 1 } in if s.mm_count - 1 == 0 then at_zero t else t

-- `mmdrop` and `mmdrop_async` by one that holds the structure
unfoldable pub mmdrop : Life → Life
unfolding drop_count dropped
mmdrop s = drop_count dropped (record s { holders = s.holders - 1 })

unfoldable pub mmdrop_async : Life → Life
unfolding drop_count schedule
mmdrop_async s = drop_count (schedule drop_queued) (record s { holders = s.holders - 1 })

-- `mmput` and `mmput_async` by one that uses the memory
unfoldable pub put_users : (Life → Life) → Life → Life
put_users at_zero s =
    let t = record s { mm_users = s.mm_users - 1; users = s.users - 1 } in
    if s.mm_users - 1 == 0 then at_zero t else t

unfoldable pub begin_put : Life → Life
begin_put s = record s { ending = s.ending + 1 }

unfoldable pub mmput : Life → Life
unfolding put_users begin_put
mmput s = put_users begin_put s

unfoldable pub mmput_async : Life → Life
unfolding put_users schedule
mmput_async s = put_users (schedule put_queued) s

-- `__mmput` up to `exit_mmap`, and its `mmdrop`
unfoldable pub exit_mmap : Life → Life
exit_mmap s = record s { ending = s.ending - 1; ended = s.ended + 1; mapped = false }

unfoldable pub end_put : Life → Life
unfolding drop_count dropped
end_put s = drop_count dropped (record s { ended = s.ended - 1 })

-- `mmput_async_fn` and `mmdrop_async_fn`
unfoldable pub mmput_async_fn : Life → Life
unfolding begin_put
mmput_async_fn s = begin_put (record s { work = no_work })

unfoldable pub mmdrop_async_fn : Life → Life
unfolding dropped
mmdrop_async_fn s = dropped (record s { work = no_work })

-- A step of anyone. New references come from old ones: a task that `get_task_mm` finds with the
-- address space under its lock uses it.
pub data Step : Life → Life → Type 0 where
  get : (s : Life) → 1 ≤ s.users → Step s (mmget s)
  grab : (s : Life) → 1 ≤ s.users + s.holders → Step s (mmgrab s)
  put : (s : Life) → 1 ≤ s.users → Step s (mmput s)
  put_async : (s : Life) → 1 ≤ s.users → Step s (mmput_async s)
  drop_holder : (s : Life) → 1 ≤ s.holders → Step s (mmdrop s)
  drop_async : (s : Life) → 1 ≤ s.holders → Step s (mmdrop_async s)
  exit_areas : (s : Life) → 1 ≤ s.ending → Step s (exit_mmap s)
  finish : (s : Life) → 1 ≤ s.ended → Step s (end_put s)
  run_put : (s : Life) → s.work ≡ put_queued → Step s (mmput_async_fn s)
  run_drop : (s : Life) → s.work ≡ drop_queued → Step s (mmdrop_async_fn s)

pub data Reach (s : Life) : Life → Type 0 where
  here : Reach s s
  next : {t u : Life} → Reach s t → Step t u → Reach s u

-- `mm_init` has set both counters to 1.
abbrev pub born : Life
born = record {
  mm_users = 1;
  mm_count = 1;
  work = no_work;
  ending = 0;
  ended = 0;
  mapped = true;
  freed = 0;
  requeued = false;
  users = 1;
  holders = 0;
}

-- `get_task_mm`, of a task that has an address space or not, and may be a kernel thread: whether the
-- address space is given.
unfoldable pub get_task_mm : (has_mm kthread : Bool) → Life → Bool × Life
unfolding mmget
get_task_mm has_mm kthread s =
    if has_mm then (if kthread then (false, s) else (true, mmget s)) else (false, s)

-- What `mm_access` gives: the address space, NULL or an error.
pub data Access : Type 0 where
  given null : Access
  refused : (e : Errno) → Access

-- After `get_task_mm`.
unfoldable pub checked : (own may_access : Bool) → Bool × Life → Access × Life
unfolding mmput
checked own may_access (false, s) = (null, s)
checked own may_access (true, s) =
    if own || may_access then (given, s) else (refused eacces, mmput s)

-- `mm_access`, where `killed` is the answer of `down_read_killable`
unfoldable pub mm_access :
    (killed : Option Errno) (has_mm kthread own may_access : Bool) → Life → Access × Life
unfolding checked get_task_mm
mm_access (some e) has_mm kthread own may_access s = (refused e, s)
mm_access none has_mm kthread own may_access s =
    checked own may_access (get_task_mm has_mm kthread s)
