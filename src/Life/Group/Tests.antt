-- ===== src/Life/Group/Tests.antt =====
-- linux-5.15.178/kernel/fork.c: two threads that end.
use oshome_work.Life.Group.Once.{threads_end_once}
use oshome_work.Base.{
  ◌+◌, ◌≤◌, ◌≡◌, refl, true, false, not, ◌&&◌, arith, leb, ◌==◌, if◌then◌else◌, total,
}
use oshome_work.Life.Group.{
  put_signal_struct, put_task_struct, Group, add_thread, free_task, free_signal_struct, last_put,
  Reach, next, here, add, put, single, hand_over,
}

-- A second thread starts, the first one is handed over, and the second one is freed.
abbrev two : Group
two = add_thread 1 (single true)

abbrev first_gone : Group
first_gone = put_task_struct true 0 two

abbrev none_left : Group
none_left = put_task_struct false 1 first_gone

none_left-Reach : Reach 2 (single true) none_left
unfolding add_thread put_task_struct last_put put_signal_struct free_signal_struct free_task
    hand_over
none_left-Reach =
    next
      (next (next here (add (single true) 1 0 (ground arith) (ground arith) refl (ground arith)))
        (put two 0 true (ground arith) (ground arith)))
      (put first_gone 1 false (ground arith) (ground arith))

threads_end_once_example :
    ((leb 1 (none_left.refs 1)
        && leb 1 (none_left.signal_frees + none_left.task_frees 1 + none_left.handed_over 1))
      ≡ false)
    × (none_left.signal_frees ≤ 1)
    × (none_left.task_frees 1 + none_left.handed_over 1 ≤ 1)
    × (none_left.oom_drops ≡ (if none_left.oom_mm then none_left.signal_frees else 0))
    × ((total 2 none_left.refs == 0 && not (none_left.signal_frees == 1)) ≡ false)
    × ((none_left.refs 1 == 0
          && not (none_left.task_frees 1 + none_left.handed_over 1 == none_left.made 1))
        ≡ false)
threads_end_once_example =
    threads_end_once 2 true none_left (ground arith) none_left-Reach 1 (ground arith)
