-- ===== src/Vfork/Tests.antt =====
-- linux-5.15.178/kernel/fork.c: a `vfork` whose child releases its memory, and one whose parent is
-- killed while the child is about to complete.
use oshome_work.Base.{◌≡◌, refl, true, false, not, ◌&&◌, ◌==◌}
use oshome_work.Vfork.{
  Pair, Reach, waiting, returned, running, set_up, wake, signal, put_woken, release, child_lock,
  take, complete, child_unlock, here, next, copied, by_child, completing, killed,
}
use oshome_work.Vfork.Runs.{vfork_safe, vfork_released, frame_there, uses_child}
use oshome_work.Vfork.Sound.{is_completing}

-- The child has released its memory, and the parent still waits.
abbrev memory_gone : Pair
memory_gone = record copied {
  parent = waiting;
  child = running;
  done = true;
  usage = 2;
  released = true;
}

memory_gone-Reach : Reach copied memory_gone
memory_gone-Reach =
    next
      (next
        (next
          (next (next (next here (set_up _ refl refl)) (release _ refl refl))
            (child_lock _ refl refl))
          (take _ refl refl))
        (complete _ refl))
      (child_unlock _ refl)

abbrev went_on : Pair
went_on = record memory_gone { parent = returned; usage = 1 }

went_on-Reach : Reach copied went_on
went_on-Reach = next (next memory_gone-Reach (wake _ refl refl)) (put_woken _ refl)

vfork_released_example : went_on.released ≡ true
vfork_released_example = vfork_released went_on-Reach refl refl

-- The parent cannot get the lock before the child has completed.
abbrev dying : Pair
dying = record copied {
  parent = killed;
  child = completing;
  task_lock = by_child;
  usage = 2;
  released = true;
  was_killed = true;
}

dying-Reach : Reach copied dying
dying-Reach =
    next
      (next
        (next (next (next here (set_up _ refl refl)) (release _ refl refl))
          (child_lock _ refl refl))
        (take _ refl refl))
      (signal _ refl)

vfork_safe_example :
    ((dying.vfork_done && not (frame_there dying.parent)) ≡ false)
    × ((is_completing dying.child && not (frame_there dying.parent)) ≡ false)
    × ((uses_child dying.parent && dying.usage == 0) ≡ false)
vfork_safe_example = vfork_safe dying-Reach
