-- ===== src/Life/Tests.antt =====
-- linux-5.15.178/kernel/fork.c: an address space whose last user leaves while a lazy thread holds it.
use oshome_work.Base.{◌+◌, ◌≤◌, ◌≡◌, refl, false, not, ◌&&◌, arith, leb}
use oshome_work.Life.Freed.{mm_freed, mm_safe}
use oshome_work.Life.{
  put_users, Life, drop_count, mmput_async, put_async, grab, drop_holder, here, next, put_queued,
  Reach, born, mmdrop, mmgrab, schedule,
}

-- The task is gone, and its `mmput` is queued.
abbrev left : Life
left = record born { mm_users = 0; users = 0; mm_count = 2; holders = 1; work = put_queued }

left-Reach : Reach born left
unfolding mmgrab mmput_async put_users schedule
left-Reach = next (next here (grab _ (ground arith))) (put_async _ (ground arith))

mm_safe_example :
    ((leb 1 left.users && not left.mapped) ≡ false)
    × ((leb 1 (left.users + left.holders) && leb 1 left.freed) ≡ false)
    × ((leb 1 left.ending && leb 1 left.mm_users) ≡ false)
    × (left.freed ≤ 1)
    × (left.requeued ≡ false)
mm_safe_example = mm_safe left-Reach

-- The lazy thread leaves too.
abbrev alone : Life
alone = record left { mm_count = 1; holders = 0 }

alone-Reach : Reach born alone
unfolding mmdrop drop_count
alone-Reach = next left-Reach (drop_holder _ (ground arith))

mm_freed_example : (u : Life) × Reach alone u × (u.freed ≡ 1) × (u.mapped ≡ false)
mm_freed_example = mm_freed alone-Reach refl
