-- ===== src/Life/Counted.antt =====
-- linux-5.15.178/kernel/fork.c: what the counters of an address space count.
use oshome_work.Base.{ℕ, ◌+◌, ◌≤◌, ◌≡◌, refl, false, arith, ◌==◌, if◌then◌else◌}
use oshome_work.Life.{
  mmput_async, put_users, exit_mmap, begin_put, drop_queued, Life, end_put, mmdrop_async,
  mmdrop_async_fn, drop_count, put_queued, Work, mmput_async_fn, born, mmget, mmgrab, mmput, mmdrop,
  dropped, schedule,
}
use oshome_work.Life.{
  Step, Reach, here, next, get, grab, put, put_async, drop_holder, drop_async, exit_areas, finish,
  run_put, run_drop,
}

abbrev pub is_put : Work → ℕ
is_put put_queued = 1
is_put _ = 0

abbrev pub is_drop : Work → ℕ
is_drop drop_queued = 1
is_drop _ = 0

abbrev pub one_if : ℕ → ℕ
one_if n = if n == 0 then 0 else 1

-- The invariant. The users together have one reference to the structure until the last `__mmput` has
-- given it back.
pub record IsCounted (s : Life) : Type 0 where
  pub users : s.mm_users ≡ s.users
  pub count : s.mm_count ≡ s.holders + one_if s.users + is_put s.work + s.ending + s.ended
  pub once : one_if s.users + is_put s.work + s.ending + s.ended ≤ 1
  pub mapped : (if s.mapped then 1 else 0) ≡ one_if s.users + is_put s.work + s.ending
  pub freed : s.freed + is_drop s.work + one_if s.mm_count ≡ 1
  pub requeued : s.requeued ≡ false

born-IsCounted : IsCounted born
born-IsCounted = record {
  users = refl;
  count = refl;
  once = ground arith;
  mapped = refl;
  freed = refl;
  requeued = refl;
}

pub Step-IsCounted : {s t : Life} → Step s t → IsCounted s → IsCounted t
unfolding mmget mmgrab mmput mmput_async mmdrop mmdrop_async exit_mmap end_put mmput_async_fn
    mmdrop_async_fn dropped schedule put_users begin_put drop_count
Step-IsCounted (get s l) h = record {
  users = ground (arith, h, l);
  count = ground (arith, h, l);
  once = ground (arith, h, l);
  mapped = ground (arith, h, l);
  freed = ground (arith, h, l);
  requeued = ground (arith, h, l);
}
Step-IsCounted (grab s l) h = record {
  users = ground (arith, h, l);
  count = ground (arith, h, l);
  once = ground (arith, h, l);
  mapped = ground (arith, h, l);
  freed = ground (arith, h, l);
  requeued = ground (arith, h, l);
}
Step-IsCounted (put s l) h = record {
  users = ground (arith, h, l);
  count = ground (arith, h, l);
  once = ground (arith, h, l);
  mapped = ground (arith, h, l);
  freed = ground (arith, h, l);
  requeued = ground (arith, h, l);
}
Step-IsCounted (put_async s l) h = record {
  users = ground (arith, h, l);
  count = ground (arith, h, l);
  once = ground (arith, h, l);
  mapped = ground (arith, h, l);
  freed = ground (arith, h, l);
  requeued = ground (arith, h, l);
}
Step-IsCounted (drop_holder s l) h = record {
  users = ground (arith, h, l);
  count = ground (arith, h, l);
  once = ground (arith, h, l);
  mapped = ground (arith, h, l);
  freed = ground (arith, h, l);
  requeued = ground (arith, h, l);
}
Step-IsCounted (drop_async s l) h = record {
  users = ground (arith, h, l);
  count = ground (arith, h, l);
  once = ground (arith, h, l);
  mapped = ground (arith, h, l);
  freed = ground (arith, h, l);
  requeued = ground (arith, h, l);
}
Step-IsCounted (exit_areas s l) h = record {
  users = ground (arith, h, l);
  count = ground (arith, h, l);
  once = ground (arith, h, l);
  mapped = ground (arith, h, l);
  freed = ground (arith, h, l);
  requeued = ground (arith, h, l);
}
Step-IsCounted (finish s l) h = record {
  users = ground (arith, h, l);
  count = ground (arith, h, l);
  once = ground (arith, h, l);
  mapped = ground (arith, h, l);
  freed = ground (arith, h, l);
  requeued = ground (arith, h, l);
}
Step-IsCounted (run_put s l) h = record {
  users = ground (arith, h, l);
  count = ground (arith, h, l);
  once = ground (arith, h, l);
  mapped = ground (arith, h, l);
  freed = ground (arith, h, l);
  requeued = ground (arith, h, l);
}
Step-IsCounted (run_drop s l) h = record {
  users = ground (arith, h, l);
  count = ground (arith, h, l);
  once = ground (arith, h, l);
  mapped = ground (arith, h, l);
  freed = ground (arith, h, l);
  requeued = ground (arith, h, l);
}

pub Reach-IsCounted : {t : Life} → Reach born t → IsCounted t
Reach-IsCounted here = born-IsCounted
Reach-IsCounted (next r k) = Step-IsCounted k (Reach-IsCounted r)
