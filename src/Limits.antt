-- ===== src/Limits.antt =====
-- linux-5.15.178/kernel/fork.c: the greatest number of threads: `set_max_threads`, what `fork_init`
-- makes of it, and `sysctl_max_threads`. The sizes are parameters; `div64_u64` and the multiplication
-- are those of 64 bits.
pub mod Bounds
mod Tests
use oshome_work.Base.{
  ℕ, ◌+◌, ◌-◌, ◌*◌, ◌/◌, ◌%◌, ◌^◌, ◌≤◌, ◌<◌, ◌≡◌, Bool, true, not, ◌||◌, ltb, if◌then◌else◌,
}
use oshome_work.Base.Int.{ℤ, pos, eq_ℤ}

-- PAGE_SIZE, THREAD_SIZE and MAX_THREADS, and `fls64`, the number of the highest set bit from 1, or 0.
pub record Machine : Type 0 where
  pub page_size : ℕ
  pub thread_size : ℕ
  pub max_threads_limit : ℕ
  pub fls64 : ℕ → ℕ
  pub fls64_le : (n : ℕ) → fls64 n ≤ 64
  pub below : (n : ℕ) → n < 2 ^ 64 → n < 2 ^ fls64 n
  pub highest : (n : ℕ) → n < 2 ^ 64 → 1 ≤ fls64 n → 2 ^ (fls64 n - 1) ≤ n

abbrev pub min_threads : ℕ
min_threads = 20

-- `clamp_t(u64, threads, MIN_THREADS, MAX_THREADS)`
unfoldable pub clamp_threads : Machine → ℕ → ℕ
clamp_threads z threads =
    if ltb threads min_threads
    then min_threads
    else if ltb z.max_threads_limit threads
    then z.max_threads_limit
    else threads

-- The first `threads` of `set_max_threads`.
unfoldable pub threads_for : Machine → (nr_pages : ℕ) → ℕ
threads_for z nr_pages =
    if ltb 64 (z.fls64 nr_pages + z.fls64 z.page_size)
    then z.max_threads_limit
    else (nr_pages * z.page_size % 2 ^ 64) / (z.thread_size * 8 % 2 ^ 64)

-- `set_max_threads`: the new `max_threads`.
unfoldable pub set_max_threads : Machine → (nr_pages max_threads_suggested : ℕ) → ℕ
unfolding clamp_threads threads_for
set_max_threads z nr_pages max_threads_suggested =
    let threads = threads_for z nr_pages in
    clamp_threads z (if ltb max_threads_suggested threads then max_threads_suggested else threads)

-- What `fork_init` sets: `max_threads`, both limits of RLIMIT_NPROC, which RLIMIT_SIGPENDING gets too,
-- and each count of the first user name space.
pub record Defaults : Type 0 where
  pub max_threads : ℕ
  pub nproc_cur : ℕ
  pub nproc_max : ℕ
  pub sigpending_cur : ℕ
  pub sigpending_max : ℕ
  pub ucount_max : ℕ

unfoldable pub fork_init : Machine → (nr_pages : ℕ) → Defaults
unfolding set_max_threads
fork_init z nr_pages =
    let m = set_max_threads z nr_pages z.max_threads_limit in
    record {
      max_threads = m;
      nproc_cur = m / 2;
      nproc_max = m / 2;
      sigpending_cur = m / 2;
      sigpending_max = m / 2;
      ucount_max = m / 2;
    }

-- `proc_dointvec_minmax`, which reads an integer into `t.data`: what it answers and leaves there.
pub record Sysctl : Type 0 where
  pub dointvec : (write : Bool) (lower upper value : ℕ) → ℤ × ℕ
  pub in_range :
      (lower upper value : ℕ)
      → (dointvec true lower upper value).0 ≡ pos 0
      → lower ≤ value
      → value ≤ upper
      → (lower ≤ (dointvec true lower upper value).1)
        × ((dointvec true lower upper value).1 ≤ upper)

-- `sysctl_max_threads`: the answer and the new `max_threads`.
unfoldable pub sysctl_max_threads : Machine → Sysctl → (write : Bool) → (max_threads : ℕ) → ℤ × ℕ
sysctl_max_threads z lib write max_threads =
    let r = lib.dointvec write 1 z.max_threads_limit max_threads in
    if not (eq_ℤ r.0 (pos 0)) || not write then (r.0, max_threads) else (pos 0, r.1)
