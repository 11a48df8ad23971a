-- ===== src/Kv/Threads/Sequential.antt =====
-- linux-5.15.178/kernel/kv_store.c: the calls as a caller sees them, on a map and one after the other,
-- without buckets, locks or searches.
use oshome_work.Base.{◌≡◌, Bool, ◌||◌, Option, if◌then◌else◌}
use oshome_work.Base.Int.{ℤ, pos, minus_one}
use oshome_work.Kv.Invariant.{map_write, is_some}
use oshome_work.Kv.Calls.{answer}

-- What a thread has asked for, or the answer that it has still to be given.
pub data Call : Type 0 where
  resting : Call
  writing : (k v : ℤ) → Call
  reading : (k : ℤ) → Call
  answered : (ret : ℤ) → Call

-- One thread begins a call, a call is carried out as a whole, or a thread gets its answer. A write
-- answers 4 where the key was there or there was room for it, and else -1; a read answers what the
-- map has.
pub data Act (f g : ℤ → Option ℤ) : Call → Call → Type 0 where
  start_write : (k v : ℤ) → ((j : ℤ) → g j ≡ f j) → Act f g resting (writing k v)
  start_read : (k : ℤ) → ((j : ℤ) → g j ≡ f j) → Act f g resting (reading k)
  do_write :
      {k v : ℤ} (room : Bool)
      → ((j : ℤ) → g j ≡ map_write room k v f j)
      → (ret : ℤ) → ret ≡ (if is_some (f k) || room then pos 4 else minus_one)
      → Act f g (writing k v) (answered ret)
  do_read :
      {k : ℤ}
      → ((j : ℤ) → g j ≡ f j)
      → (ret : ℤ) → ret ≡ answer (f k)
      → Act f g (reading k) (answered ret)
  finish : {ret : ℤ} → ((j : ℤ) → g j ≡ f j) → Act f g (answered ret) resting
