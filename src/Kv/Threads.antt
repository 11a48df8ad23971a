-- ===== src/Kv/Threads.antt =====
-- The calls of kv_store.c by the threads of one process, interleaved in any order. A step is one
-- access to the shared store under the rules of a spin lock: a thread waits while the lock is held.
-- The search of a bucket is one step, apart from the change that follows it, so that only the lock
-- makes what was found still true. Which call a thread makes next, and whether `kmalloc` has room,
-- is left open.
pub mod Invariant
pub mod Safety
pub mod Sequential
mod Tests
use oshome_work.Base.{ℕ, ◌≡◌, Bool, true, false, Option, none, some, ◌∷◌, update}
use oshome_work.Base.Int.{ℤ, pos, minus_one}
use oshome_work.Kv.Bucket.{KvNode, find_node, set_value}
use oshome_work.Kv.{KvStore, bucket_of, set_head, read_locked}

-- Where a thread stands in `write_kv` or `read_kv`.
pub data Pc : Type 0 where
  idle : Pc
  write_lock write_search write_found write_missing : (k v : ℤ) → Pc
  read_lock read_search : (k : ℤ) → Pc
  leave : (h : ℕ) (ret : ℤ) → Pc

-- The bucket whose lock the thread has taken and not released.
abbrev pub inside : Pc → Option ℕ
inside idle = none
inside (write_lock k v) = none
inside (write_search k v) = some (bucket_of k)
inside (write_found k v) = some (bucket_of k)
inside (write_missing k v) = some (bucket_of k)
inside (read_lock k) = none
inside (read_search k) = some (bucket_of k)
inside (leave h ret) = some h

abbrev pub with_lock : ℕ → Bool → KvStore → KvStore
with_lock h b s = record s { locks = update s.locks h b }

-- One step of one thread.
pub data Move (s : KvStore) : Pc → KvStore → Pc → Type 0 where
  begin_write : (k v : ℤ) → Move s idle s (write_lock k v)
  lock_write :
      {k v : ℤ}
      → s.locks (bucket_of k) ≡ false
      → Move s (write_lock k v) (with_lock (bucket_of k) true s) (write_search k v)
  hit :
      {k v : ℤ} (n : KvNode)
      → find_node k (s.head (bucket_of k)) ≡ some n
      → Move s (write_search k v) s (write_found k v)
  miss :
      {k v : ℤ}
      → find_node k (s.head (bucket_of k)) ≡ none
      → Move s (write_search k v) s (write_missing k v)
  assign :
      {k v : ℤ}
      → Move s
          (write_found k v)
          (set_head (bucket_of k) (set_value k v (s.head (bucket_of k))) s)
          (leave (bucket_of k) (pos 4))
  insert :
      {k v : ℤ}
      → Move s
          (write_missing k v)
          (set_head (bucket_of k) (record { key = k; value = v } ∷ s.head (bucket_of k)) s)
          (leave (bucket_of k) (pos 4))
  no_room : {k v : ℤ} → Move s (write_missing k v) s (leave (bucket_of k) minus_one)
  begin_read : (k : ℤ) → Move s idle s (read_lock k)
  lock_read :
      {k : ℤ}
      → s.locks (bucket_of k) ≡ false
      → Move s (read_lock k) (with_lock (bucket_of k) true s) (read_search k)
  look : {k : ℤ} → Move s (read_search k) s (leave (bucket_of k) (read_locked k s))
  unlock : {h : ℕ} {ret : ℤ} → Move s (leave h ret) (with_lock h false s) idle

-- The threads are numbered; all share one store.
pub record System : Type 0 where
  pub store : KvStore
  pub pc : ℕ → Pc

pub data Step (σ : System) : System → Type 0 where
  pick :
      (i : ℕ) {s : KvStore} {p : Pc}
      → Move σ.store (σ.pc i) s p
      → Step σ (record { store = s; pc = update σ.pc i p })

pub data Reach (σ : System) : System → Type 0 where
  here : Reach σ σ
  later : {τ υ : System} → Reach σ τ → Step τ υ → Reach σ υ
