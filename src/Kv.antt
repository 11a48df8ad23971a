-- ===== src/Kv.antt =====
-- linux-5.15.178/kernel/kv_store.c with `struct kv_store` of include/linux/sched.h: the key-value
-- store of a process, its two system calls, and its set-up and clean-up.
-- `spin_lock` and `spin_unlock` are the ones of a single task: a second lock of a held lock never
-- returns. Several tasks at once are in `Kv.Threads`. What `kmalloc` answers is an argument.
pub mod Bucket
pub mod Invariant
pub mod Calls
pub mod Lifetime
pub mod Threads
mod Tests
use oshome_work.Base.{
  ℕ, zero, suc, ◌+◌, ◌-◌, ◌%◌, ◌^◌, Bool, true, false, Option, none, some, List, [], ◌∷◌,
  if◌then◌else◌, update, ◌==◌,
}
use oshome_work.Base.Int.{ℤ, pos, negsuc, minus_one}
use oshome_work.Base.Run.{Run, ok, fault, null_pointer, dangling, self_deadlock, not_held, ◌>>=◌}
use Bucket.{KvNode, find_node, set_value, value_of}

-- The arrays `locks[1024]` and `head[1024]`.
abbrev pub buckets : ℕ
buckets = 1024

-- `struct kv_store`; a lock is `true` while it is held.
pub record KvStore : Type 0 where
  pub locks : ℕ → Bool
  pub head : ℕ → List KvNode

-- The members of `struct task_struct` that the store uses. A pointer is `none` where it is NULL.
pub record Task : Type 0 where
  pub pid : ℕ
  pub tgid : ℕ
  pub kv : Option ℕ

-- Kernel memory: the live `kv_store` objects by address, and the number of live `kv_node`s.
pub record Kernel : Type 0 where
  pub stores : ℕ → Option KvStore
  pub nodes : ℕ

-- `k & 1023` on the two's complement pattern of an `int`: `-(n + 1)` is `2 ^ 32 - 1 - n`.
unfoldable pub bucket_of : ℤ → ℕ
bucket_of (pos n) = n % buckets
bucket_of (negsuc n) = (2 ^ 32 - 1 - n) % buckets

-- `task->kv`, followed.
unfoldable pub deref : Kernel → Option ℕ → Run KvStore
deref m none = fault null_pointer
deref m (some p) = elim (m.stores p) [ none ↦ fault dangling | some s ↦ ok s ]

-- The object at `p` after a change.
unfoldable pub put_store : Kernel → Option ℕ → KvStore → Kernel
put_store m none s = m
put_store m (some p) s = record m { stores = update m.stores p (some s) }

unfoldable pub spin_lock : ℕ → KvStore → Run KvStore
spin_lock h s =
    if s.locks h then fault self_deadlock else ok (record s { locks = update s.locks h true })

unfoldable pub spin_unlock : ℕ → KvStore → Run KvStore
spin_unlock h s =
    if s.locks h then ok (record s { locks = update s.locks h false }) else fault not_held

-- `task->kv->head[h] = ns`, as the list operations leave it.
unfoldable pub set_head : ℕ → List KvNode → KvStore → KvStore
set_head h ns s = record s { head = update s.head h ns }

-- The part of `write_kv` between the lock and the unlock; `room` says whether `kmalloc` succeeds.
-- The result, the store, and the number of nodes allocated.
unfoldable pub write_locked : Bool → ℤ → ℤ → KvStore → ℤ × KvStore × ℕ
write_locked room k v s =
    let h = bucket_of k in
    let ns = s.head h in
    elim (find_node k ns) [
      | some old ↦ (pos 4, set_head h (set_value k v ns) s, 0)
      | none ↦
          if room
          then (pos 4, set_head h (record { key = k; value = v } ∷ ns) s, 1)
          else (minus_one, s, 0)
    ]

-- `SYSCALL_DEFINE2(write_kv, int, k, int, v)`, `current` being `task`.
unfoldable pub write_kv : Bool → ℤ → ℤ → Task → Kernel → Run (ℤ × Kernel)
unfolding deref put_store spin_lock spin_unlock write_locked
write_kv room k v task m = do
  s ← deref m task.kv
  held ← spin_lock (bucket_of k) s
  let (ret, written, fresh) = write_locked room k v held
  released ← spin_unlock (bucket_of k) written
  ok (ret, record (put_store m task.kv released) { nodes = m.nodes + fresh })

-- The part of `read_kv` between the lock and the unlock.
unfoldable pub read_locked : ℤ → KvStore → ℤ
unfolding value_of
read_locked k s = elim (value_of (find_node k (s.head (bucket_of k)))) [
  | none ↦ minus_one
  | some v ↦ v
]

-- `SYSCALL_DEFINE1(read_kv, int, k)`.
unfoldable pub read_kv : ℤ → Task → Kernel → Run (ℤ × Kernel)
unfolding deref put_store spin_lock spin_unlock read_locked
read_kv k task m = do
  s ← deref m task.kv
  held ← spin_lock (bucket_of k) s
  let ret = read_locked k held
  released ← spin_unlock (bucket_of k) held
  ok (ret, put_store m task.kv released)

-- `hlist_for_each_entry_safe` with `hlist_del` and `kfree`: the list and the live nodes after it.
unfoldable pub free_nodes : List KvNode → ℕ → List KvNode × ℕ
free_nodes [] live = ([], live)
free_nodes (n ∷ ns) live = free_nodes ns (live - 1)

-- The `for` loop of `cleanup_task_kv_store`, from index `i` on, for `rounds` more rounds.
unfoldable pub free_buckets : ℕ → ℕ → KvStore → ℕ → Run (KvStore × ℕ)
unfolding spin_lock spin_unlock free_nodes set_head
free_buckets zero i s live = ok (s, live)
free_buckets (suc rounds) i s live = do
  held ← spin_lock i s
  let (ns, left) = free_nodes (held.head i) live
  released ← spin_unlock i (set_head i ns held)
  free_buckets rounds (i + 1) released left

-- `cleanup_task_kv_store`: only the main thread of a process cleans up.
unfoldable pub cleanup_task_kv_store : Task → Kernel → Run Kernel
unfolding deref put_store free_buckets
cleanup_task_kv_store task m =
    if task.tgid == task.pid
    then (do
      s ← deref m task.kv
      (emptied, live) ← free_buckets buckets 0 s m.nodes
      ok (record (put_store m task.kv emptied) { nodes = live }))
    else ok m

-- The loop of `init_task_kv_store` over what the memory held before.
unfoldable pub init_buckets : ℕ → ℕ → KvStore → KvStore
init_buckets zero i s = s
init_buckets (suc rounds) i s =
    init_buckets rounds (i + 1)
      (record { locks = update s.locks i false; head = update s.head i [] })

-- `init_task_kv_store`: `room` is the address and the contents of the memory that `kmalloc` found.
unfoldable pub init_task_kv_store : Option (ℕ × KvStore) → Task → Kernel → ℤ × Task × Kernel
unfolding init_buckets put_store
init_task_kv_store none task m = (minus_one, record task { kv = none }, m)
init_task_kv_store (some (p, garbage)) task m =
    (pos 0, record task { kv = some p }, put_store m (some p) (init_buckets buckets 0 garbage))
