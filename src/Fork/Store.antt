-- ===== src/Fork/Store.antt =====
-- linux-5.15.178/kernel/fork.c and kernel/kv_store.c together: the stores of the tasks that a fork
-- makes.
use oshome_work.Base.{ℕ, ◌≡◌, sym, ◌∙◌, fun_ext, Bool, true, false, none, some}
use oshome_work.Base.Int.{ℤ, minus_one, eq_ℤ_self}
use oshome_work.Kv.Lifetime.{init-Fresh}
use oshome_work.Fork.{copy_process}
use oshome_work.Fork.NewTask.{child_kernel_process, copy_process-Made}
use oshome_work.Fork.State.{Answers, St, Parent, Child}
use oshome_work.Fork.Flags.{Caller, CloneFlags}
use oshome_work.Kv.{
  init_task_kv_store, read_kv, put_store, init_buckets, write_kv, Kernel, deref, Task, KvStore,
  buckets,
}
use oshome_work.Kv.Calls.{answer, calls_null, read_kv-answer, read_kv-write_kv, Ready}
use oshome_work.Base.Run.{◌>>=◌, ok, fault, null_pointer}

-- The members of the new task that the calls of the store use.
unfoldable pub as_task : Child → Task
as_task c = record { pid = c.pid; tgid = c.tgid; kv = c.kv }

read_kv_same : (k : ℤ) (t u : Task) (m : Kernel) → t.kv ≡ u.kv → read_kv k t m ≡ read_kv k u m
unfolding read_kv
read_kv_same k t u m e = rw e

-- After a fork that makes a thread of the process, a value that a task with the same store writes,
-- with the store well formed, the lock free and memory for a node, is what the new thread reads.
pub thread_sees_write :
    (f : CloneFlags) (exit_signal : ℕ) (c : Caller) (p : Parent) (a : Answers) (max_threads : ℕ)
    (s : St) (k v : ℤ) (writer : Task) (store : KvStore)
    → f.thread ≡ true
    → (copy_process f exit_signal c p a max_threads s).0 ≡ none
    → writer.kv ≡ p.kv
    → Ready writer (copy_process f exit_signal c p a max_threads s).1.kernel k store
    → write_kv true k v writer (copy_process f exit_signal c p a max_threads s).1.kernel
        >>= (λ r. read_kv k (as_task (copy_process f exit_signal c p a max_threads s).1.child) r.1)
        >>= (λ r. ok r.0)
      ≡ ok v
unfolding as_task
thread_sees_write f exit_signal c p a max_threads s k v writer store thread done same ready =
    let t = (copy_process f exit_signal c p a max_threads s).1 in
    let made = copy_process-Made f exit_signal c p a max_threads s done in
    let reads = λ (m : Kernel).
      read_kv_same k (as_task t.child) writer m (made.store ∙ rw thread (sym same)) in
    let both = read_kv-write_kv k v k writer t.kernel store ready ready.free in
    rw (fun_ext reads) (both ∙ rw (eq_ℤ_self k))

-- A fork that makes a process succeeds even where the allocation of its store fails, and then
-- `write_kv` and `read_kv` of the new process fault on a null pointer.
pub child_without_store :
    (f : CloneFlags) (exit_signal : ℕ) (c : Caller) (p : Parent) (a : Answers) (max_threads : ℕ)
    (s : St) (room : Bool) (k v : ℤ)
    → f.thread ≡ false
    → a.kv_alloc ≡ none
    → (copy_process f exit_signal c p a max_threads s).0 ≡ none
    → (write_kv room k v (as_task (copy_process f exit_signal c p a max_threads s).1.child) s.kernel
        ≡ fault null_pointer)
      × (read_kv k (as_task (copy_process f exit_signal c p a max_threads s).1.child) s.kernel
          ≡ fault null_pointer)
unfolding as_task
child_without_store f exit_signal c p a max_threads s room k v process full done =
    let m = copy_process-Made f exit_signal c p a max_threads s done in
    calls_null room k v (as_task (copy_process f exit_signal c p a max_threads s).1.child) s.kernel
      (m.store ∙ rw (process, full))

-- After a fork that makes a process and whose allocation of a store succeeds, every read of the new
-- process answers -1 and changes nothing: it sees no entry of its parent.
pub child_store_empty :
    (f : CloneFlags) (exit_signal : ℕ) (c : Caller) (p : Parent) (a : Answers) (max_threads : ℕ)
    (s : St) (q : ℕ) (old : KvStore) (k : ℤ)
    → f.thread ≡ false
    → a.kv_alloc ≡ some (q, old)
    → (copy_process f exit_signal c p a max_threads s).0 ≡ none
    → read_kv k
        (as_task (copy_process f exit_signal c p a max_threads s).1.child)
        (copy_process f exit_signal c p a max_threads s).1.kernel
      ≡ ok (minus_one, (copy_process f exit_signal c p a max_threads s).1.kernel)
unfolding as_task answer init_task_kv_store
child_store_empty f exit_signal c p a max_threads s q old k process room done =
    let t = (copy_process f exit_signal c p a max_threads s).1 in
    let made = copy_process-Made f exit_signal c p a max_threads s done in
    let fresh = init-Fresh q old (record { pid = 0; tgid = 0; kv = none }) s.kernel in
    let store : t.child.kv ≡ some q = made.store ∙ rw (process, room) in
    let kernel : t.kernel ≡ put_store s.kernel (some q) (init_buckets buckets 0 old) =
      made.kernel ∙ child_kernel_process f a s.kernel q old process room in
    let found : deref t.kernel t.child.kv ≡ ok fresh.after = rw (store, kernel) fresh.found in
    read_kv-answer k (as_task t.child) t.kernel fresh.after found (fresh.locks k)
    ∙ rw (fresh.unmapped k)
