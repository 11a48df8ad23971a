-- ===== src/Fork/Leak.antt =====
-- linux-5.15.178/kernel/fork.c and kernel/kv_store.c together: the store of a process whose fork is
-- refused late.
use oshome_work.Base.{ℕ, ◌≡◌, refl, ◌∙◌, false, none, some}
use oshome_work.Fork.NewTask.{name_task-kernel, prepare_task_kernel, give_kv_store-kernel}
use oshome_work.Fork.Unwind.{unwind, every_label}
use oshome_work.Fork.{
  prepare_task, link_parent, publish, finish_fork, build_task, give_kv_store, copy_process,
  name_task,
}
use oshome_work.Fork.Flags.{Caller, check_clone_flags, Errno, CloneFlags}
use oshome_work.Fork.State.{St, Label, Parent, Answers, acquire, try, ◌>>=◌, cgroup, next}
use oshome_work.Kv.{KvStore, init_buckets, put_store, buckets}

-- The step at which the control groups refuse, and the error path from there.
refuse_from :
    (f : CloneFlags) (exit_signal : ℕ) (p : Parent) (a : Answers) (t : St) (e : Errno) (q : ℕ)
    (old : KvStore)
    → f.thread ≡ false
    → a.kv_alloc ≡ some (q, old)
    → a.can_fork ≡ some e
    → finish_fork f (
        try Label.put_pidfd (acquire a.can_fork cgroup (name_task f p a (give_kv_store f p a t)))
        >>= λ v. publish a (link_parent f p exit_signal v))
      ≡ (some e, unwind Label.put_pidfd f (name_task f p a (give_kv_store f p a t)))
unfolding finish_fork try acquire
refuse_from f exit_signal p a t e q old process room refused = rw refused

unwind-kernel : (f : CloneFlags) (s : St) → (unwind Label.put_pidfd f s).kernel ≡ s.kernel
unfolding every_label
unwind-kernel f s = refl

-- Where the control groups refuse the fork of a process after its store was made, the fork fails
-- with their error and the new store stays in kernel memory, where the error path does not free it.
pub refused_fork_leaks :
    (f : CloneFlags) (exit_signal : ℕ) (c : Caller) (p : Parent) (a : Answers) (max_threads : ℕ)
    (s t : St) (e : Errno) (q : ℕ) (old : KvStore)
    → check_clone_flags f c ≡ none
    → prepare_task f p a max_threads s ≡ next t
    → f.thread ≡ false
    → a.kv_alloc ≡ some (q, old)
    → a.can_fork ≡ some e
    → ((copy_process f exit_signal c p a max_threads s).0 ≡ some e)
      × ((copy_process f exit_signal c p a max_threads s).1.kernel
          ≡ put_store s.kernel (some q) (init_buckets buckets 0 old))
unfolding copy_process build_task
refused_fork_leaks f exit_signal c p a max_threads s t e q old good run process room refused =
    let there = refuse_from f exit_signal p a t e q old process room refused in
    let kept = prepare_task_kernel f p a max_threads s t run in
    let made = give_kv_store-kernel f exit_signal p a s t in
    (
      rw (good, copy_process, run, there),
      rw (good, copy_process, run, there)
          (unwind-kernel f _ ∙ name_task-kernel f p a _ ∙ made ∙ rw (process, room, kept)),
    )
