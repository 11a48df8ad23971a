-- ===== src/Fork/NewTask.antt =====
-- linux-5.15.178/kernel/fork.c: what a fork makes, and the key-value store of the new task.
use oshome_work.Base.{
  ℕ, ◌+◌, ◌≡◌, refl, ap, ◌∙◌, subst, inl, inr, false, ◌||◌, none, some, arith, ◌==◌, if◌then◌else◌,
  Option-cases,
}
use oshome_work.Kv.{KvStore, Kernel, put_store, init_buckets, init_task_kv_store, buckets}
use oshome_work.Fork.{
  copy_process, finish_fork, build_task, name_task, give_kv_store, link_parent, publish,
  prepare_task,
}
use oshome_work.Fork.Flags.{Caller, check_clone_flags, CloneFlags, Errno}
use oshome_work.Fork.State.{
  cgroup, hold, acquire, Parent, Answers, St, Label, Outcome, next, goto, ◌>>=◌, try,
}
use oshome_work.Fork.Keeps.{Keeps, prepare_task-Keeps}

-- Kernel memory after a fork: a thread adds nothing, a process an empty store if there is room.
abbrev pub child_kernel : CloneFlags → Answers → Kernel → Kernel
child_kernel f a m = if f.thread then m else elim a.kv_alloc [
  | none ↦ m
  | some (g, old) ↦ put_store m (some g) (init_buckets buckets 0 old)
]

pub child_kernel_process :
    (f : CloneFlags) (a : Answers) (m : Kernel) (q : ℕ) (old : KvStore)
    → f.thread ≡ false
    → a.kv_alloc ≡ some (q, old)
    → child_kernel f a m ≡ put_store m (some q) (init_buckets buckets 0 old)
child_kernel_process f a m q old process room = rw (process, room)

-- What a fork that succeeds has made: the names, parent, signal and store of the new task, the
-- counters, and kernel memory.
pub record Made (f : CloneFlags) (exit_signal : ℕ) (p : Parent) (a : Answers) (s t : St)
    : Type 0 where
  pub pid : t.child.pid ≡ a.pid_nr
  pub tgid : t.child.tgid ≡ (if f.thread then p.tgid else a.pid_nr)
  pub leader : t.child.group_leader ≡ (if f.thread then p.group_leader else a.pid_nr)
  pub real_parent : t.child.real_parent ≡ (if f.parent || f.thread then p.real_parent else p.pid)
  pub signal : t.child.exit_signal ≡ (
      if f.thread then none else (if f.parent then some p.leader_exit_signal else some exit_signal))
  pub forks : t.counters.total_forks ≡ s.counters.total_forks + 1
  pub threads :
      t.counters.nr_threads
      ≡ (if a.pid_nr == 0 then s.counters.nr_threads else s.counters.nr_threads + 1)
  pub store :
      t.child.kv
      ≡ (if f.thread then p.kv else elim a.kv_alloc [ none ↦ none | some (q, _) ↦ some q ])
  pub kernel : t.kernel ≡ child_kernel f a s.kernel
  pub unlocked : (t.locked ≡ false) × (t.delayed ≡ false)

module _ (f : CloneFlags) (exit_signal : ℕ) (p : Parent) (a : Answers) (s : St) where
  publish-kernel :
      (t u : St)
      → (try Label.put_pidfd (acquire a.can_fork cgroup (name_task f p a (give_kv_store f p a t)))
          >>= λ v. publish a (link_parent f p exit_signal v))
        ≡ next u
      → u.kernel ≡ (give_kv_store f p a t).kernel
  unfolding try acquire hold name_task link_parent publish
  publish-kernel t u q = ground arith

  pub give_kv_store-kernel : (t : St) → (give_kv_store f p a t).kernel ≡ child_kernel f a t.kernel
  unfolding give_kv_store init_task_kv_store
  give_kv_store-kernel t =
      ap (λ m. if f.thread then t.kernel else m)
        (elim (Option-cases a.kv_alloc) [ inl e ↦ rw e | inr (x, e) ↦ rw e ])

  -- The steps after the pidfd, from a state that has kept the kernel memory and the counters of `s`.
  publish-Made :
      (t u : St)
      → (t.kernel ≡ s.kernel) × (t.counters ≡ s.counters)
      → (try Label.put_pidfd (acquire a.can_fork cgroup (name_task f p a (give_kv_store f p a t)))
          >>= λ v. publish a (link_parent f p exit_signal v))
        ≡ next u
      → Made f exit_signal p a s u
  unfolding try acquire hold name_task give_kv_store link_parent publish init_task_kv_store
  publish-Made t u h q = record {
    pid = ground arith;
    tgid = ground arith;
    leader = ground arith;
    real_parent = ground arith;
    signal = ground arith;
    forks = ground arith;
    threads = ground arith;
    store = ground arith;
    kernel = publish-kernel t u q ∙ give_kv_store-kernel t ∙ ap (child_kernel f a) h.0;
    unlocked = (ground arith, ground arith);
  }

some_is_none : {x : Errno} → some x ≡ none → ⊥
some_is_none h = cc

finish_fork-none :
    (f : CloneFlags) (o : Outcome) → (finish_fork f o).0 ≡ none → o ≡ next (finish_fork f o).1
unfolding finish_fork
finish_fork-none f (next t) h = refl
finish_fork-none f (goto l e t) h = cc

Keeps-next :
    (s : St) (o : Outcome) (g : St → Outcome) (u : St)
    → Keeps s o
    → (o >>= g) ≡ next u
    → (t : St) × (g t ≡ next u) × (t.kernel ≡ s.kernel) × (t.counters ≡ s.counters)
Keeps-next s (next t) g u k q = (t, q, k.0, k.1)
Keeps-next s (goto l e t) g u k q = cc

pub prepare_task_kernel :
    (f : CloneFlags) (p : Parent) (a : Answers) (max_threads : ℕ) (s t : St)
    → prepare_task f p a max_threads s ≡ next t
    → t.kernel ≡ s.kernel
prepare_task_kernel f p a max_threads s t run =
    (subst (Keeps s) run (prepare_task-Keeps f p a max_threads s)).0

pub name_task-kernel :
    (f : CloneFlags) (p : Parent) (a : Answers) (s : St) → (name_task f p a s).kernel ≡ s.kernel
unfolding name_task
name_task-kernel f p a s = refl

-- A fork that returns no error makes the task that its flags ask for: its pid, thread group,
-- leader, parent, exit signal and store, the counters of forks and threads, and no lock or delayed
-- signal left behind.
pub copy_process-Made :
    (f : CloneFlags) (exit_signal : ℕ) (c : Caller) (p : Parent) (a : Answers) (max_threads : ℕ)
    (s : St)
    → (copy_process f exit_signal c p a max_threads s).0 ≡ none
    → Made f exit_signal p a s (copy_process f exit_signal c p a max_threads s).1
unfolding copy_process build_task
copy_process-Made f exit_signal c p a max_threads s h =
    elim (Option-cases (check_clone_flags f c)) [
      | inr (x, bad) ↦ absurd (some_is_none (rw (bad, copy_process) at h))
      | inl good ↦
          let o = build_task f exit_signal p a max_threads s in
          let q = finish_fork-none f o (rw (good, copy_process) at h) in
          let (t, r, k, n) =
            Keeps-next s (prepare_task f p a max_threads s) _ (finish_fork f o).1
              (prepare_task-Keeps f p a max_threads s) q in
          rw (good, copy_process) (publish-Made f exit_signal p a s t (finish_fork f o).1 (k, n) r)
    ]
