-- ===== src/Fork/Cleanup.antt =====
-- linux-5.15.178/kernel/fork.c: a fork that fails gives back what it took.
use oshome_work.Base.{
  ℕ, ◌≡◌, refl, inl, inr, false, not, ◌&&◌, ◌||◌, some, leb, Bool-cases, Option-cases,
}
use oshome_work.Fork.Flags.{CloneFlags, Errno}
use oshome_work.Fork.State.{
  cgroup, namespaces, own, Parent, Answers, St, Label, Outcome, next, goto, ◌>>=◌, hold,
}
use oshome_work.Fork.Unwind.{every_label}
use oshome_work.Fork.Flags.{Caller, check_clone_flags}
use oshome_work.Fork.{
  prepare_task, start_fork, setup_task, finish_fork, copy_parts, make_pid, give_kv_store, name_task,
  link_parent, publish, build_task, copy_process,
}
use oshome_work.Fork.Undone.{
  Undone, Clean, Safe, try_then, acquire_then, try_last, acquire_last, copy_next, copy_files-Copied,
  copy_fs-Copied, copy_sighand-Copied, copy_signal-Copied, copy_mm-Copied, copy_io_then,
}

module _ (f : CloneFlags) where
  copy_parts-Clean :
      (p : Parent) (a : Answers) (s : St)
      → s.child.has_io ≡ false
      → Safe f Label.cleanup_semundo s
      → Clean f (Safe f Label.cleanup_thread) (copy_parts f p a s)
  unfolding copy_parts every_label hold
  copy_parts-Clean p a s off h =
      copy_next f _ _ Label.cleanup_files _ _ (copy_files-Copied f p a s off h) λ s h off.
        copy_next f _ _ Label.cleanup_fs _ _ (copy_fs-Copied f p a s off h) λ s h off.
          copy_next f _ _ Label.cleanup_sighand _ _ (copy_sighand-Copied f p a s off h) λ s h off.
            copy_next f _ _ Label.cleanup_signal _ _ (copy_signal-Copied f p a s off h) λ s h off.
              copy_next f _ _ Label.cleanup_mm _ _ (copy_mm-Copied f p a s off h) λ s h off.
                acquire_then f _ _ _ _ _ _ h (
                  copy_io_then f p a (hold (own namespaces) s) off _ _ h
                    λ s h. acquire_last f _ _ _ _ _ h h)

  make_pid-Clean :
      (a : Answers) (s : St)
      → Safe f Label.cleanup_thread s
      → Clean f (Safe f Label.put_pidfd) (make_pid f a s)
  unfolding make_pid every_label hold
  make_pid-Clean a s h = acquire_then f _ _ _ _ _ _ h (elim (Bool-cases f.pidfd) [
    | inr e ↦ simp e h
    | inl e ↦ simp e (
        try_then f _ _ _ _ _ h
          (acquire_then f _ _ _ _ _ _ h (try_last f _ _ _ _ (simp e h) (simp e h))))
  ])

  start_fork-Clean :
      (p : Parent) (a : Answers) (max_threads : ℕ) (s : St)
      → Undone s
      → Clean f (Safe f Label.cleanup_count) (start_fork f p a max_threads s)
  unfolding start_fork every_label hold
  start_fork-Clean p a max_threads s h = elim (Bool-cases p.signal_pending) [
    | inl e ↦ simp e (h.0, h.1, refl, h.3)
    | inr e ↦ elim (Bool-cases a.dup_task) [
      | inr n ↦ simp (e, n) (h.0, h.1, refl, h.3)
      | inl y ↦
          simp (e, y)
            (acquire_then f _ _ _ _ _ _ (h.0, h.1, refl, h.3)
              (elim (Bool-cases
                ((a.over_nproc && not a.privileged) || leb max_threads s.counters.nr_threads)) [
                  | inl over ↦ simp over (h.0, h.1, refl, h.3)
                  | inr room ↦ simp room (h.0, h.1, refl, h.3)
                ]))
    ]
  ]

  publish-Clean :
      (a : Answers) (s : St) → Safe f Label.cancel_cgroup s → Clean f (λ _. Unit {0}) (publish a s)
  unfolding publish every_label
  publish-Clean a s h = elim (Bool-cases a.pidns_adding) [
    | inr e ↦ simp e h
    | inl e ↦ elim (Bool-cases a.fatal_pending) [
      | inl e' ↦ simp (e, e') h
      | inr e' ↦ simp (e, e') tt
    ]
  ]

  go_on :
      (P Q : St → Type 0) (o : Outcome) (g : St → Outcome)
      → Clean f P o
      → ((s : St) → P s → Clean f Q (g s))
      → Clean f Q (o >>= g)
  go_on P Q (next s) g h k = k s h
  go_on P Q (goto l e s) g h k = h

  -- `p->io_context` is NULL from `setup_task` on, in every state that goes on.
  setup_task-has_io :
      (a : Answers) (s : St)
      → Safe f Label.cleanup_count s
      → Clean f (λ t. Safe f Label.cleanup_semundo t × (t.child.has_io ≡ false)) (setup_task a s)
  unfolding setup_task every_label hold
  setup_task-has_io a s h = acquire_then f _ _ _ _ _ _ h (
      try_then f _ _ _ _ _ h (
        acquire_then f _ _ _ _ _ _ h (
          acquire_then f _ _ _ _ _ _ h
            (acquire_then f _ _ _ _ _ _ h (acquire_last f _ _ _ _ _ h (h, refl))))))

  prepare_task-Clean :
      (p : Parent) (a : Answers) (max_threads : ℕ) (s : St)
      → Undone s
      → Clean f (Safe f Label.put_pidfd) (prepare_task f p a max_threads s)
  unfolding prepare_task
  prepare_task-Clean p a max_threads s h =
      go_on (Safe f Label.cleanup_count) _ _ _ (start_fork-Clean p a max_threads s h) λ s h.
        go_on (λ t. Safe f Label.cleanup_semundo t × (t.child.has_io ≡ false)) _ _ _
          (setup_task-has_io a s h)
          λ s h.
            go_on (Safe f Label.cleanup_thread) _ _ _ (copy_parts-Clean p a s h.1 h.0)
              λ s h. make_pid-Clean a s h

  build_task-Clean :
      (exit_signal : ℕ) (p : Parent) (a : Answers) (max_threads : ℕ) (s : St)
      → Undone s
      → Clean f (λ _. Unit {0}) (build_task f exit_signal p a max_threads s)
  unfolding build_task every_label hold give_kv_store name_task link_parent
  build_task-Clean exit_signal p a max_threads s h =
      go_on (Safe f Label.put_pidfd) _ _ _ (prepare_task-Clean p a max_threads s h) λ s h.
        acquire_then f _ _ _ _ _ _ h (
          publish-Clean a
            (link_parent f p exit_signal
              (hold (own cgroup) (name_task f p a (give_kv_store f p a s))))
            (h.0, h.1, h.2, refl))

finish_fork-Undone :
    (f : CloneFlags) (o : Outcome) (e : Errno)
    → Clean f (λ _. Unit {0}) o
    → (finish_fork f o).0 ≡ some e
    → Undone (finish_fork f o).1
unfolding finish_fork
finish_fork-Undone f (next s) e h q = cc
finish_fork-Undone f (goto l x s) e h q = h

-- A fork that starts with nothing held, no delayed signal and no lock and that fails, at any step
-- and for any flags, ends the same way: each resource of the new task that it took was given back
-- exactly once, and nothing was given back that it did not hold. The key-value store is not among
-- these resources.
pub copy_process-Undone :
    (f : CloneFlags) (exit_signal : ℕ) (c : Caller) (p : Parent) (a : Answers) (max_threads : ℕ)
    (s : St) (e : Errno)
    → Undone s
    → (copy_process f exit_signal c p a max_threads s).0 ≡ some e
    → Undone (copy_process f exit_signal c p a max_threads s).1
unfolding copy_process
copy_process-Undone f exit_signal c p a max_threads s e h q =
    elim (Option-cases (check_clone_flags f c)) [
      | inr (x, bad) ↦ rw (bad, copy_process) h
      | inl good ↦
          rw (good, copy_process)
            (finish_fork-Undone f _ e (build_task-Clean f exit_signal p a max_threads s h)
              (rw (good, copy_process) at q))
    ]
