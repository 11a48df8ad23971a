-- ===== src/Fork/Keeps.antt =====
-- linux-5.15.178/kernel/fork.c: the steps of a fork that touch neither kernel memory nor the counters.
use oshome_work.Base.{
  ℕ, ◌≡◌, refl, ◌∙◌, inl, inr, false, not, ◌&&◌, ◌||◌, Option, none, some, arith, leb, Bool-cases,
  Option-cases,
}
use oshome_work.Fork.{
  start_fork, prepare_task, copy_io, copy_fs, make_pid, copy_signal, copy_sighand, copy_files,
  copy_mm, setup_task, copy_parts, with_io,
}
use oshome_work.Fork.Flags.{CloneFlags, Errno}
use oshome_work.Fork.State.{
  hold, acquire, Parent, Answers, Resource, St, Label, Outcome, next, goto, ◌>>=◌, try,
}

-- The step changes neither kernel memory nor the counters nor the store pointer, if it goes on.
abbrev pub Keeps : St → Outcome → Type 0
Keeps s (next t) = (t.kernel ≡ s.kernel) × (t.counters ≡ s.counters)
Keeps s (goto l e t) = t.kernel ≡ s.kernel

go_on :
    (s : St) (o : Outcome) (g : St → Outcome)
    → Keeps s o
    → ((t : St) → Keeps t (g t))
    → Keeps s (o >>= g)
go_on s (next t) g h k = chain (g t) (k t)
  where
    chain : (o : Outcome) → Keeps t o → Keeps s o
    chain (next u) q = (q.0 ∙ h.0, q.1 ∙ h.1)
    chain (goto l e u) q = q ∙ h.0
go_on s (goto l e t) g h k = h

try-Keeps :
    (s : St) (l : Label) (r : Option Errno × St)
    → (r.1.kernel ≡ s.kernel) × (r.1.counters ≡ s.counters)
    → Keeps s (try l r)
unfolding try
try-Keeps s l (none, t) h = h
try-Keeps s l (some e, t) h = h.0

abbrev Same : St → Option Errno × St → Type 0
Same s r = (r.1.kernel ≡ s.kernel) × (r.1.counters ≡ s.counters)

acquire-Same : (o : Option Errno) (r : Resource) (s : St) → Same s (acquire o r s)
unfolding acquire hold
acquire-Same none r s = (refl, refl)
acquire-Same (some e) r s = (refl, refl)

module _ (f : CloneFlags) (p : Parent) (a : Answers) (s : St) where
  copy_files-Same : Same s (copy_files f p a s)
  unfolding copy_files
  copy_files-Same = ground arith

  copy_fs-Same : Same s (copy_fs f p a s)
  unfolding copy_fs
  copy_fs-Same = ground arith

  copy_sighand-Same : Same s (copy_sighand f a s)
  unfolding copy_sighand
  copy_sighand-Same = ground arith

  copy_signal-Same : Same s (copy_signal f a s)
  unfolding copy_signal
  copy_signal-Same = ground arith

  copy_mm-Same : Same s (copy_mm f p a s)
  unfolding copy_mm
  copy_mm-Same = ground arith

  copy_io-Same : Same s (copy_io f p a s)
  unfolding copy_io
  copy_io-Same = ground arith

module _ (f : CloneFlags) (p : Parent) (a : Answers) where
  acquire-Keeps :
      (s : St) (o : Option Errno) (l : Label) (r : Resource) → Keeps s (try l (acquire o r s))
  acquire-Keeps s o l r = try-Keeps s l (acquire o r s) (acquire-Same o r s)

  copy_parts-Keeps : (s : St) → Keeps s (copy_parts f p a s)
  unfolding copy_parts
  copy_parts-Keeps s = go_on s _ _ (try-Keeps s _ _ (copy_files-Same f p a s)) λ s.
      go_on s _ _ (try-Keeps s _ _ (copy_fs-Same f p a s)) λ s.
        go_on s _ _ (try-Keeps s _ _ (copy_sighand-Same f p a s)) λ s.
          go_on s _ _ (try-Keeps s _ _ (copy_signal-Same f p a s)) λ s.
            go_on s _ _ (try-Keeps s _ _ (copy_mm-Same f p a s)) λ s.
              go_on s _ _ (acquire-Keeps s _ _ _)
                λ s. go_on s _ _ (try-Keeps s _ _ (copy_io-Same f p a s)) λ s. acquire-Keeps s _ _ _

  setup_task-Keeps : (s : St) → Keeps s (setup_task a s)
  unfolding setup_task
  setup_task-Keeps s = go_on (with_io false s) _ _ (acquire-Keeps (with_io false s) _ _ _) λ s.
      go_on s _ _ (try-Keeps s _ _ (refl, refl)) λ s. go_on s _ _ (acquire-Keeps s _ _ _) λ s.
        go_on s _ _ (acquire-Keeps s _ _ _)
          λ s. go_on s _ _ (acquire-Keeps s _ _ _) λ s. acquire-Keeps s _ _ _

  make_pid-Keeps : (s : St) → Keeps s (make_pid f a s)
  unfolding make_pid
  make_pid-Keeps s = go_on s _ _ (acquire-Keeps s _ _ _) λ s. elim (Bool-cases f.pidfd) [
    | inr e ↦ simp e (refl, refl)
    | inl e ↦ simp e (
        go_on s _ _ (try-Keeps s _ _ (refl, refl))
          λ s. go_on s _ _ (acquire-Keeps s _ _ _) λ s. try-Keeps s _ _ (refl, refl))
  ]

  start_fork-Keeps : (max_threads : ℕ) (s : St) → Keeps s (start_fork f p a max_threads s)
  unfolding start_fork try acquire hold
  start_fork-Keeps max_threads s = elim (Bool-cases p.signal_pending) [
    | inl e ↦ simp e refl
    | inr e ↦ elim (Bool-cases a.dup_task) [
      | inr n ↦ simp (e, n) refl
      | inl y ↦ elim (Option-cases a.copy_creds) [
        | inr (x, c) ↦ simp (e, y, c) refl
        | inl c ↦
            simp (e, y, c)
              (elim (Bool-cases
                ((a.over_nproc && not a.privileged) || leb max_threads s.counters.nr_threads)) [
                  | inl over ↦ simp over refl
                  | inr room ↦ simp room (refl, refl)
                ])
      ]
    ]
  ]

  pub prepare_task-Keeps : (max_threads : ℕ) (s : St) → Keeps s (prepare_task f p a max_threads s)
  unfolding prepare_task
  prepare_task-Keeps max_threads s = go_on s _ _ (start_fork-Keeps max_threads s) λ s.
      go_on s _ _ (setup_task-Keeps s) λ s. go_on s _ _ (copy_parts-Keeps s) λ s. make_pid-Keeps s
