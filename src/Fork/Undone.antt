-- ===== src/Fork/Undone.antt =====
-- linux-5.15.178/kernel/fork.c: that a step which fails leaves nothing behind, for single steps and
-- for the functions that copy the parts of a task.
use oshome_work.Base.{◌≡◌, inl, inr, false, Option, none, some, [], Bool-cases, Option-cases}
use oshome_work.Fork.Flags.{CloneFlags, Errno}
use oshome_work.Fork.State.{
  Resource, own, Parent, Answers, St, Label, Outcome, next, goto, ◌>>=◌, hold, acquire, try,
}
use oshome_work.Fork.Unwind.{unwind, every_label}
use oshome_work.Fork.{copy_files, copy_fs, copy_sighand, copy_signal, copy_mm, copy_io}

-- Nothing is held, nothing was released twice, and no list or lock is left behind.
abbrev pub Undone : St → Type 0
Undone s = (s.held ≡ []) × (s.spilled ≡ 0) × (s.delayed ≡ false) × (s.locked ≡ false)

-- The step goes on in a state with `P`, or jumps to a label whose ladder undoes everything.
abbrev pub Clean : CloneFlags → (St → Type 0) → Outcome → Type 0
Clean f P (next s) = P s
Clean f P (goto l e s) = Undone (unwind l f s)

module _ (f : CloneFlags) where
  abbrev pub Safe : Label → St → Type 0
  Safe l s = Undone (unwind l f s)

  -- `retval = …; if (retval) goto l;` and what follows it.
  pub try_then :
      (Q : St → Type 0) (o : Option Errno) (l : Label) (s : St) (g : St → Outcome)
      → Safe l s
      → Clean f Q (g s)
      → Clean f Q (try l (o, s) >>= g)
  unfolding try
  try_then Q none l s g h k = k
  try_then Q (some e) l s g h k = h

  pub acquire_then :
      (Q : St → Type 0) (o : Option Errno) (l : Label) (r : Resource) (s : St) (g : St → Outcome)
      → Safe l s
      → Clean f Q (g (hold (own r) s))
      → Clean f Q (try l (acquire o r s) >>= g)
  unfolding try acquire
  acquire_then Q none l r s g h k = k
  acquire_then Q (some e) l r s g h k = h

  pub try_last :
      (Q : St → Type 0) (o : Option Errno) (l : Label) (s : St)
      → Safe l s
      → Q s
      → Clean f Q (try l (o, s))
  unfolding try
  try_last Q none l s h k = k
  try_last Q (some e) l s h k = h

  pub acquire_last :
      (Q : St → Type 0) (o : Option Errno) (l : Label) (r : Resource) (s : St)
      → Safe l s
      → Q (hold (own r) s)
      → Clean f Q (try l (acquire o r s))
  unfolding try acquire
  acquire_last Q none l r s h k = k
  acquire_last Q (some e) l r s h k = h

  -- A copy that leaves all to undo from `l` when it fails, and from `l'` when it does not; until
  -- `copy_io` the new task has no I/O context.
  abbrev pub Copied : Label → Label → Option Errno × St → Type 0
  Copied l l' (none, s) = Safe l' s × (s.child.has_io ≡ false)
  Copied l l' (some e, s) = Safe l s

  pub copy_next :
      (Q : St → Type 0) (l l' : Label) (r : Option Errno × St) (g : St → Outcome)
      → Copied l l' r
      → ((t : St) → Safe l' t → t.child.has_io ≡ false → Clean f Q (g t))
      → Clean f Q (try l r >>= g)
  unfolding try
  copy_next Q l l' (none, s) g h k = k s h.0 h.1
  copy_next Q l l' (some e, s) g h k = h

  module _ (p : Parent) (a : Answers) (s : St) (off : s.child.has_io ≡ false) where
    pub copy_files-Copied :
        Safe Label.cleanup_semundo s
        → Copied Label.cleanup_semundo Label.cleanup_files (copy_files f p a s)
    unfolding every_label copy_files
    copy_files-Copied h = elim (Bool-cases p.has_files) [
      | inr e ↦ simp e (h, off)
      | inl e ↦ elim (Bool-cases f.files) [
        | inl e' ↦ simp (e, e') (h, off)
        | inr e' ↦ elim (Option-cases a.dup_fd) [
          | inl e'' ↦ simp (e, e', e'') (h, off)
          | inr (x, e'') ↦ simp (e, e', e'') h
        ]
      ]
    ]

    pub copy_fs-Copied :
        Safe Label.cleanup_files s → Copied Label.cleanup_files Label.cleanup_fs (copy_fs f p a s)
    unfolding every_label copy_fs
    copy_fs-Copied h = elim (Bool-cases f.fs) [
      | inl e ↦ elim (Bool-cases p.fs_in_exec) [
        | inl e' ↦ simp (e, e') h
        | inr e' ↦ simp (e, e') (h, off)
      ]
      | inr e ↦ elim (Bool-cases a.copy_fs_struct) [
        | inl e' ↦ simp (e, e') (h, off)
        | inr e' ↦ simp (e, e') h
      ]
    ]

    pub copy_sighand-Copied :
        Safe Label.cleanup_fs s → Copied Label.cleanup_fs Label.cleanup_sighand (copy_sighand f a s)
    unfolding every_label copy_sighand
    copy_sighand-Copied h = elim (Bool-cases f.sighand) [
      | inl e ↦ simp e (h, off)
      | inr e ↦ elim (Bool-cases a.sighand_alloc) [
        | inl e' ↦ simp (e, e') (h, off)
        | inr e' ↦ simp (e, e') h
      ]
    ]

    pub copy_signal-Copied :
        Safe Label.cleanup_sighand s
        → Copied Label.cleanup_sighand Label.cleanup_signal (copy_signal f a s)
    unfolding every_label copy_signal
    copy_signal-Copied h = elim (Bool-cases f.thread) [
      | inl e ↦ simp e (h, off)
      | inr e ↦ elim (Bool-cases a.signal_alloc) [
        | inl e' ↦ simp (e, e') (h, off)
        | inr e' ↦ simp (e, e') h
      ]
    ]

    pub copy_mm-Copied :
        Safe Label.cleanup_signal s → Copied Label.cleanup_signal Label.cleanup_mm (copy_mm f p a s)
    unfolding every_label copy_mm
    copy_mm-Copied h = elim (Bool-cases p.has_mm) [
      | inr e ↦ simp e (h, off)
      | inl e ↦ elim (Bool-cases f.vm) [
        | inl e' ↦ simp (e, e') (h, off)
        | inr e' ↦ elim (Bool-cases a.dup_mm) [
          | inl e'' ↦ simp (e, e', e'') (h, off)
          | inr e'' ↦ simp (e, e', e'') h
        ]
      ]
    ]

    -- After `copy_io` the label `cleanup_io` undoes all, with an I/O context or without.
    pub copy_io_then :
        (Q : St → Type 0) (g : St → Outcome)
        → Safe Label.cleanup_namespaces s
        → ((t : St) → Safe Label.cleanup_io t → Clean f Q (g t))
        → Clean f Q (try Label.cleanup_namespaces (copy_io f p a s) >>= g)
    unfolding every_label copy_io try
    copy_io_then Q g h k = elim (Bool-cases p.has_io) [
      | inr e ↦ simp e (k s (rw off h))
      | inl e ↦ elim (Bool-cases f.io) [
        | inl e' ↦ simp (e, e') (k _ h)
        | inr e' ↦ elim (Bool-cases p.ioprio_valid) [
          | inr n ↦ simp (e, e', n) (k s (rw off h))
          | inl v ↦ elim (Bool-cases a.io_context_alloc) [
            | inl y ↦ simp (e, e', v, y) (k _ h)
            | inr n ↦ simp (e, e', v, n) h
          ]
        ]
      ]
    ]
