-- ===== src/Exe/Race.antt =====
-- linux-5.15.178/kernel/fork.c: `replace_mm_exe_file` in some threads of a process while others fork.
-- A step is one access to `exe_file`, to a file or to the lock of the address space. `dup_mmap` holds
-- the lock for writing while `dup_mm_exe_file` runs; `replace_mm_exe_file` exchanges the file without
-- it and takes it for reading before it allows writing again.
pub mod Held
use oshome_work.Base.{ℕ, ◌+◌, ◌-◌, ◌≤◌, ◌≡◌, Bool, true, false, Option, none, some, update}

-- The executable of the address space; the files that calls have denied but not yet exchanged, and
-- those that they have exchanged but not yet allowed; the executables of the copies; how often
-- writing is denied, and who writes; the lock, the file that the fork has got, and whether its
-- denial has failed.
pub record Shared : Type 0 where
  pub exe_file : Option ℕ
  pub new : ℕ → ℕ
  pub old : ℕ → ℕ
  pub copies : ℕ → ℕ
  pub denied : ℕ → ℕ
  pub writers : ℕ → ℕ
  pub locked : Bool
  pub got : Option ℕ
  pub warned : Bool

-- One more, and one less, of a file.
abbrev pub more : ℕ → (ℕ → ℕ) → ℕ → ℕ
more f n = update n f (n f + 1)

abbrev pub less : ℕ → (ℕ → ℕ) → ℕ → ℕ
less f n = update n f (n f - 1)

abbrev pub more_old : Option ℕ → (ℕ → ℕ) → ℕ → ℕ
more_old none n = n
more_old (some f) n = more f n

pub data Step : Shared → Shared → Type 0 where
  -- `replace_mm_exe_file`: `deny_write_access`, `xchg`, and `allow_write_access` under the lock
  deny :
      (s : Shared) (f : ℕ)
      → s.writers f ≡ 0
      → Step s (record s { new = more f s.new; denied = more f s.denied })
  exchange :
      (s : Shared) (f : ℕ)
      → 1 ≤ s.new f
      → Step s (record s { new = less f s.new; exe_file = some f; old = more_old s.exe_file s.old })
  allow :
      (s : Shared) (f : ℕ)
      → 1 ≤ s.old f
      → s.locked ≡ false
      → Step s (record s { old = less f s.old; denied = less f s.denied })
  -- `dup_mmap`: the lock, `get_mm_exe_file`, `deny_write_access`, and the end
  write_lock : (s : Shared) → s.locked ≡ false → Step s (record s { locked = true })
  get : (s : Shared) → s.locked ≡ true → Step s (record s { got = s.exe_file })
  copy :
      (s : Shared) (f : ℕ)
      → s.got ≡ some f
      → s.writers f ≡ 0
      → Step s (record s { got = none; copies = more f s.copies; denied = more f s.denied })
  warn :
      (s : Shared) (f : ℕ)
      → s.got ≡ some f
      → 1 ≤ s.writers f
      → Step s (record s { got = none; copies = more f s.copies; warned = true })
  write_unlock :
      (s : Shared) → s.locked ≡ true → s.got ≡ none → Step s (record s { locked = false })
  -- `set_mm_exe_file(mm, NULL)` in the `mmput` of a copy
  drop_copy :
      (s : Shared) (f : ℕ)
      → 1 ≤ s.copies f
      → Step s (record s { copies = less f s.copies; denied = less f s.denied })
  -- `open` for writing, which a denial prevents, and `close`
  open_write :
      (s : Shared) (f : ℕ) → s.denied f ≡ 0 → Step s (record s { writers = more f s.writers })
  close_write :
      (s : Shared) (f : ℕ) → 1 ≤ s.writers f → Step s (record s { writers = less f s.writers })

pub data Reach (s : Shared) : Shared → Type 0 where
  here : Reach s s
  next : {t u : Shared} → Reach s t → Step t u → Reach s u

-- An address space without an executable, and nobody who holds a file.
abbrev pub nothing : Shared
nothing = record {
  exe_file = none;
  new = λ f. 0;
  old = λ f. 0;
  copies = λ f. 0;
  denied = λ f. 0;
  writers = λ f. 0;
  locked = false;
  got = none;
  warned = false;
}
