-- ===== src/Exe.antt =====
-- linux-5.15.178/kernel/fork.c: the executable of an address space: `set_mm_exe_file`,
-- `replace_mm_exe_file`, `get_mm_exe_file` and `get_task_exe_file`. A file is named by a number. `deny_write_access` and `get_file_rcu` are of other files: the first fails where the
-- file is open for writing and otherwise counts one more denial, the second fails where the file has
-- no references any more.
pub mod Balance
pub mod Mapped
pub mod Race
mod Tests
use oshome_work.Base.{
  ℕ, ◌+◌, ◌-◌, Bool, false, ◌||◌, Option, none, some, List, [], ◌∷◌, ltb, ◌==◌, if◌then◌else◌,
  update,
}
use oshome_work.Fork.Flags.{Errno, eacces, ebusy}

-- The references to each file, how often its writing is denied, and how many have it open for
-- writing.
pub record Files : Type 0 where
  pub count : ℕ → ℕ
  pub denied : ℕ → ℕ
  pub writers : ℕ → ℕ

-- `exe_file`, and the files of the areas.
pub record ExeMm : Type 0 where
  pub exe_file : Option ℕ
  pub vm_files : List (Option ℕ)

-- `get_file` and `fput`; `deny_write_access`, where it succeeds, and `allow_write_access`.
unfoldable pub get_file : ℕ → Files → Files
get_file f s = record s { count = update s.count f (s.count f + 1) }

unfoldable pub fput : ℕ → Files → Files
fput f s = record s { count = update s.count f (s.count f - 1) }

unfoldable pub deny_write_access : ℕ → Files → Files
deny_write_access f s = record s { denied = update s.denied f (s.denied f + 1) }

unfoldable pub allow_write_access : ℕ → Files → Files
allow_write_access f s = record s { denied = update s.denied f (s.denied f - 1) }

-- `if (old_exe_file) { allow_write_access(old_exe_file); fput(old_exe_file); }`
unfoldable pub let_go : Option ℕ → Files → Files
unfolding fput allow_write_access
let_go none s = s
let_go (some f) s = fput f (allow_write_access f s)

-- `set_mm_exe_file`
unfoldable pub set_mm_exe_file : Option ℕ → ExeMm → Files → Option Errno × ExeMm × Files
unfolding let_go get_file deny_write_access
set_mm_exe_file none mm s = (none, record mm { exe_file = none }, let_go mm.exe_file s)
set_mm_exe_file (some f) mm s = if ltb 0 (s.writers f) then (some eacces, mm, s) else (
  none,
  record mm { exe_file = some f },
  let_go mm.exe_file (get_file f (deny_write_access f s)),
)

-- `get_mm_exe_file`
unfoldable pub get_mm_exe_file : ExeMm → Files → Option ℕ × Files
unfolding get_file
get_mm_exe_file mm s = elim mm.exe_file [
  | none ↦ (none, s)
  | some f ↦ if s.count f == 0 then (none, s) else (some f, get_file f s)
]

-- `get_task_exe_file`, of a task with or without an address space, which may be a kernel thread.
unfoldable pub get_task_exe_file : Option ExeMm → Bool → Files → Option ℕ × Files
unfolding get_mm_exe_file
get_task_exe_file none kthread s = (none, s)
get_task_exe_file (some mm) kthread s = if kthread then (none, s) else get_mm_exe_file mm s

-- The loop of `replace_mm_exe_file`: whether the file is mapped, by its path.
unfoldable pub is_mapped : (ℕ → ℕ → Bool) → ℕ → List (Option ℕ) → Bool
is_mapped path_equal f [] = false
is_mapped path_equal f (none ∷ vs) = is_mapped path_equal f vs
is_mapped path_equal f (some g ∷ vs) = path_equal g f || is_mapped path_equal f vs

-- From `deny_write_access` on.
unfoldable pub exchange : ℕ → ExeMm → Files → Option Errno × ExeMm × Files
unfolding let_go get_file deny_write_access
exchange f mm s = if ltb 0 (s.writers f) then (some eacces, mm, s) else (
  none,
  record mm { exe_file = some f },
  let_go mm.exe_file (get_file f (deny_write_access f s)),
)

-- After `get_mm_exe_file`.
unfoldable pub old_found :
    (ℕ → ℕ → Bool) → ℕ → ExeMm → Option ℕ × Files → Option Errno × ExeMm × Files
unfolding is_mapped exchange fput
old_found path_equal f mm (none, s) = exchange f mm s
old_found path_equal f mm (some g, s) =
    if is_mapped path_equal g mm.vm_files
    then (some ebusy, mm, fput g s)
    else exchange f mm (fput g s)

-- `replace_mm_exe_file`
unfoldable pub replace_mm_exe_file :
    (ℕ → ℕ → Bool) → ℕ → ExeMm → Files → Option Errno × ExeMm × Files
unfolding old_found get_mm_exe_file
replace_mm_exe_file path_equal f mm s = old_found path_equal f mm (get_mm_exe_file mm s)
