-- ===== src/Exe/Tests.antt =====
-- linux-5.15.178/kernel/fork.c: an executable that is replaced, also while a fork copies it.
use oshome_work.Base.{
  ℕ, ◌+◌, ◌≡◌, refl, ◌⊎◌, Bool, true, false, none, some, [], ◌∷◌, arith, ◌==◌, holds,
}
use oshome_work.Exe.Race.Held.{copy_never_warned}
use oshome_work.Exe.{ExeMm, Files, replace_mm_exe_file}
use oshome_work.Exe.Balance.{IsHolding, Changed, replace_mm_exe_file-Changed}
use oshome_work.Exe.Mapped.{IsAnswer}
use oshome_work.Exe.Race.{
  Shared, Reach, nothing, more, next, less, here, deny, exchange, copy, write_lock, get,
}

-- File 1 is the executable, and files 2 and 3 are mapped.
abbrev running_one : ExeMm
running_one = record { exe_file = some 1; vm_files = none ∷ some 2 ∷ some 3 ∷ [] }

abbrev files : Files
files = record { count = λ f. 2; denied = λ f. 1; writers = λ f. 0 }

running_one-IsHolding : IsHolding running_one files
running_one-IsHolding = record { count = λ f. ground arith; denied = λ f. ground arith }

abbrev same_path : ℕ → ℕ → Bool
same_path f g = f == g

replace_mm_exe_file-Changed_example :
    Changed (some 2) running_one files (replace_mm_exe_file same_path 2 running_one files)
    × IsAnswer same_path running_one 0 (replace_mm_exe_file same_path 2 running_one files).0
replace_mm_exe_file-Changed_example =
    replace_mm_exe_file-Changed same_path 2 running_one files running_one-IsHolding

-- A fork gets file 1, which is then exchanged for file 2, and finds file 1 still denied.
abbrev with_one : Shared
with_one = record nothing {
  exe_file = some 1;
  new = less 1 (more 1 nothing.new);
  denied = more 1 nothing.denied;
}

abbrev got_one : Shared
got_one = record with_one { locked = true; got = some 1 }

abbrev with_two : Shared
with_two = record got_one {
  exe_file = some 2;
  new = less 2 (more 2 got_one.new);
  old = more 1 got_one.old;
  denied = more 2 got_one.denied;
}

abbrev copied_one : Shared
copied_one = record with_two {
  got = none;
  copies = more 1 with_two.copies;
  denied = more 1 with_two.denied;
}

got_one-Reach : Reach nothing got_one
got_one-Reach =
    next (next (next (next here (deny _ 1 refl)) (exchange _ 1 (ground arith))) (write_lock _ refl))
      (get _ refl)

copied_one-Reach : Reach nothing copied_one
copied_one-Reach =
    next (next (next got_one-Reach (deny _ 2 refl)) (exchange _ 2 (ground arith)))
      (copy _ 1 refl refl)

copy_never_warned_example :
    (copied_one.warned ≡ false)
    × ((f : ℕ)
        → (copied_one.denied f
            ≡ holds copied_one.exe_file f
              + copied_one.new f
              + copied_one.old f
              + copied_one.copies f)
          × ((copied_one.writers f ≡ 0) ⊎ (copied_one.denied f ≡ 0)))
copy_never_warned_example = copy_never_warned copied_one-Reach
