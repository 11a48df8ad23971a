-- ===== src/Pidfd/Tests.antt =====
-- linux-5.15.178/kernel/fork.c: a process at three levels, read from the middle one.
use oshome_work.Base.{◌+◌, ◌≡◌, refl, true, [], ◌∷◌, arith, if◌then◌else◌, take}
use oshome_work.Base.Int.{pos}
use oshome_work.Pidfd.Numbers.{
  pid_values, nspid_values, pidfd_show_fdinfo-visible, visible, numbers,
}
use oshome_work.Pidfd.{Pid, in_hierarchy, PidNumbers, pidfd_show_fdinfo, PidNamespace}

abbrev process : Pid
process = record { level = 2; ns = λ i. 100 + i; nr = λ i. 7 + i }

abbrev middle : PidNamespace
middle = record { id = 101; level = 1 }

abbrev lib : PidNumbers
lib = record {
  pid_nr_ns = λ pid ns. if in_hierarchy pid ns then pid.nr ns.level else 0;
  number = λ pid ns. refl;
}

pidfd_show_fdinfo-visible_example :
    (nspid_values (pidfd_show_fdinfo lib true process middle) ≡ visible true process middle)
    × (pid_values (pidfd_show_fdinfo lib true process middle)
        ≡ take 1 (visible true process middle))
pidfd_show_fdinfo-visible_example =
    pidfd_show_fdinfo-visible lib true process middle (λ i. omega arith)

middle_numbers : visible true process middle ≡ pos 8 ∷ pos 9 ∷ []
unfolding visible numbers
middle_numbers = refl
