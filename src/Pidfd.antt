-- ===== src/Pidfd.antt =====
-- linux-5.15.178/kernel/fork.c: what /proc shows of a descriptor of a process, `pidfd_show_fdinfo`.
-- `pid_nr_ns` is of another file: the number of a process in a name space, 0 where it has none there.
pub mod Numbers
mod Tests
use oshome_work.Base.{
  ℕ, zero, suc, ◌+◌, ◌-◌, ◌≡◌, Bool, ◌&&◌, List, [], ◌∷◌, ltb, leb, ◌==◌, if◌then◌else◌,
}
use oshome_work.Base.Int.{ℤ, pos, minus_one}

-- `struct pid`: its level, and the name space and the number at each level.
pub record Pid : Type 0 where
  pub level : ℕ
  pub ns : ℕ → ℕ
  pub nr : ℕ → ℕ

pub record PidNamespace : Type 0 where
  pub id : ℕ
  pub level : ℕ

-- Whether the name space is among those of the process.
abbrev pub in_hierarchy : Pid → PidNamespace → Bool
in_hierarchy pid ns = leb ns.level pid.level && pid.ns ns.level == ns.id

pub record PidNumbers : Type 0 where
  pub pid_nr_ns : Pid → PidNamespace → ℕ
  pub number :
      (pid : Pid) (ns : PidNamespace)
      → pid_nr_ns pid ns ≡ (if in_hierarchy pid ns then pid.nr ns.level else 0)

-- One `seq_put_decimal_ll`, with its delimiter, or the last `seq_putc`.
pub data Printed : Type 0 where
  pid_line : (nr : ℤ) → Printed
  nspid_line : (nr : ℤ) → Printed
  after_tab : (nr : ℤ) → Printed
  newline : Printed

-- The loop over the levels below, for those that are left.
unfoldable pub show_levels : Pid → (left i : ℕ) → List Printed
show_levels pid zero i = newline ∷ []
show_levels pid (suc left) i = after_tab (pos (pid.nr i)) ∷ show_levels pid left (i + 1)

-- `pidfd_show_fdinfo`, where `has_task` is the answer of `pid_has_task`.
unfoldable pub pidfd_show_fdinfo :
    PidNumbers → (has_task : Bool) → Pid → PidNamespace → List Printed
unfolding show_levels
pidfd_show_fdinfo lib has_task pid ns =
    let nr = if has_task then pos (lib.pid_nr_ns pid ns) else minus_one in
    let positive = has_task && ltb 0 (lib.pid_nr_ns pid ns) in
    pid_line nr
    ∷ nspid_line nr
    ∷ show_levels pid (if positive then pid.level - ns.level else 0) (ns.level + 1)
