-- ===== src/Pidfd/Numbers.antt =====
-- linux-5.15.178/kernel/fork.c: `NSpid` shows the numbers of a process from the name space of the
-- reader down.
use oshome_work.Base.{
  ℕ, zero, suc, ◌+◌, ◌-◌, ◌≤◌, ◌≡◌, refl, sym, ap, ◌∙◌, inl, inr, Bool, true, false, List, [], ◌∷◌,
  arith, ltb, if◌then◌else◌, Bool-cases, take, drop,
}
use oshome_work.Base.Int.{ℤ, pos, minus_one}
use oshome_work.Pidfd.{
  PidNumbers, pidfd_show_fdinfo, Pid, in_hierarchy, show_levels, PidNamespace, Printed, pid_line,
  nspid_line, after_tab, newline,
}

-- The numbers after `Pid` and after `NSpid`.
pub pid_values : List Printed → List ℤ
pid_values [] = []
pid_values (pid_line v ∷ ps) = v ∷ pid_values ps
pid_values (nspid_line v ∷ ps) = pid_values ps
pid_values (after_tab v ∷ ps) = pid_values ps
pid_values (newline ∷ ps) = pid_values ps

pub nspid_values : List Printed → List ℤ
nspid_values [] = []
nspid_values (pid_line v ∷ ps) = nspid_values ps
nspid_values (nspid_line v ∷ ps) = v ∷ nspid_values ps
nspid_values (after_tab v ∷ ps) = v ∷ nspid_values ps
nspid_values (newline ∷ ps) = nspid_values ps

-- All the numbers of a process, from the level `i` on.
unfoldable pub numbers : Pid → (left i : ℕ) → List ℤ
numbers pid zero i = []
numbers pid (suc left) i = pos (pid.nr i) ∷ numbers pid left (i + 1)

-- What is shown: its numbers but for those above the reader.
unfoldable pub visible : (has_task : Bool) → Pid → PidNamespace → List ℤ
visible has_task pid ns =
    if has_task
    then (if in_hierarchy pid ns then drop ns.level (numbers pid (pid.level + 1) 0) else pos 0 ∷ [])
    else minus_one ∷ []

nspid_values-show_levels :
    (pid : Pid) (left i : ℕ) → nspid_values (show_levels pid left i) ≡ numbers pid left i
unfolding show_levels nspid_values numbers
nspid_values-show_levels pid zero i = refl
nspid_values-show_levels pid (suc left) i = rw (nspid_values-show_levels pid left (i + 1))

pid_values-show_levels : (pid : Pid) (left i : ℕ) → pid_values (show_levels pid left i) ≡ []
unfolding show_levels pid_values
pid_values-show_levels pid zero i = refl
pid_values-show_levels pid (suc left) i = pid_values-show_levels pid left (i + 1)

drop-numbers :
    (pid : Pid) (k left i : ℕ) → drop k (numbers pid (k + left) i) ≡ numbers pid left (i + k)
unfolding numbers
drop-numbers pid zero left i =
    let e : 0 + left ≡ left = omega arith in
    let d : i + 0 ≡ i = omega arith in ap (λ n. numbers pid n i) e ∙ ap (numbers pid left) (sym d)
drop-numbers pid (suc k) left i =
    let e : suc k + left ≡ suc (k + left) = omega arith in
    let d : i + 1 + k ≡ i + suc k = omega arith in
    ap (λ n. drop (suc k) (numbers pid n i)) e
    ∙ drop-numbers pid k left (i + 1)
    ∙ ap (numbers pid left) d

-- What is left from a level of the process on.
drop-all :
    (pid : Pid) (k : ℕ)
    → k ≤ pid.level
    → drop k (numbers pid (pid.level + 1) 0) ≡ pos (pid.nr k) ∷ numbers pid (pid.level - k) (k + 1)
unfolding numbers
drop-all pid k l =
    let e : pid.level + 1 ≡ k + suc (pid.level - k) = omega arith in
    let d : 0 + k ≡ k = omega arith in
    ap (λ n. drop k (numbers pid n 0)) e
    ∙ drop-numbers pid k (suc (pid.level - k)) 0
    ∙ ap (λ i. pos (pid.nr i) ∷ numbers pid (pid.level - k) (i + 1)) d

-- For a process with positive numbers, `NSpid` shows its numbers at each level but for those above
-- the name space of the reader, 0 alone where that name space is not one of its own, and -1 alone
-- without a task; `Pid` shows the first of these.
pub pidfd_show_fdinfo-visible :
    (lib : PidNumbers) (has_task : Bool) (pid : Pid) (ns : PidNamespace)
    → ((i : ℕ) → 1 ≤ pid.nr i)
    → (nspid_values (pidfd_show_fdinfo lib has_task pid ns) ≡ visible has_task pid ns)
      × (pid_values (pidfd_show_fdinfo lib has_task pid ns) ≡ take 1 (visible has_task pid ns))
unfolding pidfd_show_fdinfo visible nspid_values pid_values numbers show_levels
pidfd_show_fdinfo-visible lib false pid ns h = (refl, refl)
pidfd_show_fdinfo-visible lib true pid ns h = elim (Bool-cases (in_hierarchy pid ns)) [
  | inl b ↦
      let k = ns.level in
      let e : lib.pid_nr_ns pid ns ≡ pid.nr k = lib.number pid ns ∙ rw (b) refl in
      let z : ltb 0 (pid.nr k) ≡ true = ground (arith, h k) in
      let d = drop-all pid k (ground (arith, b)) in
      rw (b, e, z, d)
        (
          ap (λ vs. pos (pid.nr k) ∷ vs) (nspid_values-show_levels pid (pid.level - k) (k + 1)),
          ap (λ vs. pos (pid.nr k) ∷ vs) (pid_values-show_levels pid (pid.level - k) (k + 1)),
        )
  | inr b ↦
      let e : lib.pid_nr_ns pid ns ≡ 0 = lib.number pid ns ∙ rw (b) refl in rw (b, e) (refl, refl)
]
