-- ===== src/Walk/Tests.antt =====
-- linux-5.15.178/kernel/fork.c: a process 1 with the threads 1 and 2; thread 1 has made process 3, and
-- thread 2 the processes 4 and 5. The visitor collects what it sees and does not enter 4.
use oshome_work.Walk.Order.{walk_process_tree-visit_threads}
use oshome_work.Base.{ℕ, ◌+◌, ◌≡◌, refl, some, List, [], ◌∷◌, arith, ◌==◌, if◌then◌else◌}
use oshome_work.Walk.{walk_process_tree, Verdict, Tasks, skip, enter}
use oshome_work.Walk.Tree.{
  Threads, visit_threads, Process, IsProcess, process, thread, child, no_threads, no_children,
  result,
}

abbrev tasks : Tasks
tasks = record {
  threads = λ p. if p == 1 then 1 ∷ 2 ∷ [] else p ∷ [];
  children = λ t. if t == 1 then 3 ∷ [] else (if t == 2 then 4 ∷ 5 ∷ [] else []);
  real_parent = λ p. if p == 3 then 1 else 2;
  group_leader = λ t. if t == 2 then 1 else t;
}

abbrev lone : ℕ → Process
lone p = process p (thread p no_children no_threads)

abbrev family : Threads
family =
    thread 1 (child (lone 3) no_children)
      (thread 2 (child (lone 4) (child (lone 5) no_children)) no_threads)

abbrev collect : ℕ → List ℕ → Verdict × List ℕ
collect p seen = ((if p == 4 then skip else enter), p ∷ seen)

family-IsProcess : IsProcess tasks 1 (process 1 family)
unfolding IsProcess
family-IsProcess = (
  refl,
  (((λ e. omega arith), tt), (tt, tt)),
  (
    refl,
    refl,
    (tt, tt),
    (refl, (λ e. omega arith), (refl, (tt, tt), (refl, refl, tt, tt, tt)), tt),
    (
      refl,
      refl,
      (((λ e. omega arith), tt), (tt, tt)),
      (
        refl,
        (λ e. omega arith),
        (refl, (tt, tt), (refl, refl, tt, tt, tt)),
        (refl, (λ e. omega arith), (refl, (tt, tt), (refl, refl, tt, tt, tt)), tt),
      ),
      tt,
    ),
  ),
)

walk_process_tree-visit_threads_example :
    (rounds : ℕ) × ((more : ℕ)
      → walk_process_tree tasks collect (rounds + more) 2 []
        ≡ some (result (visit_threads collect family [])))
walk_process_tree-visit_threads_example =
    walk_process_tree-visit_threads tasks collect 2 family [] family-IsProcess

walked : walk_process_tree tasks collect 20 2 [] ≡ some (5 ∷ 4 ∷ 3 ∷ [])
unfolding walk_process_tree
walked = refl
