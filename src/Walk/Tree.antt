-- ===== src/Walk/Tree.antt =====
-- linux-5.15.178/kernel/fork.c: the processes as a tree, and the visit of it by recursion. A process
-- has threads, and each thread the processes that it made.
use oshome_work.Base.{ℕ, ◌≡◌, ◌≢◌, List, [], ◌∷◌}
use oshome_work.Walk.{Tasks, Verdict, stop, skip, enter}

mutual
  pub data Process : Type 0 where
    process : (leader : ℕ) → Threads → Process

  pub data Threads : Type 0 where
    no_threads : Threads
    thread : (id : ℕ) → Children → Threads → Threads

  pub data Children : Type 0 where
    no_children : Children
    child : Process → Children → Children

abbrev pub leader_of : Process → ℕ
leader_of (process p ts) = p

abbrev pub thread_ids : Threads → List ℕ
thread_ids no_threads = []
thread_ids (thread t cs ts) = t ∷ thread_ids ts

abbrev pub child_ids : Children → List ℕ
child_ids no_children = []
child_ids (child p cs) = leader_of p ∷ child_ids cs

abbrev pub IsNew : ℕ → List ℕ → Type 0
IsNew a [] = Unit {0}
IsNew a (x ∷ xs) = (x ≢ a) × IsNew a xs

-- No element stands twice.
abbrev pub IsDistinct : List ℕ → Type 0
IsDistinct [] = Unit {0}
IsDistinct (x ∷ xs) = IsNew x xs × IsDistinct xs

-- The lists and pointers of the tasks describe the tree below `top`, which is not among its own
-- descendants.
unfoldable mutual
  pub IsProcess : Tasks → (top : ℕ) → Process → Type 0
  IsProcess tasks top (process p ts) =
      (tasks.threads p ≡ thread_ids ts) × IsDistinct (thread_ids ts) × IsThreads tasks top p ts

  pub IsThreads : Tasks → (top leader : ℕ) → Threads → Type 0
  IsThreads tasks top p no_threads = Unit {0}
  IsThreads tasks top p (thread t cs ts) =
      (tasks.group_leader t ≡ p)
      × (tasks.children t ≡ child_ids cs)
      × IsDistinct (child_ids cs)
      × IsChildren tasks top t cs
      × IsThreads tasks top p ts

  pub IsChildren : Tasks → (top parent : ℕ) → Children → Type 0
  IsChildren tasks top t no_children = Unit {0}
  IsChildren tasks top t (child p cs) =
      (tasks.real_parent (leader_of p) ≡ t)
      × (leader_of p ≢ top)
      × IsProcess tasks top p
      × IsChildren tasks top t cs

-- The visit goes on, or the visitor has stopped it.
pub data Visit {ℓ} (S : Type ℓ) : Type ℓ where
  going stopped : S → Visit S

abbrev pub result {ℓ} : {S : Type ℓ} → Visit S → S
result (going s) = s
result (stopped s) = s

abbrev pub then {ℓ} : {S : Type ℓ} → Visit S → (S → Visit S) → Visit S
then (going s) f = f s
then (stopped s) f = stopped s

-- A process, then, if the visitor enters it, the children of its threads, from left to right.
unfoldable mutual
  pub visit_process {ℓ} : {S : Type ℓ} → (ℕ → S → Verdict × S) → Process → S → Visit S
  visit_process visitor (process p ts) s =
      let r = visitor p s in
      elim (r.0) [ stop ↦ stopped r.1 | skip ↦ going r.1 | enter ↦ visit_threads visitor ts r.1 ]

  pub visit_threads {ℓ} : {S : Type ℓ} → (ℕ → S → Verdict × S) → Threads → S → Visit S
  visit_threads visitor no_threads s = going s
  visit_threads visitor (thread t cs ts) s =
      then (visit_children visitor cs s) (λ u. visit_threads visitor ts u)

  pub visit_children {ℓ} : {S : Type ℓ} → (ℕ → S → Verdict × S) → Children → S → Visit S
  visit_children visitor no_children s = going s
  visit_children visitor (child p cs) s =
      then (visit_process visitor p s) (λ u. visit_children visitor cs u)
