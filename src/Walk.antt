-- ===== src/Walk.antt =====
-- linux-5.15.178/kernel/fork.c: `walk_process_tree`, which goes over the descendants of a process
-- with no stack of its own: it finds its way up again through the pointers of the tasks.
pub mod Tree
pub mod Order
mod Tests
use oshome_work.Base.{
  ℕ, zero, suc, true, false, Option, none, some, List, [], ◌∷◌, ◌==◌, if◌then◌else◌,
}

-- The lists and pointers of the tasks, a task by its number: `for_each_thread` of a group leader,
-- `children` of a thread, `real_parent` and `group_leader`.
pub record Tasks : Type 0 where
  pub threads : ℕ → List ℕ
  pub children : ℕ → List ℕ
  pub real_parent : ℕ → ℕ
  pub group_leader : ℕ → ℕ

-- The result of a visitor: below 0, 0, and above 0.
pub data Verdict : Type 0 where
  stop skip enter : Verdict

-- A place in the walk: the process, the thread of it, and what is left of the two loops.
pub data Place : Type 0 where
  place : (leader parent : ℕ) (children_left threads_left : List ℕ) → Place

-- What follows an element in a list: the loop goes on from there.
abbrev pub after : ℕ → List ℕ → List ℕ
after a [] = []
after a (x ∷ xs) = if x == a then xs else after a xs

-- The label `down`.
abbrev pub down : Tasks → ℕ → Place
down tasks leader = place leader leader [] (tasks.threads leader)

-- The jump to `up` from the end of a process.
abbrev pub up : Tasks → ℕ → Place
up tasks child =
    let parent = tasks.real_parent child in
    let leader = tasks.group_leader parent in
    place leader parent (after child (tasks.children parent)) (after parent (tasks.threads leader))

module _ {ℓ} {S : Type ℓ} (tasks : Tasks) (visitor : ℕ → S → Verdict × S) (top : ℕ) where
  -- The loops, on fuel: a round is one visit, one thread, or one end of a process. The visitor keeps
  -- its own state in `data`.
  unfoldable pub walk : ℕ → Place → S → Option S
  walk zero at_ s = none
  walk (suc fuel) (place leader parent (c ∷ cs) ts) s =
      let r = visitor c s in
      elim (r.0) [
        | stop ↦ some r.1
        | skip ↦ walk fuel (place leader parent cs ts) r.1
        | enter ↦ walk fuel (down tasks c) r.1
      ]
  walk (suc fuel) (place leader parent [] (t ∷ ts)) s =
      walk fuel (place leader t (tasks.children t) ts) s
  walk (suc fuel) (place leader parent [] []) s = elim (leader == top) [
    | true ↦ some s
    | false ↦ walk fuel (up tasks leader) s
  ]

-- `walk_process_tree`
unfoldable pub walk_process_tree {ℓ} :
    {S : Type ℓ} → Tasks → (ℕ → S → Verdict × S) → (fuel task : ℕ) → S → Option S
unfolding walk
walk_process_tree tasks visitor fuel task s =
    let top = tasks.group_leader task in walk tasks visitor top fuel (down tasks top) s
