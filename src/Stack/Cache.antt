-- ===== src/Stack/Cache.antt =====
-- linux-5.15.178/kernel/fork.c: `free_vm_stack_cache`, which empties the cache of a processor that
-- goes offline.
use oshome_work.Base.{ℕ, ◌+◌, ◌-◌, ◌≤◌, ◌≡◌, refl, Option, none, some, List, [], ◌∷◌, arith}
use oshome_work.Stack.{Stacks}
use oshome_work.Stack.Dup.{IsBack}
use oshome_work.Stack.Charged.{filled}

-- The loop over the slots: the slots, and the allocated stacks that are left.
unfoldable pub free_slots : List (Option ℕ) → (allocated : ℕ) → List (Option ℕ) × ℕ
free_slots [] n = ([], n)
free_slots (none ∷ cs) n = let (r, m) = free_slots cs n in (none ∷ r, m)
free_slots (some p ∷ cs) n = let (r, m) = free_slots cs (n - 1) in (none ∷ r, m)

-- `free_vm_stack_cache`
unfoldable pub free_vm_stack_cache : Stacks → Stacks
unfolding free_slots filled
free_vm_stack_cache s =
    let (r, m) = free_slots s.cached_stacks s.allocated in
    record s { cached_stacks = r; allocated = m }

free_slots-filled :
    (cs : List (Option ℕ)) (n : ℕ)
    → filled cs ≤ n
    → ((free_slots cs n).1 + filled cs ≡ n) × (filled (free_slots cs n).0 ≡ 0)
unfolding free_slots filled
free_slots-filled [] n l = (omega arith, refl)
free_slots-filled (none ∷ cs) n l = free_slots-filled cs n l
free_slots-filled (some p ∷ cs) n l =
    let (a, b) = free_slots-filled cs (n - 1) (omega arith) in (omega (arith, a, l), b)

-- Afterwards the cache is empty, and as many stacks are in use as before.
pub free_vm_stack_cache-IsBack :
    (s : Stacks)
    → filled s.cached_stacks ≤ s.allocated
    → IsBack s (free_vm_stack_cache s) × (filled (free_vm_stack_cache s).cached_stacks ≡ 0)
unfolding free_vm_stack_cache
free_vm_stack_cache-IsBack s l =
    let (a, b) = free_slots-filled s.cached_stacks s.allocated l in
    (
      record {
        in_use = omega (arith, a, b);
        charged = λ q j. refl;
        task_structs = refl;
        accounted = refl;
      },
      b,
    )
