-- ===== src/Stack/Dup.antt =====
-- linux-5.15.178/kernel/fork.c: what `dup_task_struct` leaves.
use oshome_work.Base.{
  ℕ, ◌+◌, ◌≤◌, ◌<◌, ◌≡◌, refl, ◌∙◌, ◌≢◌, true, false, not, Option, none, some, arith, is_some,
  either,
}
use oshome_work.Stack.Charged.{
  take_cached-filled, charge_pages-all, charge_pages-other, put_cached-filled, uncharge_pages_lem,
  filled, reaches,
}
use oshome_work.Stack.{
  dup_task_struct, charge_pages, alloc_thread_stack_node, Stacks, StackAnswers, free_thread_stack,
  stack_charged, take_cached, stack_found, free_tsk, free_stack, Errno,
}

-- The stack that would be handed out next, if any, has no page that is charged.
pub record IsClean (a : StackAnswers) (s : Stacks) : Type 0 where
  pub cached : (p j : ℕ) → (take_cached s.cached_stacks).0 ≡ some p → s.charged p j ≡ false
  pub fresh : (p j : ℕ) → a.vmalloc_node_range ≡ some p → s.charged p j ≡ false
  pub enough : filled s.cached_stacks ≤ s.allocated

-- As many stacks are in use as before, and the same pages are charged.
pub record IsBack (s t : Stacks) : Type 0 where
  pub in_use : t.allocated + filled s.cached_stacks ≡ s.allocated + filled t.cached_stacks
  pub charged : (q j : ℕ) → t.charged q j ≡ s.charged q j
  pub task_structs : t.task_structs ≡ s.task_structs
  pub accounted : t.accounted ≡ s.accounted

-- One stack more is in use, with all of its pages charged.
pub record IsGiven (s : Stacks) (p : ℕ) (t : Stacks) : Type 0 where
  pub in_use : t.allocated + filled s.cached_stacks ≡ s.allocated + filled t.cached_stacks + 1
  pub charged : (j : ℕ) → j < 4 → t.charged p j ≡ true
  pub others : (q j : ℕ) → p ≢ q → t.charged q j ≡ s.charged q j
  pub task_structs : t.task_structs ≡ s.task_structs + 1
  pub accounted : t.accounted ≡ s.accounted + 1

-- While the stack is out.
record Out (s : Stacks) (p : ℕ) (u : Stacks) : Type 0 where
  in_use : u.allocated + filled s.cached_stacks ≡ s.allocated + filled u.cached_stacks + 1
  room : 1 ≤ u.allocated
  task_structs : u.task_structs ≡ s.task_structs + 1
  accounted : u.accounted ≡ s.accounted
  charged : (q j : ℕ) → reaches 4 p 0 q j ≡ false → u.charged q j ≡ s.charged q j
  clean : (j : ℕ) → s.charged p j ≡ false

pub Ends : Stacks → Option ℕ × Stacks → Type 0
Ends s (none, t) = IsBack s t
Ends s (some p, t) = IsGiven s p t

free_stack-IsBack : (s : Stacks) (p : ℕ) (u : Stacks) → Out s p u → Ends s (free_stack p u)
unfolding Ends free_stack free_tsk free_thread_stack
free_stack-IsBack s p u o = record {
  in_use = ground (arith, o.in_use, o.room, put_cached-filled p u.cached_stacks);
  charged =
      λ q j. uncharge_pages_lem 4 p 0 u.charged q j ∙ ground (arith, o.charged q j, o.clean j);
  task_structs = omega (arith, o.task_structs);
  accounted = o.accounted;
}

module _ (a : StackAnswers) (s : Stacks) where
  stack_charged-Ends :
      (p : ℕ) (e : Option Errno) (u : Stacks)
      → Out s p u
      → (e ≡ none → (j : ℕ) → j < 4 → u.charged p j ≡ true)
      → Ends s (stack_charged a p e u)
  unfolding stack_charged Ends
  stack_charged-Ends p (some e) u o h = free_stack-IsBack s p u o
  stack_charged-Ends p none u o h =
      either (Ends s) (is_some a.arch_dup_task_struct) (free_stack-IsBack s p u o) (
        either (Ends s) (is_some a.scs_prepare) (free_stack-IsBack s p u o) (record {
          in_use = o.in_use;
          charged = h refl;
          others = λ q j n. o.charged q j (ground arith);
          task_structs = o.task_structs;
          accounted = omega (arith, o.accounted);
        }))

  stack_found-Ends : (p : ℕ) (u : Stacks) → Out s p u → Ends s (stack_found a (some p, u))
  unfolding stack_found
  stack_found-Ends p u o =
      let c = a.memcg_kmem_charge_page in
      let r = charge_pages c 4 p 0 u.charged in
      stack_charged-Ends p r.0 (record u { charged = r.1 })
        (record {
          in_use = o.in_use;
          room = o.room;
          task_structs = o.task_structs;
          accounted = o.accounted;
          charged = λ q j h. charge_pages-other c 4 p 0 u.charged q j h ∙ o.charged q j h;
          clean = o.clean;
        })
        (λ e j l. charge_pages-all c 4 p 0 u.charged p j e (ground arith))

  -- With its `task_struct`, and the cache as the search leaves it.
  abbrev searched : Stacks
  searched = record s {
    task_structs = s.task_structs + 1;
    cached_stacks = (take_cached s.cached_stacks).1;
  }

  alloc_thread_stack_node-Ends :
      IsClean a s
      → Ends s (
          stack_found a
            (alloc_thread_stack_node a (record s { task_structs = s.task_structs + 1 })))
  unfolding alloc_thread_stack_node stack_found free_tsk Ends
  alloc_thread_stack_node-Ends h =
      let f = take_cached-filled s.cached_stacks in
      let P = λ (r : Option ℕ × Stacks). Ends s (stack_found a r) in
      (elim ((take_cached s.cached_stacks).0)
          as (λ o.
            (take_cached s.cached_stacks).0 ≡ o
            → P (elim o [
              | some p ↦ (some p, searched)
              | none ↦ elim a.vmalloc_node_range [
                | none ↦ (none, searched)
                | some p ↦ (some p, record searched { allocated = s.allocated + 1 })
              ]
            ])) [
              | some p ↦ λ k. stack_found-Ends p searched (record {
                in_use = ground (arith, f, k);
                room = ground (arith, f, k, h.enough);
                task_structs = refl;
                accounted = refl;
                charged = λ q j e. refl;
                clean = λ j. h.cached p j k;
              })
              | none ↦ λ k.
                  (elim (a.vmalloc_node_range)
                      as (λ o.
                        a.vmalloc_node_range ≡ o
                        → P (elim o [
                          | none ↦ (none, searched)
                          | some p ↦ (some p, record searched { allocated = s.allocated + 1 })
                        ])) [
                          | some p ↦ λ l.
                              stack_found-Ends p (record searched { allocated = s.allocated + 1 })
                                (record {
                                  in_use = ground (arith, f, k);
                                  room = omega arith;
                                  task_structs = refl;
                                  accounted = refl;
                                  charged = λ q j e. refl;
                                  clean = λ j. h.fresh p j l;
                                })
                          | none ↦ λ l. record {
                            in_use = ground (arith, f, k);
                            charged = λ q j. refl;
                            task_structs = omega arith;
                            accounted = refl;
                          }
                        ])
                    refl
            ])
        refl

  -- Where no more stacks are cached than allocated, and the stack that is handed out next has no
  -- charged page: a `dup_task_struct` that fails, also half-way through the pages of a stack,
  -- leaves as many stacks in use, the same pages charged, and as many task structures and accounted
  -- stacks as before; one that does not fail hands out one stack more, with all its pages charged,
  -- and changes the charge of no other stack.
  pub dup_task_struct-Ends : IsClean a s → Ends s (dup_task_struct a s)
  unfolding dup_task_struct Ends
  dup_task_struct-Ends h =
      either (Ends s) (not a.alloc_task_struct_node)
        (record { in_use = refl; charged = λ q j. refl; task_structs = refl; accounted = refl })
        (alloc_thread_stack_node-Ends h)
