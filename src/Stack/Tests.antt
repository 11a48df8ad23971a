-- ===== src/Stack/Tests.antt =====
-- linux-5.15.178/kernel/fork.c: a processor with one cached stack, 70; the charge of its third page
-- fails.
use oshome_work.Base.{
  ℕ, ◌≡◌, refl, true, false, ◌&&◌, Option, none, some, [], ◌∷◌, arith, ltb, ◌==◌, if◌then◌else◌,
}
use oshome_work.Fork.Flags.{enomem}
use oshome_work.Stack.Charged.{filled}
use oshome_work.Stack.Dup.{IsClean, dup_task_struct-Ends, Ends}
use oshome_work.Stack.{
  uncharge_pages, stack_found, dup_task_struct, stack_charged, charge_pages, free_thread_stack,
  StackAnswers, free_stack, free_tsk, Stacks, put_cached, alloc_thread_stack_node, take_cached,
  Errno,
}

abbrev stacks : Stacks
stacks = record {
  cached_stacks = none ∷ some 70 ∷ [];
  allocated = 5;
  task_structs = 9;
  charged = λ q j. q == 60 && ltb j 4;
  accounted = 4;
}

abbrev answers : (ℕ → Option Errno) → StackAnswers
answers charge = record {
  alloc_task_struct_node = true;
  vmalloc_node_range = some 80;
  memcg_kmem_charge_page = charge;
  arch_dup_task_struct = none;
  scs_prepare = none;
}

abbrev third_fails : ℕ → Option Errno
third_fails i = if i == 2 then some enomem else none

stacks-IsClean : (charge : ℕ → Option Errno) → IsClean (answers charge) stacks
unfolding take_cached filled
stacks-IsClean charge = record {
  cached = λ p j e. ground arith;
  fresh = λ p j e. ground arith;
  enough = omega arith;
}

dup_task_struct-Ends_example : Ends stacks (dup_task_struct (answers third_fails) stacks)
dup_task_struct-Ends_example =
    dup_task_struct-Ends (answers third_fails) stacks (stacks-IsClean third_fails)

-- The stack goes to the first slot, and its pages are not charged any more.
put_back :
    ((dup_task_struct (answers third_fails) stacks).1.cached_stacks ≡ some 70 ∷ none ∷ [])
    × ((dup_task_struct (answers third_fails) stacks).1.charged 70 1 ≡ false)
unfolding dup_task_struct alloc_thread_stack_node take_cached stack_found charge_pages stack_charged
    free_stack free_thread_stack put_cached uncharge_pages free_tsk
put_back = (refl, refl)

handed_out : (dup_task_struct (answers (λ i. none)) stacks).0 ≡ some 70
unfolding dup_task_struct alloc_thread_stack_node take_cached stack_found charge_pages stack_charged
handed_out = refl
