-- ===== src/Stack.antt =====
-- linux-5.15.178/kernel/fork.c: `dup_task_struct` and the kernel stacks that it gives out, with
-- CONFIG_VMAP_STACK: the cache of stacks of a processor, and the memory that is charged for their
-- pages. A stack is named by its address. Setting the fields of the new task cannot fail.
pub mod Charged
pub mod Dup
pub mod Cache
mod Tests
use oshome_work.Base.{
  ℕ, zero, suc, ◌+◌, ◌-◌, Bool, true, false, not, ◌&&◌, Option, none, some, List, [], ◌∷◌, ◌==◌,
  if◌then◌else◌, is_some,
}
use oshome_work.Fork.Flags.{Errno}

-- The two slots of `cached_stacks`, how many stacks and task structures are allocated, which pages
-- of a stack are charged, and how many stacks are accounted.
pub record Stacks : Type 0 where
  pub cached_stacks : List (Option ℕ)
  pub allocated : ℕ
  pub task_structs : ℕ
  pub charged : (stack i : ℕ) → Bool
  pub accounted : ℕ

-- The answers of the functions that are called; `memcg_kmem_charge_page` for the page `i`.
pub record StackAnswers : Type 0 where
  pub alloc_task_struct_node : Bool
  pub vmalloc_node_range : Option ℕ
  pub memcg_kmem_charge_page : ℕ → Option Errno
  pub arch_dup_task_struct : Option Errno
  pub scs_prepare : Option Errno

-- `THREAD_SIZE / PAGE_SIZE`
abbrev pub stack_pages : ℕ
stack_pages = 4

-- The first loop of `alloc_thread_stack_node`: the first stack of the cache, whose slot is emptied.
unfoldable pub take_cached : List (Option ℕ) → Option ℕ × List (Option ℕ)
take_cached [] = (none, [])
take_cached (none ∷ cs) = let (o, r) = take_cached cs in (o, none ∷ r)
take_cached (some p ∷ cs) = (some p, none ∷ cs)

-- The second loop of `free_thread_stack`: the stack goes to the first empty slot, if there is one.
unfoldable pub put_cached : ℕ → List (Option ℕ) → Bool × List (Option ℕ)
put_cached p [] = (false, [])
put_cached p (none ∷ cs) = (true, some p ∷ cs)
put_cached p (some q ∷ cs) = let (b, r) = put_cached p cs in (b, some q ∷ r)

-- `alloc_thread_stack_node`
unfoldable pub alloc_thread_stack_node : StackAnswers → Stacks → Option ℕ × Stacks
unfolding take_cached
alloc_thread_stack_node a s =
    let (o, r) = take_cached s.cached_stacks in
    elim o [
      | some p ↦ (some p, record s { cached_stacks = r })
      | none ↦ elim a.vmalloc_node_range [
        | none ↦ (none, record s { cached_stacks = r })
        | some p ↦ (some p, record s { cached_stacks = r; allocated = s.allocated + 1 })
      ]
    ]

abbrev pub set_charged : (stack i : ℕ) → Bool → ((stack i : ℕ) → Bool) → (stack i : ℕ) → Bool
set_charged p i b charged q j = if p == q && i == j then b else charged q j

-- The loop of `memcg_charge_kernel_stack` over the `n` pages from `i` on.
unfoldable pub charge_pages :
    (ℕ → Option Errno)
    → (n stack i : ℕ) → ((stack i : ℕ) → Bool)
    → Option Errno × ((stack i : ℕ) → Bool)
charge_pages charge zero p i charged = (none, charged)
charge_pages charge (suc n) p i charged = elim (charge i) [
  | some e ↦ (some e, charged)
  | none ↦ charge_pages charge n p (i + 1) (set_charged p i true charged)
]

-- The first loop of `free_thread_stack`: a page that is not charged is passed over.
unfoldable pub uncharge_pages : (n stack i : ℕ) → ((stack i : ℕ) → Bool) → (stack i : ℕ) → Bool
uncharge_pages zero p i charged = charged
uncharge_pages (suc n) p i charged = uncharge_pages n p (i + 1) (set_charged p i false charged)

-- `free_thread_stack`
unfoldable pub free_thread_stack : (stack : ℕ) → Stacks → Stacks
unfolding put_cached uncharge_pages
free_thread_stack p s =
    let (kept, r) = put_cached p s.cached_stacks in
    record s {
      charged = uncharge_pages stack_pages p 0 s.charged;
      cached_stacks = r;
      allocated = (if kept then s.allocated else s.allocated - 1);
    }

-- The labels `free_tsk` and `free_stack`.
unfoldable pub free_tsk : Stacks → Option ℕ × Stacks
free_tsk s = (none, record s { task_structs = s.task_structs - 1 })

unfoldable pub free_stack : (stack : ℕ) → Stacks → Option ℕ × Stacks
unfolding free_tsk free_thread_stack
free_stack p s = free_tsk (free_thread_stack p s)

-- After `memcg_charge_kernel_stack`.
unfoldable pub stack_charged :
    StackAnswers → (stack : ℕ) → Option Errno → Stacks → Option ℕ × Stacks
unfolding free_stack
stack_charged a p (some e) s = free_stack p s
stack_charged a p none s =
    if is_some a.arch_dup_task_struct
    then free_stack p s
    else if is_some a.scs_prepare
    then free_stack p s
    else (some p, record s { accounted = s.accounted + 1 })

-- After `alloc_thread_stack_node`.
unfoldable pub stack_found : StackAnswers → Option ℕ × Stacks → Option ℕ × Stacks
unfolding stack_charged charge_pages
stack_found a (none, s) = free_tsk s
stack_found a (some p, s) =
    let (e, charged) = charge_pages a.memcg_kmem_charge_page stack_pages p 0 s.charged in
    stack_charged a p e (record s { charged = charged })

-- `dup_task_struct`: the stack of the new task.
unfoldable pub dup_task_struct : StackAnswers → Stacks → Option ℕ × Stacks
unfolding stack_found alloc_thread_stack_node
dup_task_struct a s =
    if not a.alloc_task_struct_node
    then (none, s)
    else stack_found a (alloc_thread_stack_node a (record s { task_structs = s.task_structs + 1 }))
