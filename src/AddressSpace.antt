-- ===== src/AddressSpace.antt =====
-- linux-5.15.178/kernel/fork.c: `dup_mm`, which copies the address space of a process for a fork,
-- with `mm_init`, `dup_mmap`, `mmput` and `__mmdrop`. The memory manager's answers for each area are
-- parameters, as is `exit_mmap`. Left out are the caches and the trees that only speed a search up.
pub mod Charges
pub mod Areas
pub mod Whole
pub mod Balance
pub mod Copy
pub mod Result
pub mod Pages
pub mod Wiped
pub mod Mmput
mod Tests
use oshome_work.Base.{
  ℕ, ◌+◌, ◌-◌, Bool, false, not, ◌&&◌, Option, none, some, List, [], ◌∷◌, ◌++◌, if◌then◌else◌,
  is_some, update,
}
use oshome_work.Fork.Flags.{Errno, enomem, eintr}

-- `struct vm_area_struct`: its extent, the flags that are read here, its file, and whether it has an
-- `open` of its own.
pub record VmArea : Type 0 where
  pub vm_start : ℕ
  pub vm_end : ℕ
  pub vma_pages : ℕ
  pub dontcopy : Bool
  pub account : Bool
  pub wipeonfork : Bool
  pub shared : Bool
  pub locked : Bool
  pub lockonfault : Bool
  pub anon_vma : Option ℕ
  pub vm_file : Option ℕ
  pub has_open : Bool

pub record VmStat : Type 0 where
  pub total_vm : ℕ
  pub data_vm : ℕ
  pub exec_vm : ℕ
  pub stack_vm : ℕ

-- What the functions that are called for one area answer. `copy_page_range` gives the page table of
-- the new process as it leaves it.
pub record AreaAnswers : Type 0 where
  pub fatal_signal_pending : Bool
  pub enough_memory : Bool
  pub vm_area_dup : Bool
  pub vma_dup_policy : Option Errno
  pub dup_userfaultfd : Option Errno
  pub anon_vma_fork : Option (Option ℕ)
  pub copy_page_range : (ℕ → Option ℕ) → Option Errno × (ℕ → Option ℕ)

-- `struct mm_struct`; `exe_file` and `binfmt` say whether it has one.
pub record Mm : Type 0 where
  pub mmap : List VmArea
  pub map_count : ℕ
  pub stat : VmStat
  pub hiwater_vm : ℕ
  pub page : ℕ → Option ℕ
  pub exe_file : Bool
  pub binfmt : Bool
  pub opened : List ℕ
  pub locked : Bool

-- What the kernel holds: the structures that are allocated, the references to the user name space,
-- the executable and the module of its format, the memory that is accounted, the references to each
-- file and the shared writable mappings of it, the read locks of uprobes, and the lock of the old
-- address space.
pub record Counts : Type 0 where
  pub mms : ℕ
  pub pgds : ℕ
  pub contexts : ℕ
  pub user_ns : ℕ
  pub exe_files : ℕ
  pub modules : ℕ
  pub accounted : ℕ
  pub areas : ℕ
  pub policies : ℕ
  pub files : ℕ → ℕ
  pub writable : ℕ → ℕ
  pub uprobes : ℕ
  pub old_locked : Bool

-- The new address space and the kernel.
pub record Copying : Type 0 where
  pub mm : Mm
  pub counts : Counts

abbrev pub with_counts : (Counts → Counts) → Copying → Copying
with_counts g s = record s { counts = g s.counts }

abbrev pub with_mm : (Mm → Mm) → Copying → Copying
with_mm g s = record s { mm = g s.mm }

-- The labels `fail_nomem`, `fail_nomem_policy` and `fail_nomem_anon_vma_fork`.
unfoldable pub fail_nomem : (charge : ℕ) → Copying → Option Errno × Copying
fail_nomem charge s =
    (some enomem, with_counts (λ c. record c { accounted = c.accounted - charge }) s)

unfoldable pub fail_nomem_policy : (charge : ℕ) → Copying → Option Errno × Copying
unfolding fail_nomem
fail_nomem_policy charge s =
    fail_nomem charge (with_counts (λ c. record c { areas = c.areas - 1 }) s)

unfoldable pub fail_nomem_anon_vma_fork : (charge : ℕ) → Copying → Option Errno × Copying
unfolding fail_nomem_policy
fail_nomem_anon_vma_fork charge s =
    fail_nomem_policy charge (with_counts (λ c. record c { policies = c.policies - 1 }) s)

-- The new area: not locked, and without pages to share where it is wiped.
abbrev pub child_area : VmArea → Option ℕ → VmArea
child_area v anon = record v {
  anon_vma = (if v.wipeonfork then none else anon);
  locked = false;
  lockonfault = false;
}

-- `get_file` and `mapping_allow_writable`.
unfoldable pub share_file : VmArea → Counts → Counts
share_file v c = elim v.vm_file [
  | none ↦ c
  | some p ↦ record c {
    files = update c.files p (c.files p + 1);
    writable = (if v.shared then update c.writable p (c.writable p + 1) else c.writable);
  }
]

-- From `get_file` to the end of the body of the loop, for an area that is allocated.
unfoldable pub link_area : VmArea → Option ℕ → AreaAnswers → Copying → Option Errno × Copying
unfolding share_file
link_area v anon a s =
    let copied = (if v.wipeonfork then (none, s.mm.page) else a.copy_page_range s.mm.page) in
    (
      copied.0,
      record {
        mm = record s.mm {
          mmap = s.mm.mmap ++ child_area v anon ∷ [];
          map_count = s.mm.map_count + 1;
          page = copied.1;
          opened = (if v.has_open then s.mm.opened ++ v.vm_start ∷ [] else s.mm.opened);
        };
        counts = share_file v s.counts;
      },
    )

-- From `dup_userfaultfd` on.
unfoldable pub prepare_area : (charge : ℕ) → VmArea → AreaAnswers → Copying → Option Errno × Copying
unfolding fail_nomem_anon_vma_fork link_area
prepare_area charge v a s =
    if is_some a.dup_userfaultfd
    then fail_nomem_anon_vma_fork charge s
    else if v.wipeonfork
    then link_area v none a s
    else elim a.anon_vma_fork [
      | none ↦ fail_nomem_anon_vma_fork charge s
      | some anon ↦ link_area v anon a s
    ]

-- From `vm_area_dup` on.
unfoldable pub dup_area : (charge : ℕ) → VmArea → AreaAnswers → Copying → Option Errno × Copying
unfolding fail_nomem fail_nomem_policy prepare_area
dup_area charge v a s =
    if not a.vm_area_dup
    then fail_nomem charge s
    else let t = with_counts (λ c. record c { areas = c.areas + 1 }) s in
      elim a.vma_dup_policy [
        | some e ↦ fail_nomem_policy charge t
        | none ↦
            prepare_area charge v a (with_counts (λ c. record c { policies = c.policies + 1 }) t)
      ]

-- `answers v` are the answers for the area `v`; `vm_stat_account` takes the pages of an area out of
-- the statistics.
module _ (vm_stat_account : VmArea → VmStat → VmStat) (answers : VmArea → AreaAnswers) where
  -- The body of the loop.
  unfoldable pub copy_area : VmArea → Copying → Option Errno × Copying
  unfolding fail_nomem dup_area
  copy_area v s =
      let a = answers v in
      if v.dontcopy
      then (none, with_mm (λ mm. record mm { stat = vm_stat_account v mm.stat }) s)
      else if a.fatal_signal_pending
      then (some eintr, s)
      else if v.account && not a.enough_memory
      then fail_nomem 0 s
      else let charge = (if v.account then v.vma_pages else 0) in
        dup_area charge v a (with_counts (λ c. record c { accounted = c.accounted + charge }) s)

  -- The loop over the areas of the old address space.
  unfoldable pub copy_areas : List VmArea → Copying → Option Errno × Copying
  unfolding copy_area
  copy_areas [] s = (none, s)
  copy_areas (v ∷ vs) s =
      let (e, t) = copy_area v s in if is_some e then (e, t) else copy_areas vs t
