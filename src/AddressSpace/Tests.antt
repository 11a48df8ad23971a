-- ===== src/AddressSpace/Tests.antt =====
-- linux-5.15.178/kernel/fork.c: a process with its heap, the page of the task view, a shared mapping
-- of the file 3, and an area that a fork leaves out. Its pages are at 8192 and 16384.
use oshome_work.Base.{
  ◌-◌, ◌≡◌, refl, inl, inr, true, false, ◌&&◌, Option, none, some, [], ◌∷◌, arith, ltb, leb, ◌==◌,
  if◌then◌else◌, length,
}
use oshome_work.AddressSpace.Mmput.{IsExit}
use oshome_work.AddressSpace.Balance.{dup_mm-Balances, Balances}
use oshome_work.AddressSpace.Result.{IsCopy, dup_mm-IsCopy}
use oshome_work.AddressSpace.Charges.{charge_of, uses_file, writes_file, sum}
use oshome_work.AddressSpace.Wiped.{dup_mm_wiped}
use oshome_work.AddressSpace.Pages.{IsLocal, IsOrdered}
use oshome_work.AddressSpace.Whole.{
  Around, arch_copied, dup_mmap, unlock_both, dup_mm, dup_areas, areas_copied, free_pt, mm_init,
  dup_mm_exe_file, mmput, mmdrop,
}
use oshome_work.AddressSpace.{
  Counts, link_area, prepare_area, VmArea, share_file, child_area, Mm, AreaAnswers, copy_areas,
  copy_area, VmStat, dup_area, enomem, Errno,
}

abbrev heap : VmArea
heap = record {
  vm_start = 8192;
  vm_end = 12288;
  vma_pages = 1;
  dontcopy = false;
  account = true;
  wipeonfork = false;
  shared = false;
  locked = true;
  lockonfault = false;
  anon_vma = some 5;
  vm_file = none;
  has_open = false;
}

abbrev view : VmArea
view = record heap {
  vm_start = 16384;
  vm_end = 20480;
  account = false;
  wipeonfork = true;
  anon_vma = none;
}

abbrev file : VmArea
file = record heap {
  vm_start = 20480;
  vm_end = 28672;
  vma_pages = 2;
  shared = true;
  vm_file = some 3;
  anon_vma = none;
  has_open = true;
}

abbrev private : VmArea
private = record heap { vm_start = 28672; vm_end = 32768; dontcopy = true }

abbrev parent : Mm
parent = record {
  mmap = heap ∷ view ∷ file ∷ private ∷ [];
  map_count = 4;
  stat = record { total_vm = 5; data_vm = 2; exec_vm = 0; stack_vm = 0 };
  hiwater_vm = 9;
  page = λ p. if p == 8192 then some 1 else (if p == 16384 then some 2 else none);
  exe_file = true;
  binfmt = true;
  opened = [];
  locked = true;
}

abbrev counts : Counts
counts = record {
  mms = 1;
  pgds = 1;
  contexts = 1;
  user_ns = 1;
  exe_files = 1;
  modules = 1;
  accounted = 4;
  areas = 4;
  policies = 4;
  files = λ p. if p == 3 then 2 else 0;
  writable = λ p. if p == 3 then 1 else 0;
  uprobes = 0;
  old_locked = false;
}

abbrev account : VmArea → VmStat → VmStat
account v st = record st {
  total_vm = st.total_vm - v.vma_pages;
  data_vm = st.data_vm - v.vma_pages;
}

-- The pages of the old process within the area are shared; the copy of the file's may fail.
abbrev answers : Option Errno → VmArea → AreaAnswers
answers o v = record {
  fatal_signal_pending = false;
  enough_memory = true;
  vm_area_dup = true;
  vma_dup_policy = none;
  dup_userfaultfd = none;
  anon_vma_fork = some (some 6);
  copy_page_range = λ page. (
    (if v.shared then o else none),
    λ p. if leb v.vm_start p && ltb p v.vm_end then parent.page p else page p,
  );
}

abbrev around : Around
around = record {
  allocate_mm = true;
  mm_alloc_pgd = true;
  init_new_context = true;
  mmap_lock_killed = false;
  ksm_fork = none;
  khugepaged_fork = none;
  arch_dup_mmap = none;
  try_module_get = true;
  exit_mmap = λ mmap d. record d {
    accounted = d.accounted - sum charge_of mmap;
    areas = d.areas - length mmap;
    policies = d.policies - length mmap;
    files = λ p. d.files p - sum (uses_file p) mmap;
    writable = λ p. d.writable p - sum (writes_file p) mmap;
  };
}

around-IsExit : IsExit around.exit_mmap
unfolding sum
around-IsExit = record {
  exits = λ c d mmap h. record {
    accounted = omega (arith, h.accounted);
    areas = omega (arith, h.areas);
    policies = omega (arith, h.policies);
    files = λ p. omega (arith, h.files p);
    writable = λ p. omega (arith, h.writable p);
    mms = h.mms;
    pgds = h.pgds;
    contexts = h.contexts;
    user_ns = h.user_ns;
    exe_files = h.exe_files;
    modules = h.modules;
    uprobes = h.uprobes;
    old_locked = h.old_locked;
  };
}

answers-IsLocal : (o : Option Errno) → IsLocal (answers o)
answers-IsLocal o = record {
  local = λ v page p h. elim h [ inl l ↦ ground arith | inr l ↦ ground arith ];
}

parent-IsOrdered : IsOrdered 0 parent.mmap
unfolding IsOrdered
parent-IsOrdered = (
  omega arith,
  omega arith,
  (omega arith, omega arith, (omega arith, omega arith, (omega arith, omega arith, tt))),
)

-- The fork of the process.
abbrev forked : Option Errno → Option Mm × Counts
forked o = dup_mm account (answers o) around parent counts

abbrev child : Mm
child = record {
  mmap = child_area heap (some 6) ∷ child_area view (some 6) ∷ child_area file (some 6) ∷ [];
  map_count = 3;
  stat = record { total_vm = 4; data_vm = 1; exec_vm = 0; stack_vm = 0 };
  hiwater_vm = 4;
  page = λ p.
      if leb 20480 p && ltb p 28672
      then parent.page p
      else (if leb 8192 p && ltb p 12288 then parent.page p else none);
  exe_file = true;
  binfmt = true;
  opened = 20480 ∷ [];
  locked = false;
}

made : forked none ≡ (some child, (forked none).1)
unfolding dup_mm mm_init dup_mmap dup_mm_exe_file dup_areas arch_copied copy_areas copy_area
    dup_area prepare_area link_area share_file unlock_both areas_copied
made = refl

-- Where the pages of the file cannot be copied, the memory of the heap is not accounted any more.
given_back : ((forked (some enomem)).0 ≡ none) × ((forked (some enomem)).1.accounted ≡ 4)
unfolding dup_mm mm_init dup_mmap dup_mm_exe_file dup_areas arch_copied copy_areas copy_area
    dup_area prepare_area link_area share_file unlock_both areas_copied free_pt mmput mmdrop sum
given_back = (refl, refl)

dup_mm-Balances_example :
    Balances account (answers (some enomem)) around parent counts refl (forked (some enomem))
dup_mm-Balances_example =
    dup_mm-Balances account (answers (some enomem)) around parent counts refl around-IsExit

dup_mm-IsCopy_example : IsCopy account (answers none) around parent child
dup_mm-IsCopy_example =
    dup_mm-IsCopy account (answers none) around parent counts (forked none).1 child made

dup_mm_wiped_example : child.page 16384 ≡ none
dup_mm_wiped_example =
    dup_mm_wiped account (answers none) around parent child counts (forked none).1 1 16384 view
      (answers-IsLocal none) parent-IsOrdered refl refl (omega arith) (omega arith) made
