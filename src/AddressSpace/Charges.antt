-- ===== src/AddressSpace/Charges.antt =====
-- linux-5.15.178/kernel/fork.c: what the kernel holds for the areas of an address space.
use oshome_work.Base.{
  ℕ, ◌+◌, ◌≡◌, none, some, List, [], ◌∷◌, ◌++◌, arith, ◌==◌, if◌then◌else◌, length,
}
use oshome_work.AddressSpace.{VmArea, Counts}

-- What one area holds of the memory, of a file and of its shared writable mappings.
abbrev pub charge_of : VmArea → ℕ
charge_of v = if v.account then v.vma_pages else 0

abbrev pub uses_file : ℕ → VmArea → ℕ
uses_file p v = elim v.vm_file [ none ↦ 0 | some q ↦ if q == p then 1 else 0 ]

abbrev pub writes_file : ℕ → VmArea → ℕ
writes_file p v = if v.shared then uses_file p v else 0

-- The sum over the areas.
unfoldable pub sum : (VmArea → ℕ) → List VmArea → ℕ
sum f [] = 0
sum f (v ∷ vs) = f v + sum f vs

pub sum-append_one :
    (f : VmArea → ℕ) (vs : List VmArea) (w : VmArea) → sum f (vs ++ w ∷ []) ≡ sum f vs + f w
unfolding sum
sum-append_one f [] w = omega arith
sum-append_one f (v ∷ vs) w = omega (arith, sum-append_one f vs w)

-- Beyond what the kernel held before, it holds what the areas of the new address space need.
pub record IsHeld (c : Counts) (mmap : List VmArea) (d : Counts) : Type 0 where
  pub accounted : d.accounted ≡ c.accounted + sum charge_of mmap
  pub areas : d.areas ≡ c.areas + length mmap
  pub policies : d.policies ≡ c.policies + length mmap
  pub files : (p : ℕ) → d.files p ≡ c.files p + sum (uses_file p) mmap
  pub writable : (p : ℕ) → d.writable p ≡ c.writable p + sum (writes_file p) mmap
  pub mms : d.mms ≡ c.mms
  pub pgds : d.pgds ≡ c.pgds
  pub contexts : d.contexts ≡ c.contexts
  pub user_ns : d.user_ns ≡ c.user_ns
  pub exe_files : d.exe_files ≡ c.exe_files
  pub modules : d.modules ≡ c.modules
  pub uprobes : d.uprobes ≡ c.uprobes
  pub old_locked : d.old_locked ≡ c.old_locked
