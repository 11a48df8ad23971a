-- ===== src/FileMap/Remap.antt =====
-- memctrl/mmap/impl.c: `mmap_remap`, which moves an anonymous area to a new place. The memory of the
-- process is a partial function from addresses to bytes. `mmap`, `memcpy` and `munmap` are parameters
-- with what their manual pages say.
pub mod Content
mod Tests
use oshome_work.Base.{
  ℕ, ◌+◌, ◌%◌, ◌≤◌, ◌<◌, ◌≡◌, ◌⊎◌, Bool, true, false, Option, none, some, ◌==◌, if◌then◌else◌,
}

abbrev pub Space : Type 0
Space = ℕ → Option ℕ

unfoldable pub IsMapped : Space → (start size : ℕ) → Type 0
IsMapped m start size = (i : ℕ) → i < size → (v : ℕ) × (m (start + i) ≡ some v)

-- `mmap` gives new memory, filled with zeros, where nothing was, and changes nothing else; `memcpy`
-- copies between areas that do not overlap; `munmap` answers whether it did, and at the start of a
-- page then takes whole pages away, or else, for want of kernel memory, leaves the memory as it is.
pub record Mman : Type 0 where
  pub page : ℕ
  pub mmap : (size : ℕ) → Space → Option (ℕ × Space)
  pub memcpy : (destination source count : ℕ) → Space → Space
  pub munmap : (start size : ℕ) → Space → Bool × Space
  pub rounded : ℕ → ℕ
  pub rounded_ge : (size : ℕ) → size ≤ rounded size
  pub fresh :
      (size : ℕ) (m : Space) (p : ℕ) (n : Space)
      → mmap size m ≡ some (p, n)
      → ((i : ℕ) → i < size → (m (p + i) ≡ none) × (n (p + i) ≡ some 0))
        × ((q v : ℕ) → m q ≡ some v → n q ≡ some v)
  pub copied :
      (d s c : ℕ) (m : Space)
      → IsMapped m s c
      → IsMapped m d c
      → (s + c ≤ d) ⊎ (d + c ≤ s)
      → ((i : ℕ) → i < c → memcpy d s c m (d + i) ≡ m (s + i))
        × ((q : ℕ) → (q < d) ⊎ (d + c ≤ q) → memcpy d s c m q ≡ m q)
  pub unmapped :
      (start size : ℕ) (m : Space)
      → start % page ≡ 0
      → (munmap start size m).0 ≡ true
      → ((q : ℕ) → start ≤ q → q < start + rounded size → (munmap start size m).1 q ≡ none)
        × ((q : ℕ) → (q < start) ⊎ (start + rounded size ≤ q) → (munmap start size m).1 q ≡ m q)
  pub refused :
      (start size : ℕ) (m : Space)
      → (munmap start size m).0 ≡ false
      → (q : ℕ) → (munmap start size m).1 q ≡ m q

-- After `mmap`, and `mmap_remap`: the address, 0 for NULL, and the memory. Nothing looks at what
-- `munmap` answers.
unfoldable pub moved : Mman → (addr size : ℕ) → Space → Option (ℕ × Space) → ℕ × Space
moved lib addr size m none = (0, m)
moved lib addr size m (some (p, n)) =
    if addr == 0 then (p, n) else (p, (lib.munmap addr size (lib.memcpy p addr size n)).1)

unfoldable pub mmap_remap : Mman → (addr size : ℕ) → Space → ℕ × Space
unfolding moved
mmap_remap lib addr size m = moved lib addr size m (lib.mmap size m)
