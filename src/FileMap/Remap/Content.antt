-- ===== src/FileMap/Remap/Content.antt =====
-- memctrl/mmap/impl.c: `mmap_remap` moves what the area holds.
use oshome_work.Base.{
  ℕ, ◌+◌, ◌%◌, ◌≤◌, ◌<◌, ◌≡◌, ◌≢◌, ◌⊎◌, Bool, Option, none, some, ◌==◌, if◌then◌else◌,
}
use oshome_work.FileMap.Remap.{Space, IsMapped, Mman}

-- What `mmap_remap` gives.
unfoldable pub Moved : Mman → (addr size : ℕ) → Space → Option (ℕ × Space) → ℕ × Space → Type 0
Moved lib addr size m none (r, t) = (r ≡ 0) × (t ≡ m)
Moved lib addr size m (some (p, n)) (r, t) =
    (r ≡ p)
    × ((i : ℕ) → i < size → t (p + i) ≡ (if addr == 0 then some 0 else m (addr + i)))
    × (addr ≢ 0
        → (i : ℕ) → i < lib.rounded size
        → t (addr + i)
          ≡ (if (lib.munmap addr size (lib.memcpy p addr size n)).0 then none else m (addr + i)))
    × ((q v : ℕ) → m q ≡ some v → (q < addr) ⊎ (addr + lib.rounded size ≤ q) → t q ≡ some v)

module _ (lib : Mman) (addr size : ℕ) (m : Space) (p : ℕ) (n : Space)
    (e : lib.mmap size m ≡ some (p, n)) (old : IsMapped m addr (lib.rounded size)) where
  module _ (page : addr % lib.page ≡ 0) (l : 1 ≤ size) where
    -- What `munmap` answers, and the memory after it.
    abbrev answer : Bool × Space
    answer = lib.munmap addr size (lib.memcpy p addr size n)
