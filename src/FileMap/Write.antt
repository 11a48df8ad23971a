-- ===== src/FileMap/Write.antt =====
-- memctrl/mmap/impl.c: what `file_mmap_write` does to the file and to the process.
use oshome_work.Base.{
  ℕ, ◌+◌, ◌≤◌, ◌<◌, max, ◌≡◌, ◌⊎◌, Bool, true, false, some, List, arith, length, get_elem?,
}
use oshome_work.FileMap.{SystemCalls, file_mmap_write, extend_file, World, write_at, write_mapped}

-- The text stands at its offset in a file that is just long enough.
pub record IsWritten (offset : ℕ) (content : List ℕ) (w t : World) : Type 0 where
  pub size : length t.bytes ≡ max (length w.bytes) (offset + length content)
  pub inside : (k : ℕ) → k < length content → get_elem? t.bytes (offset + k) ≡ get_elem? content k
  pub outside :
      (i : ℕ)
      → i < length w.bytes
      → (i < offset) ⊎ (offset + length content ≤ i)
      → get_elem? t.bytes i ≡ get_elem? w.bytes i
  pub gap : (i : ℕ) → length w.bytes ≤ i → i < offset → get_elem? t.bytes i ≡ some 0
  pub descriptors : t.descriptors ≡ w.descriptors
  pub mappings : t.mappings ≡ w.mappings

pub Written : SystemCalls → ℕ → List ℕ → World → Bool × World → Type 0
Written sys offset content w (true, t) = IsWritten offset content w t
Written sys offset content w (false, t) =
    (t.mappings ≡ w.mappings)
    × ((t.descriptors ≡ w.descriptors)
        ⊎ ((sys.msync ≡ false) × (t.descriptors ≡ w.descriptors + 1)))

-- The file after it was extended.
record IsExtended (total_len : ℕ) (old new : List ℕ) : Type 0 where
  size : length new ≡ max (length old) total_len
  same : (i : ℕ) → i < length old → get_elem? new i ≡ get_elem? old i
  gap : (i : ℕ) → length old ≤ i → i < total_len → get_elem? new i ≡ some 0

opened : World → List ℕ → World
opened w bytes = record w { bytes = bytes; descriptors = w.descriptors + 1 }

written : ℕ → List ℕ → World → List ℕ → World
written offset content w bytes = record w { bytes = write_at bytes offset content }

-- Where the file is long enough and every call but `msync` succeeds, the write returns -1 and
-- leaves its descriptor open.
pub file_mmap_write-msync :
    (sys : SystemCalls) (offset : ℕ) (content : List ℕ) (w : World)
    → sys.open_file ≡ true
    → sys.fstat ≡ true
    → offset + length content ≤ length w.bytes
    → sys.mmap ≡ true
    → sys.msync ≡ false
    → let r = file_mmap_write sys offset content w in
      (r.0 ≡ false) × (r.1.descriptors ≡ w.descriptors + 1)
unfolding file_mmap_write extend_file write_mapped
file_mmap_write-msync sys offset content w o f long m y = (ground arith, ground arith)
