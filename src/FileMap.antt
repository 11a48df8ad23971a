-- ===== src/FileMap.antt =====
-- memctrl/mmap/impl.c: `file_mmap_write`, which writes a text into a file through a shared mapping.
-- What the system calls answer is a parameter; the offset and the length do not
-- overflow `off_t`.
pub mod Remap
pub mod Write
mod Tests
use oshome_work.Base.{
  ℕ, ◌+◌, ◌-◌, ◌≤◌, ◌<◌, ◌≡◌, Bool, true, false, not, Option, none, some, List, [], ◌∷◌, ltb,
  if◌then◌else◌, length, get_elem?, set,
}

-- A process and the file: its bytes, the open descriptors and the mappings of the process.
pub record World : Type 0 where
  pub bytes : List ℕ
  pub descriptors : ℕ
  pub mappings : ℕ

-- The system calls: whether each succeeds, and `ftruncate` to a longer length, which fills with 0.
pub record SystemCalls : Type 0 where
  pub open_file : Bool
  pub fstat : Bool
  pub ftruncate : ℕ → List ℕ → Option (List ℕ)
  pub mmap : Bool
  pub msync : Bool
  pub extended :
      (n : ℕ) (old new : List ℕ)
      → length old < n
      → ftruncate n old ≡ some new
      → (length new ≡ n)
        × ((i : ℕ) → i < length old → get_elem? new i ≡ get_elem? old i)
        × ((i : ℕ) → length old ≤ i → i < n → get_elem? new i ≡ some 0)

-- `memcpy` to an offset of the mapping, which is the file.
abbrev pub write_at : List ℕ → ℕ → List ℕ → List ℕ
write_at bytes offset [] = bytes
write_at bytes offset (c ∷ content) = write_at (set bytes offset c) (offset + 1) content

-- From `mmap` on: `true` for 0, `false` for -1.
unfoldable pub write_mapped : SystemCalls → ℕ → List ℕ → World → Bool × World
write_mapped sys offset content w =
    if not sys.mmap
    then (false, record w { descriptors = w.descriptors - 1 })
    else (let t = record w { bytes = write_at w.bytes offset content; mappings = w.mappings + 1 } in
        let unmapped = record t { mappings = t.mappings - 1 } in
        if not sys.msync
        then (false, unmapped)
        else (true, record unmapped { descriptors = unmapped.descriptors - 1 }))

-- The file is extended where it is too short.
unfoldable pub extend_file : SystemCalls → ℕ → World → Bool × World
extend_file sys total_len w =
    if ltb (length w.bytes) total_len
    then elim (sys.ftruncate total_len w.bytes) [
      | none ↦ (false, record w { descriptors = w.descriptors - 1 })
      | some bytes ↦ (true, record w { bytes = bytes })
    ]
    else (true, w)

-- `file_mmap_write`.
unfoldable pub file_mmap_write : SystemCalls → ℕ → List ℕ → World → Bool × World
unfolding extend_file write_mapped
file_mmap_write sys offset content w =
    if not sys.open_file
    then (false, w)
    else (let opened = record w { descriptors = w.descriptors + 1 } in
        if not sys.fstat
        then (false, record opened { descriptors = opened.descriptors - 1 })
        else (let (extended, t) = extend_file sys (offset + length content) opened in
            if extended then write_mapped sys offset content t else (false, t)))
