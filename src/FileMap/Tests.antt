-- ===== src/FileMap/Tests.antt =====
-- memctrl/mmap/impl.c: the theorems at a short file, with system calls that extend it by zeros.
use oshome_work.FileMap.{World}
use oshome_work.Base.{ℕ, zero, suc, List, [], ◌∷◌}

-- A file of the given length: the bytes that are there, then zeros.
pad : ℕ → List ℕ → List ℕ
pad zero old = []
pad (suc n) [] = 0 ∷ pad n []
pad (suc n) (x ∷ old) = x ∷ pad n old

abbrev world : World
world = record { bytes = 65 ∷ 66 ∷ 67 ∷ []; descriptors = 3; mappings = 20 }
