-- ===== src/Acpi/Main/Letters.antt =====
-- HelloWorldPkg/HelloWorld.c: the bytes of a table whose copy gets another OEM id and is put in its
-- place.
use oshome_work.Base.{
  ℕ, zero, suc, ◌+◌, ◌≤◌, ◌<◌, ◌≡◌, refl, ap, ◌∙◌, ◌≢◌, inl, inr, ◌&&◌, List, [], ◌∷◌, arith, ltb,
  leb, ◌==◌, if◌then◌else◌, Bool-cases, length, set, length-set,
}
use oshome_work.Acpi.Modify.{
  modify_acpi_table, modify_acpi_table-IsModified, IsModified, BaseMemory, table_length,
}
use oshome_work.Acpi.Main.{with_oem_id}
use oshome_work.Acpi.Checksum.{byte}
use oshome_work.Acpi.Print.{bytes}
use oshome_work.Acpi.{header_size, checksum_offset}

byte-set :
    (t : List ℕ) (k v i : ℕ) → k < length t → byte (set t k v) i ≡ (if k == i then v else byte t i)
byte-set [] k v i h = absurd (omega arith)
byte-set (x ∷ xs) zero v zero h = refl
byte-set (x ∷ xs) zero v (suc i) h = ground arith
byte-set (x ∷ xs) (suc k) v zero h = ground arith
byte-set (x ∷ xs) (suc k) v (suc i) h = ground (arith, byte-set xs k v i (omega arith))

-- The letters are A to F.
byte-with_oem_id :
    (t : List ℕ) (i : ℕ)
    → 16 ≤ length t
    → byte (with_oem_id t) i ≡ (if leb 10 i && leb i 15 then 55 + i else byte t i)
unfolding with_oem_id
byte-with_oem_id t i h =
    let a = set t 10 65 in
    let b = set a 11 66 in
    let c = set b 12 67 in
    let d = set c 13 68 in
    let e = set d 14 69 in
    let la = length-set t 10 65 in
    let lb = length-set a 11 66 in
    let lc = length-set b 12 67 in
    let ld = length-set c 13 68 in
    let le = length-set d 14 69 in
    ground (
      arith,
      byte-set t 10 65 i (omega arith),
      byte-set a 11 66 i (omega (arith, la)),
      byte-set b 12 67 i (omega (arith, la, lb)),
      byte-set c 13 68 i (omega (arith, la, lb, lc)),
      byte-set d 14 69 i (omega (arith, la, lb, lc, ld)),
      byte-set e 15 70 i (omega (arith, la, lb, lc, ld, le)),
    )

length-with_oem_id : (t : List ℕ) → length (with_oem_id t) ≡ length t
unfolding with_oem_id
length-with_oem_id t =
    let a = set t 10 65 in
    let b = set a 11 66 in
    let c = set b 12 67 in
    let d = set c 13 68 in
    let e = set d 14 69 in
    omega (
      arith,
      length-set t 10 65,
      length-set a 11 66,
      length-set b 12 67,
      length-set c 13 68,
      length-set d 14 69,
      length-set e 15 70,
    )

module _ (lib : BaseMemory) (t pool : List ℕ) (whole : header_size ≤ table_length t)
    (fits : table_length t ≤ length t) (room : table_length t ≤ length pool) where
  abbrev pub renamed : List ℕ
  renamed = with_oem_id (lib.copy_mem pool t (table_length t))

  byte-renamed :
      (i : ℕ)
      → i < table_length t
      → byte renamed i ≡ (if leb 10 i && leb i 15 then 55 + i else byte t i)
  byte-renamed i h =
      let (l, same, behind) = lib.copied pool t (table_length t) fits room in
      byte-with_oem_id (lib.copy_mem pool t (table_length t)) i (omega (arith, l))
      ∙ ap (λ b. if leb 10 i && leb i 15 then 55 + i else b) (same i h)

  length-renamed : length renamed ≡ length pool
  length-renamed =
      let (l, same, behind) = lib.copied pool t (table_length t) fits room in
      length-with_oem_id (lib.copy_mem pool t (table_length t)) ∙ l

  pub table_length-renamed : table_length renamed ≡ table_length t
  unfolding table_length
  table_length-renamed = omega (
    arith,
    byte-renamed 4 (omega arith),
    byte-renamed 5 (omega arith),
    byte-renamed 6 (omega arith),
    byte-renamed 7 (omega arith),
  )

  pub renamed-IsModified : IsModified t renamed (modify_acpi_table lib t renamed)
  renamed-IsModified =
      let e = table_length-renamed in
      modify_acpi_table-IsModified lib t renamed (omega arith) (omega (arith, length-renamed))
        (omega arith)

  -- Each byte but for the checksum.
  pub byte-modified :
      (i : ℕ)
      → checksum_offset ≢ i
      → byte (modify_acpi_table lib t renamed) i
        ≡ (if leb 10 i && leb i 15 then 55 + i else byte t i)
  byte-modified i ne =
      let k = renamed-IsModified in
      let e = table_length-renamed in
      elim (Bool-cases (ltb i (table_length t))) [
        | inl h ↦
            let l : i < table_length t = ground (arith, h) in
            k.table i (omega arith) ne ∙ byte-renamed i l
        | inr h ↦
            let l : table_length t ≤ i = ground (arith, h) in
            k.behind i (omega arith) ∙ ground arith
      ]

  pub oem_id-modified :
      bytes (modify_acpi_table lib t renamed) 6 10 ≡ 65 ∷ 66 ∷ 67 ∷ 68 ∷ 69 ∷ 70 ∷ []
  unfolding bytes
  oem_id-modified =
      rw
        (
          byte-modified 10 (λ e. omega arith),
          byte-modified 11 (λ e. omega arith),
          byte-modified 12 (λ e. omega arith),
          byte-modified 13 (λ e. omega arith),
          byte-modified 14 (λ e. omega arith),
          byte-modified 15 (λ e. omega arith),
        )
        refl
