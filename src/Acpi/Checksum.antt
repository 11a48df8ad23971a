-- ===== src/Acpi/Checksum.antt =====
-- HardwareInfoAppPkg/HardwareInfoApp.c: `AcpiCalculateChecksum` makes a table sum to zero.
use oshome_work.Base.{
  ℕ, zero, suc, ◌+◌, ◌-◌, ◌%◌, ◌≤◌, ◌<◌, ◌≡◌, refl, sym, ap, ◌∙◌, ◌≢◌, some, List, [], ◌∷◌, arith,
  length, get_elem?, set, get_or, length-set, get_elem?-set_ne, total, total_change, total_step,
  total-zero,
}
use oshome_work.Acpi.{acpi_calculate_checksum, sum_bytes}

-- The byte at an index, 0 where there is none.
abbrev pub byte : List ℕ → ℕ → ℕ
byte buffer i = get_or buffer i 0

get_elem?-byte :
    (buffer : List ℕ) (i : ℕ) → i < length buffer → get_elem? buffer i ≡ some (byte buffer i)
get_elem?-byte [] i h = ground arith
get_elem?-byte (x ∷ xs) zero h = refl
get_elem?-byte (x ∷ xs) (suc i) h = get_elem?-byte xs i (omega arith)

pub byte-set_ne : (buffer : List ℕ) (i v j : ℕ) → i ≢ j → byte (set buffer i v) j ≡ byte buffer j
byte-set_ne [] i v j h = refl
byte-set_ne (x ∷ xs) zero v zero h = absurd (h refl)
byte-set_ne (x ∷ xs) zero v (suc j) h = refl
byte-set_ne (x ∷ xs) (suc i) v zero h = refl
byte-set_ne (x ∷ xs) (suc i) v (suc j) h = byte-set_ne xs i v j (λ e. h (ap suc e))

pub byte-set_self : (buffer : List ℕ) (i v : ℕ) → i < length buffer → byte (set buffer i v) i ≡ v
byte-set_self [] i v h = ground arith
byte-set_self (x ∷ xs) zero v h = refl
byte-set_self (x ∷ xs) (suc i) v h = byte-set_self xs i v (omega arith)

sum_bytes-total :
    (buffer : List ℕ) (left index : ℕ)
    → index + left ≤ length buffer
    → sum_bytes buffer left index (total index (byte buffer) % 256)
      ≡ some (total (index + left) (byte buffer) % 256)
unfolding sum_bytes
sum_bytes-total buffer zero index h = ap (λ n. some (total n (byte buffer) % 256)) (omega arith)
sum_bytes-total buffer (suc left) index h =
    let e = get_elem?-byte buffer index (omega arith) in
    let next : (total index (byte buffer) % 256 + byte buffer index) % 256
        ≡ total (index + 1) (byte buffer) % 256 =
      omega (arith, total_step index (byte buffer)) in
    let one : index + 1 + left ≡ index + suc left = omega arith in
    rw (sum_bytes, e, next) (sum_bytes-total buffer left (index + 1) (omega arith) ∙ rw (one) refl)

-- The sum over a whole table.
pub sum_bytes_lem :
    (buffer : List ℕ) (size : ℕ)
    → size ≤ length buffer
    → sum_bytes buffer size 0 0 ≡ some (total size (byte buffer) % 256)
sum_bytes_lem buffer size h =
    let e : 0 ≡ total 0 (byte buffer) % 256 = omega (arith, total-zero (byte buffer)) in
    ap (sum_bytes buffer size 0) e
    ∙ sum_bytes-total buffer size 0 (omega arith)
    ∙ ap (λ n. some (total n (byte buffer) % 256)) (omega arith)

-- What a checksum must be: the bytes sum to 0 modulo 256, and only the checksum differs.
pub record IsSummed (buffer : List ℕ) (size offset : ℕ) (result : List ℕ) : Type 0 where
  pub sum : total size (byte result) % 256 ≡ 0
  pub same : (i : ℕ) → offset ≢ i → get_elem? result i ≡ get_elem? buffer i
  pub len : length result ≡ length buffer
  pub octet : byte result offset < 256

-- For a checksum field inside a table that lies in the buffer, `AcpiCalculateChecksum` stays within
-- the buffer; the bytes of the table then sum to 0 modulo 256, the field is a byte, and no other
-- byte and no length changes.
pub acpi_calculate_checksum-IsSummed :
    (buffer : List ℕ) (size offset : ℕ)
    → offset < size
    → size ≤ length buffer
    → (result : List ℕ) × (acpi_calculate_checksum buffer size offset ≡ some result)
      × IsSummed buffer size offset result
unfolding acpi_calculate_checksum
acpi_calculate_checksum-IsSummed buffer size offset h fits =
    let zeroed = set buffer offset 0 in
    let len = length-set buffer offset 0 in
    let sum = total size (byte zeroed) % 256 in
    let result = set zeroed offset ((256 - sum) % 256) in
    let len' = length-set zeroed offset ((256 - sum) % 256) in
    let zero_byte = byte-set_self buffer offset 0 (omega arith) in
    let own = byte-set_self zeroed offset ((256 - sum) % 256) (omega arith) in
    let change =
      total_change size (byte zeroed) (byte result) offset h
        (λ j ne. sym (byte-set_ne zeroed offset ((256 - sum) % 256) j ne)) in
    let whole : total size (byte result) % 256 ≡ 0 = omega arith in
    (
      result,
      ground (arith, sum_bytes_lem zeroed size (omega arith)),
      record {
        sum = whole;
        same = λ i ne. get_elem?-set_ne zeroed _ ne ∙ get_elem?-set_ne buffer _ ne;
        len = len' ∙ len;
        octet = omega arith;
      },
    )
