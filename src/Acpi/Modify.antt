-- ===== src/Acpi/Modify.antt =====
-- HelloWorldPkg/HelloWorld.c: `ModifyACPITable`, which puts another table in the
-- place of one. Of the firmware library, `CopyMem` and `CalculateCheckSum8` are parameters with what
-- their documentation says.
use oshome_work.Base.{
  ℕ, ◌+◌, ◌*◌, ◌%◌, ◌≤◌, ◌<◌, ◌≡◌, sym, ap, ◌∙◌, ◌≢◌, List, arith, length, set, length-set, total,
  total_change,
}
use oshome_work.Acpi.{checksum_offset, header_size}
use oshome_work.Acpi.Checksum.{byte-set_self, byte, byte-set_ne}

-- `CopyMem` from the start of one buffer to the start of another, and `CalculateCheckSum8`, the two's
-- complement of the sum of the bytes.
pub record BaseMemory : Type 0 where
  pub copy_mem : (destination source : List ℕ) (count : ℕ) → List ℕ
  pub calculate_check_sum8 : (buffer : List ℕ) (count : ℕ) → ℕ
  pub copied :
      (destination source : List ℕ) (count : ℕ)
      → count ≤ length source
      → count ≤ length destination
      → (length (copy_mem destination source count) ≡ length destination)
        × ((i : ℕ) → i < count → byte (copy_mem destination source count) i ≡ byte source i)
        × ((i : ℕ) → count ≤ i → byte (copy_mem destination source count) i ≡ byte destination i)
  pub complement :
      (buffer : List ℕ) (count : ℕ)
      → count ≤ length buffer
      → (total count (byte buffer) + calculate_check_sum8 buffer count) % 256 ≡ 0

-- The field `Length` of the header.
unfoldable pub table_length : List ℕ → ℕ
table_length table =
    byte table 4 + 256 * byte table 5 + 65536 * byte table 6 + 16777216 * byte table 7

-- `ModifyACPITable`: `entry` is the memory from the table on.
unfoldable pub modify_acpi_table : BaseMemory → (entry new_table : List ℕ) → List ℕ
unfolding table_length
modify_acpi_table lib entry new_table =
    let copied = lib.copy_mem entry new_table (table_length new_table) in
    let zeroed = set copied checksum_offset 0 in
    set zeroed checksum_offset (lib.calculate_check_sum8 zeroed (table_length zeroed))

-- What the memory holds afterwards.
pub record IsModified (entry new_table result : List ℕ) : Type 0 where
  pub len : length result ≡ length entry
  pub size : table_length result ≡ table_length new_table
  pub sum : total (table_length result) (byte result) % 256 ≡ 0
  pub table :
      (i : ℕ) → i < table_length new_table → checksum_offset ≢ i → byte result i ≡ byte new_table i
  pub behind : (i : ℕ) → table_length new_table ≤ i → byte result i ≡ byte entry i

table_length-congr :
    (a b : List ℕ)
    → ((i : ℕ) → i < header_size → checksum_offset ≢ i → byte a i ≡ byte b i)
    → table_length a ≡ table_length b
unfolding table_length
table_length-congr a b h = omega (
  arith,
  h 4 (omega arith) (λ e. omega arith),
  h 5 (omega arith) (λ e. omega arith),
  h 6 (omega arith) (λ e. omega arith),
  h 7 (omega arith) (λ e. omega arith),
)

-- Setting the checksum adds it to a sum where it was 0.
total-set :
    (copied : List ℕ) (n c : ℕ)
    → checksum_offset < n
    → n ≤ length copied
    → total n (byte (set (set copied checksum_offset 0) checksum_offset c))
      ≡ total n (byte (set copied checksum_offset 0)) + c
total-set copied n c h fits =
    let zeroed = set copied checksum_offset 0 in
    let change =
      total_change n (byte zeroed) (byte (set zeroed checksum_offset c)) checksum_offset h
        (λ j ne. sym (byte-set_ne zeroed checksum_offset c j ne)) in
    omega (
      arith,
      change,
      byte-set_self copied checksum_offset 0 (omega arith),
      byte-set_self zeroed checksum_offset c (omega (arith, length-set copied checksum_offset 0)),
    )

-- For a new table that has a whole header, lies in its buffer and fits into the memory of the old
-- one, `ModifyACPITable` leaves the new table there, with a checksum that makes it sum to 0 and
-- otherwise unchanged, and touches no byte behind it.
pub modify_acpi_table-IsModified :
    (lib : BaseMemory) (entry new_table : List ℕ)
    → header_size ≤ table_length new_table
    → table_length new_table ≤ length new_table
    → table_length new_table ≤ length entry
    → IsModified entry new_table (modify_acpi_table lib entry new_table)
unfolding modify_acpi_table table_length
modify_acpi_table-IsModified lib entry new_table h hn he =
    let n = table_length new_table in
    let copied = lib.copy_mem entry new_table n in
    let (len, same, behind) = lib.copied entry new_table n hn he in
    let zeroed = set copied checksum_offset 0 in
    let c = lib.calculate_check_sum8 zeroed (table_length zeroed) in
    let result = set zeroed checksum_offset c in
    let far : (i : ℕ) → checksum_offset ≢ i → byte result i ≡ byte copied i = λ i ne.
      byte-set_ne zeroed checksum_offset c i ne ∙ byte-set_ne copied checksum_offset 0 i ne in
    let size_zeroed : table_length zeroed ≡ n =
      table_length-congr zeroed new_table
        (λ i p ne. byte-set_ne copied checksum_offset 0 i ne ∙ same i (omega arith)) in
    let size : table_length result ≡ n =
      table_length-congr result new_table (λ i p ne. far i ne ∙ same i (omega arith)) in
    let rest =
      lib.complement zeroed (table_length zeroed)
        (omega (arith, length-set copied checksum_offset 0)) in
    let whole = total-set copied (table_length zeroed) c (omega arith) (omega arith) in
    let summed : total (table_length zeroed) (byte result) % 256 ≡ 0 = omega (arith, whole, rest) in
    record {
      len = length-set zeroed checksum_offset c ∙ length-set copied checksum_offset 0 ∙ len;
      size = size;
      sum = ap (λ k. total k (byte result) % 256) (size ∙ sym size_zeroed) ∙ summed;
      table = λ i p ne. far i ne ∙ same i p;
      behind = λ i p. far i (λ e. omega arith) ∙ behind i p;
    }
