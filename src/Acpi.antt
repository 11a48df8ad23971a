-- ===== src/Acpi.antt =====
-- HardwareInfoAppPkg/HardwareInfoApp.c and HelloWorldPkg/HelloWorld.c: the firmware programs that
-- install, find and change ACPI tables. A table is its bytes; an access outside them is `none`.
pub mod Checksum
pub mod Install
pub mod Main
pub mod Modify
pub mod Print
pub mod Find
mod Tests
use oshome_work.Base.{
  ℕ, zero, suc, ◌+◌, ◌-◌, ◌%◌, Option, none, some, List, ltb, if◌then◌else◌, length, get_elem?, set,
}

-- The sum of `AcpiCalculateChecksum`, a loop from `index` for the bytes that are left.
unfoldable pub sum_bytes : List ℕ → (left index sum : ℕ) → Option ℕ
sum_bytes buffer zero index sum = some sum
sum_bytes buffer (suc left) index sum = elim (get_elem? buffer index) [
  | none ↦ none
  | some b ↦ sum_bytes buffer left (index + 1) ((sum + b) % 256)
]

-- `AcpiCalculateChecksum`
unfoldable pub acpi_calculate_checksum : List ℕ → (size offset : ℕ) → Option (List ℕ)
unfolding sum_bytes
acpi_calculate_checksum buffer size offset =
    let zeroed = set buffer offset 0 in
    if ltb offset (length buffer)
    then elim (sum_bytes zeroed size 0 0) [
      | none ↦ none
      | some sum ↦ some (set zeroed offset ((256 - sum) % 256))
    ]
    else none

abbrev pub checksum_offset : ℕ
checksum_offset = 9

abbrev pub header_size : ℕ
header_size = 36
