-- ===== src/Acpi/Print.antt =====
-- HelloWorldPkg/HelloWorld.c: `PrintAllACPITables` and `PrintAcpiHeader`, as the list of what they
-- print, over the bytes of the tables. `tables` gives the memory from an address on, far enough for
-- the table that stands there; different addresses are different memory.
pub mod Order
use oshome_work.Base.{
  ℕ, zero, suc, ◌+◌, ◌*◌, ◌/◌, ◌%◌, Bool, ◌||◌, List, [], ◌∷◌, ◌++◌, ◌==◌, if◌then◌else◌,
}
use oshome_work.Acpi.Checksum.{byte}
use oshome_work.Acpi.Find.{Header, Firmware, ConfigurationTable, entry_count, fadt_signature}

-- Little-endian fields of 4 and of 8 bytes.
abbrev pub le32 : List ℕ → ℕ → ℕ
le32 t i = byte t i + 256 * byte t (i + 1) + 65536 * byte t (i + 2) + 16777216 * byte t (i + 3)

abbrev pub le64 : List ℕ → ℕ → ℕ
le64 t i = le32 t i + 4294967296 * le32 t (i + 4)

-- `(Signature >> (j * 8)) & 0xff` for each `j`, and the bytes of an array.
unfoldable pub characters : (left signature : ℕ) → List ℕ
characters zero signature = []
characters (suc left) signature = signature % 256 ∷ characters left (signature / 256)

unfoldable pub bytes : List ℕ → (left i : ℕ) → List ℕ
bytes t zero i = []
bytes t (suc left) i = byte t i ∷ bytes t left (i + 1)

-- A printed header, and the printed parts of the root and of the XSDT.
pub record HeaderText : Type 0 where
  pub name : List ℕ
  pub address : ℕ
  pub len : ℕ
  pub revision : ℕ
  pub checksum : ℕ
  pub oem_id : List ℕ
  pub oem_table_id : ℕ
  pub oem_revision : ℕ
  pub creator_id : ℕ
  pub creator_revision : ℕ

pub record TableText : Type 0 where
  pub address : ℕ
  pub len : ℕ
  pub signature : List ℕ
  pub oem_id : List ℕ
  pub checksum : ℕ

pub data Text : Type 0 where
  print_title : Text
  print_found : (index : ℕ) → Text
  root_text : (table : TableText) (rsdt_address xsdt_address : ℕ) → Text
  xsdt_text : (table : TableText) → Text
  print_found_table : Text
  print_modified : Text
  header_text : (text : HeaderText) → Text

-- `EFI_CONFIGURATION_TABLE` and the system table, but for the memory.
pub record VendorEntry : Type 0 where
  pub vendor_guid : ℕ
  pub vendor_table : ℕ

pub record System : Type 0 where
  pub compare_guid : ℕ → ℕ → Bool
  pub acpi_table_guid : ℕ
  pub acpi_20_table_guid : ℕ
  pub configuration : List VendorEntry

-- What the search and the loops read of the memory.
unfoldable pub header_at : (ℕ → List ℕ) → ℕ → Header
header_at tables p = record {
  signature = le32 (tables p) 0;
  dsdt = le32 (tables p) 40;
  firmware_ctrl = le32 (tables p) 36;
}

unfoldable pub configuration_at : (ℕ → List ℕ) → List VendorEntry → List ConfigurationTable
configuration_at tables [] = []
configuration_at tables (e ∷ es) =
    record { vendor_guid = e.vendor_guid; xsdt_address = le64 (tables e.vendor_table) 24 }
    ∷ configuration_at tables es

unfoldable pub firmware_at : System → (ℕ → List ℕ) → Firmware
unfolding header_at configuration_at
firmware_at sys tables = record {
  compare_guid = sys.compare_guid;
  acpi_table_guid = sys.acpi_table_guid;
  acpi_20_table_guid = sys.acpi_20_table_guid;
  configuration = configuration_at tables sys.configuration;
  header = header_at tables;
  xsdt_length = λ x. le32 (tables x) 4;
  xsdt_entry = λ x j. le64 (tables x) (36 + 8 * j);
}

-- `PrintAcpiHeader`
unfoldable pub print_acpi_header : (ℕ → List ℕ) → ℕ → Text
unfolding characters bytes
print_acpi_header tables p = header_text (record {
  name = characters 4 (le32 (tables p) 0);
  address = p;
  len = le32 (tables p) 4;
  revision = byte (tables p) 8;
  checksum = byte (tables p) 9;
  oem_id = bytes (tables p) 6 10;
  oem_table_id = le64 (tables p) 16;
  oem_revision = le32 (tables p) 24;
  creator_id = le32 (tables p) 28;
  creator_revision = le32 (tables p) 32;
})

unfoldable pub print_rsdp : (ℕ → List ℕ) → ℕ → Text
unfolding characters bytes
print_rsdp tables root =
    root_text
      (record {
        address = root;
        len = le32 (tables root) 20;
        signature = characters 8 (le64 (tables root) 0);
        oem_id = bytes (tables root) 6 9;
        checksum = byte (tables root) 8;
      })
      (le32 (tables root) 16) (le64 (tables root) 24)

unfoldable pub print_xsdt : (ℕ → List ℕ) → ℕ → Text
unfolding characters bytes
print_xsdt tables p = xsdt_text (record {
  address = p;
  len = le32 (tables p) 4;
  signature = characters 4 (le32 (tables p) 0);
  oem_id = bytes (tables p) 6 10;
  checksum = byte (tables p) 9;
})

-- A table of the FADT, and the body of the loop over the entries.
unfoldable pub print_sub_table : (ℕ → List ℕ) → ℕ → List Text
unfolding print_acpi_header
print_sub_table tables p = if p == 0 then [] else print_acpi_header tables p ∷ []

unfoldable pub print_entry : (ℕ → List ℕ) → ℕ → List Text
unfolding print_sub_table print_acpi_header header_at
print_entry tables p =
    if p == 0
    then []
    else (print_acpi_header tables p
        ∷ (if (header_at tables p).signature == fadt_signature
            then print_sub_table tables (header_at tables p).dsdt
              ++ print_sub_table tables (header_at tables p).firmware_ctrl
            else []))

-- The loop over the entries of the XSDT, for the entries that are left.
unfoldable pub print_entries : (ℕ → List ℕ) → (xsdt left j : ℕ) → List Text
unfolding print_entry
print_entries tables xsdt zero j = []
print_entries tables xsdt (suc left) j =
    print_entry tables (le64 (tables xsdt) (36 + 8 * j)) ++ print_entries tables xsdt left (j + 1)

-- The loop over the configuration tables, from the one at `i` on.
unfoldable pub print_configuration : System → (ℕ → List ℕ) → (i : ℕ) → List VendorEntry → List Text
unfolding print_entries print_xsdt print_rsdp firmware_at entry_count
print_configuration sys tables i [] = []
print_configuration sys tables i (e ∷ es) =
    let rest = print_configuration sys tables (i + 1) es in
    let p = le64 (tables e.vendor_table) 24 in
    if sys.compare_guid e.vendor_guid sys.acpi_table_guid
      || sys.compare_guid e.vendor_guid sys.acpi_20_table_guid
    then (print_found i
        ∷ print_rsdp tables e.vendor_table
        ∷ print_xsdt tables p
        ∷ print_entries tables p (entry_count (firmware_at sys tables) p) 0)
      ++ rest
    else rest

-- `PrintAllACPITables`
unfoldable pub print_all_acpi_tables : System → (ℕ → List ℕ) → List Text
unfolding print_configuration
print_all_acpi_tables sys tables = print_title ∷ print_configuration sys tables 0 sys.configuration
