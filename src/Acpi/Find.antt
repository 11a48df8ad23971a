-- ===== src/Acpi/Find.antt =====
-- HelloWorldPkg/HelloWorld.c: `GetACPITable`, the search for a table by its signature through the
-- system's configuration tables, against the list of all the tables in the order of the search.
pub mod Order
use oshome_work.Acpi.{header_size}
use oshome_work.Base.{
  ℕ, zero, suc, ◌+◌, ◌-◌, ◌/◌, ◌%◌, ◌^◌, Bool, not, ◌&&◌, ◌||◌, Option, none, some, List, [], ◌∷◌,
  ◌==◌, if◌then◌else◌, or_else,
}

-- What the search reads of an `EFI_ACPI_DESCRIPTION_HEADER`; the last two are those of the FADT.
pub record Header : Type 0 where
  pub signature : ℕ
  pub dsdt : ℕ
  pub firmware_ctrl : ℕ

-- `EFI_CONFIGURATION_TABLE`, with the `XsdtAddress` of the root that it points to.
pub record ConfigurationTable : Type 0 where
  pub vendor_guid : ℕ
  pub xsdt_address : ℕ

-- The system table, the memory it points into, and the library's `CompareGuid`.
pub record Firmware : Type 0 where
  pub compare_guid : ℕ → ℕ → Bool
  pub acpi_table_guid : ℕ
  pub acpi_20_table_guid : ℕ
  pub configuration : List ConfigurationTable
  pub header : ℕ → Header
  pub xsdt_length : ℕ → ℕ
  pub xsdt_entry : (xsdt j : ℕ) → ℕ

-- `EFI_ACPI_2_0_FIXED_ACPI_DESCRIPTION_TABLE_SIGNATURE`, the text FACP.
abbrev pub fadt_signature : ℕ
fadt_signature = 1346584902

-- `N`: the length is a UINT32, the subtraction one of UINTN.
unfoldable pub entry_count : Firmware → ℕ → ℕ
entry_count fw xsdt = (fw.xsdt_length xsdt + 2 ^ 64 - header_size) % 2 ^ 64 / 8

-- A table of the FADT, if its address is not 0 and its signature is the one looked for.
unfoldable pub check_sub_table : Firmware → ℕ → ℕ → Option ℕ
check_sub_table fw signature p =
    if not (p == 0) && ((fw.header p).signature == signature) then some p else none

-- The body of the loop over the entries, `none` where it goes on.
unfoldable pub check_entry : Firmware → ℕ → ℕ → Option ℕ
unfolding check_sub_table
check_entry fw signature p =
    if p == 0
    then none
    else (let h = fw.header p in
        if h.signature == signature
        then some p
        else (if h.signature == fadt_signature
            then or_else (check_sub_table fw signature h.dsdt)
                (check_sub_table fw signature h.firmware_ctrl)
            else none))

-- The loop over the entries of the XSDT, for the entries that are left.
unfoldable pub scan_xsdt : Firmware → (signature xsdt left j : ℕ) → Option ℕ
unfolding check_entry
scan_xsdt fw signature xsdt zero j = none
scan_xsdt fw signature xsdt (suc left) j =
    or_else (check_entry fw signature (fw.xsdt_entry xsdt j))
      (scan_xsdt fw signature xsdt left (j + 1))

abbrev pub is_acpi : Firmware → ConfigurationTable → Bool
is_acpi fw c =
    fw.compare_guid c.vendor_guid fw.acpi_table_guid
    || fw.compare_guid c.vendor_guid fw.acpi_20_table_guid

-- The loop over the configuration tables.
unfoldable pub scan_configuration : Firmware → ℕ → List ConfigurationTable → Option ℕ
unfolding scan_xsdt entry_count
scan_configuration fw signature [] = none
scan_configuration fw signature (c ∷ cs) =
    let rest = scan_configuration fw signature cs in
    if is_acpi fw c
    then or_else (scan_xsdt fw signature c.xsdt_address (entry_count fw c.xsdt_address) 0) rest
    else rest

-- `GetACPITable`: the address of the table, `none` for NULL.
unfoldable pub get_acpi_table : Firmware → ℕ → Option ℕ
unfolding scan_configuration
get_acpi_table fw signature = scan_configuration fw signature fw.configuration
