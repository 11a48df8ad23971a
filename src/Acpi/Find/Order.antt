-- ===== src/Acpi/Find/Order.antt =====
-- HelloWorldPkg/HelloWorld.c: `GetACPITable` gives the first table with the signature, in the order
-- of the XSDT, with the tables of a FADT right after it.
use oshome_work.Acpi.Find.{
  check_entry, fadt_signature, check_sub_table, is_acpi, scan_xsdt, get_acpi_table, Firmware,
  entry_count, ConfigurationTable, scan_configuration,
}
use oshome_work.Base.{
  ℕ, zero, suc, ◌+◌, ◌≡◌, refl, sym, inl, inr, Bool, List, [], ◌∷◌, ◌++◌, arith, ◌==◌,
  if◌then◌else◌, Bool-cases, first, first-append,
}

unfoldable pub non_null : ℕ → List ℕ
non_null p = if p == 0 then [] else p ∷ []

unfoldable pub entry_tables : Firmware → ℕ → List ℕ
entry_tables fw p =
    if p == 0
    then []
    else p
      ∷ (if (fw.header p).signature == fadt_signature
          then non_null (fw.header p).dsdt ++ non_null (fw.header p).firmware_ctrl
          else [])

unfoldable pub xsdt_tables : Firmware → (xsdt left j : ℕ) → List ℕ
xsdt_tables fw xsdt zero j = []
xsdt_tables fw xsdt (suc left) j =
    entry_tables fw (fw.xsdt_entry xsdt j) ++ xsdt_tables fw xsdt left (j + 1)

-- All the tables of the configuration, in their order.
unfoldable pub acpi_tables : Firmware → List ConfigurationTable → List ℕ
acpi_tables fw [] = []
acpi_tables fw (c ∷ cs) =
    (if is_acpi fw c then xsdt_tables fw c.xsdt_address (entry_count fw c.xsdt_address) 0 else [])
    ++ acpi_tables fw cs

has_signature : Firmware → ℕ → ℕ → Bool
has_signature fw signature p = (fw.header p).signature == signature

check_sub_table-first :
    (fw : Firmware) (s p : ℕ) → check_sub_table fw s p ≡ first (has_signature fw s) (non_null p)
unfolding check_sub_table non_null has_signature
check_sub_table-first fw s p = ground arith

check_entry-first :
    (fw : Firmware) (s p : ℕ) → check_entry fw s p ≡ first (has_signature fw s) (entry_tables fw p)
unfolding check_entry check_sub_table entry_tables non_null has_signature
check_entry-first fw s p = ground arith

scan_xsdt-first :
    (fw : Firmware) (s xsdt left j : ℕ)
    → scan_xsdt fw s xsdt left j ≡ first (has_signature fw s) (xsdt_tables fw xsdt left j)
unfolding scan_xsdt xsdt_tables
scan_xsdt-first fw s xsdt zero j = refl
scan_xsdt-first fw s xsdt (suc left) j =
    rw (check_entry-first fw s (fw.xsdt_entry xsdt j), scan_xsdt-first fw s xsdt left (j + 1))
      (sym (
        first-append (has_signature fw s) (entry_tables fw (fw.xsdt_entry xsdt j))
          (xsdt_tables fw xsdt left (j + 1))))

scan_configuration-first :
    (fw : Firmware) (s : ℕ) (cs : List ConfigurationTable)
    → scan_configuration fw s cs ≡ first (has_signature fw s) (acpi_tables fw cs)
unfolding scan_configuration acpi_tables
scan_configuration-first fw s [] = refl
scan_configuration-first fw s (c ∷ cs) = elim (Bool-cases (is_acpi fw c)) [
  | inl e ↦ ground (
    arith,
    e,
    scan_configuration-first fw s cs,
    scan_xsdt-first fw s c.xsdt_address (entry_count fw c.xsdt_address) 0,
    first-append (has_signature fw s)
        (xsdt_tables fw c.xsdt_address (entry_count fw c.xsdt_address) 0) (acpi_tables fw cs),
  )
  | inr e ↦ ground (arith, e, scan_configuration-first fw s cs)
]

-- For every signature `GetACPITable` gives the first table that has it among all the tables that
-- the configuration lists, in their order, and NULL exactly where none has it.
pub get_acpi_table-first :
    (fw : Firmware) (signature : ℕ)
    → get_acpi_table fw signature
      ≡ first (λ p. (fw.header p).signature == signature) (acpi_tables fw fw.configuration)
unfolding get_acpi_table has_signature
get_acpi_table-first fw signature = scan_configuration-first fw signature fw.configuration
