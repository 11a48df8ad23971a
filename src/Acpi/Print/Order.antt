-- ===== src/Acpi/Print/Order.antt =====
-- HelloWorldPkg/HelloWorld.c: the tables that are printed are those that `GetACPITable` searches.
use oshome_work.Base.{
  ℕ, zero, suc, ◌+◌, ◌*◌, ◌≡◌, refl, sym, ap, ◌∙◌, inl, inr, List, [], ◌∷◌, ◌++◌, arith, ◌==◌,
  Bool-cases, first,
}
use oshome_work.Acpi.Find.{entry_count, is_acpi, get_acpi_table}
use oshome_work.Acpi.Find.Order.{
  get_acpi_table-first, acpi_tables, non_null, xsdt_tables, entry_tables,
}
use oshome_work.Acpi.Print.{
  print_modified, print_found_table, print_xsdt, print_rsdp, header_text, print_title, xsdt_text,
  root_text, print_found, print_entries, Text, print_all_acpi_tables, print_configuration,
  header_at, VendorEntry, print_entry, print_acpi_header, print_sub_table, firmware_at,
  configuration_at, System, le32, le64,
}

-- The addresses of the printed headers.
pub printed : List Text → List ℕ
printed [] = []
printed (header_text h ∷ ts) = h.address ∷ printed ts
printed (print_title ∷ ts) = printed ts
printed (print_found_table ∷ ts) = printed ts
printed (print_modified ∷ ts) = printed ts
printed (print_found i ∷ ts) = printed ts
printed (root_text t r x ∷ ts) = printed ts
printed (xsdt_text t ∷ ts) = printed ts

printed-append : (xs ys : List Text) → printed (xs ++ ys) ≡ printed xs ++ printed ys
unfolding printed
printed-append [] ys = refl
printed-append (header_text h ∷ ts) ys = rw (printed-append ts ys)
printed-append (print_title ∷ ts) ys = printed-append ts ys
printed-append (print_found_table ∷ ts) ys = printed-append ts ys
printed-append (print_modified ∷ ts) ys = printed-append ts ys
printed-append (print_found i ∷ ts) ys = printed-append ts ys
printed-append (root_text t r x ∷ ts) ys = printed-append ts ys
printed-append (xsdt_text t ∷ ts) ys = printed-append ts ys

module _ (sys : System) (tables : ℕ → List ℕ) where
  printed-print_entry :
      (p : ℕ) → printed (print_entry tables p) ≡ entry_tables (firmware_at sys tables) p
  unfolding printed print_entry print_sub_table print_acpi_header entry_tables non_null firmware_at
      header_at
  printed-print_entry p = ground arith

  printed-print_entries :
      (p left j : ℕ)
      → printed (print_entries tables p left j) ≡ xsdt_tables (firmware_at sys tables) p left j
  unfolding print_entries xsdt_tables printed firmware_at
  printed-print_entries p zero j = refl
  printed-print_entries p (suc left) j =
      let q = le64 (tables p) (36 + 8 * j) in
      printed-append (print_entry tables q) (print_entries tables p left (j + 1))
      ∙ rw (printed-print_entry q, printed-print_entries p left (j + 1)) refl

  printed-print_configuration :
      (i : ℕ) (es : List VendorEntry)
      → printed (print_configuration sys tables i es)
        ≡ acpi_tables (firmware_at sys tables) (configuration_at tables es)
  unfolding print_configuration acpi_tables configuration_at printed print_xsdt print_rsdp
      firmware_at
  printed-print_configuration i [] = refl
  printed-print_configuration i (e ∷ es) =
      let p = le64 (tables e.vendor_table) 24 in
      let n = entry_count (firmware_at sys tables) p in
      elim (Bool-cases (
        is_acpi (firmware_at sys tables)
          (record { vendor_guid = e.vendor_guid; xsdt_address = p }))) [
            | inl b ↦ rw (b) (
                printed-append (print_entries tables p n 0)
                  (print_configuration sys tables (i + 1) es)
                ∙ rw (printed-print_entries p n 0, printed-print_configuration (i + 1) es) refl)
            | inr b ↦ rw (b) (printed-print_configuration (i + 1) es)
          ]

-- `GetACPITable` gives the first table with the signature among those whose headers
-- `PrintAllACPITables` prints, in the order of the printing, and NULL exactly where none of them
-- has it.
pub print_all_acpi_tables-first :
    (sys : System) (tables : ℕ → List ℕ) (signature : ℕ)
    → get_acpi_table (firmware_at sys tables) signature
      ≡ first (λ p. le32 (tables p) 0 == signature) (printed (print_all_acpi_tables sys tables))
unfolding print_all_acpi_tables printed firmware_at header_at
print_all_acpi_tables-first sys tables signature =
    get_acpi_table-first (firmware_at sys tables) signature
    ∙ ap (first (λ p. le32 (tables p) 0 == signature))
        (sym (printed-print_configuration sys tables 0 sys.configuration))
