-- ===== src/Acpi/Main/Kept.antt =====
-- HelloWorldPkg/HelloWorld.c: another OEM id does not change what the search and the printing read.
use oshome_work.Base.{
  ℕ, ◌+◌, ◌*◌, ◌%◌, ◌≤◌, ◌<◌, ◌≡◌, refl, ap, fun_ext, subst, ◌≢◌, ◌⊎◌, inl, inr, List, [], ◌∷◌,
  arith, ◌==◌, Bool-cases, total,
}
use oshome_work.Acpi.Modify.{table_length}
use oshome_work.Acpi.Main.{Memory}
use oshome_work.Acpi.Checksum.{byte}
use oshome_work.Acpi.Print.{bytes, System, le32, le64}
use oshome_work.Acpi.Print.{configuration_at, header_at, VendorEntry, firmware_at}

-- The OEM id of a table, and all else but for the checksum as it was.
pub record IsRebranded (p : ℕ) (m n : Memory) : Type 0 where
  pub oem_id : bytes (n.tables p) 6 10 ≡ 65 ∷ 66 ∷ 67 ∷ 68 ∷ 69 ∷ 70 ∷ []
  pub sum : total (table_length (n.tables p)) (byte (n.tables p)) % 256 ≡ 0
  pub size : table_length (n.tables p) ≡ table_length (m.tables p)
  pub same : (i : ℕ) → (i < 9) ⊎ (16 ≤ i) → byte (n.tables p) i ≡ byte (m.tables p) i
  pub elsewhere : (q : ℕ) → p ≢ q → n.tables q ≡ m.tables q

-- What the search and the printing of the tables read stays as it was.
module _ (p : ℕ) (m n : Memory) (h : IsRebranded p m n) where
  byte-kept : (q i : ℕ) → (i < 9) ⊎ (16 ≤ i) → byte (n.tables q) i ≡ byte (m.tables q) i
  byte-kept q i k = elim (Bool-cases (p == q)) [
    | inl e ↦
        let e' : p ≡ q = ground (arith, e) in
        subst (λ q. byte (n.tables q) i ≡ byte (m.tables q) i) e' (h.same i k)
    | inr e ↦ ap (λ t. byte t i) (h.elsewhere q (λ e'. ground (arith, e, e')))
  ]

  le32-kept : (q i : ℕ) → (i + 3 < 9) ⊎ (16 ≤ i) → le32 (n.tables q) i ≡ le32 (m.tables q) i
  le32-kept q i k = omega (
    arith,
    byte-kept q i (ground (arith, k)),
    byte-kept q (i + 1) (ground (arith, k)),
    byte-kept q (i + 2) (ground (arith, k)),
    byte-kept q (i + 3) (ground (arith, k)),
  )

  le64-kept : (q i : ℕ) → 16 ≤ i → le64 (n.tables q) i ≡ le64 (m.tables q) i
  le64-kept q i k = omega (arith, le32-kept q i (inr k), le32-kept q (i + 4) (inr (omega arith)))

  configuration_at-kept :
      (es : List VendorEntry) → configuration_at n.tables es ≡ configuration_at m.tables es
  unfolding configuration_at
  configuration_at-kept [] = refl
  configuration_at-kept (e ∷ es) =
      rw (le64-kept e.vendor_table 24 (omega arith), configuration_at-kept es) refl

  header_at-kept : (q : ℕ) → header_at n.tables q ≡ header_at m.tables q
  unfolding header_at
  header_at-kept q =
      rw
        (
          le32-kept q 0 (inl (omega arith)),
          le32-kept q 36 (inr (omega arith)),
          le32-kept q 40 (inr (omega arith)),
        )
        refl

  pub firmware_at-kept : (sys : System) → firmware_at sys n.tables ≡ firmware_at sys m.tables
  unfolding firmware_at
  firmware_at-kept sys =
      let c = configuration_at-kept sys.configuration in
      let g = fun_ext header_at-kept in
      λ i. record {
        compare_guid = sys.compare_guid;
        acpi_table_guid = sys.acpi_table_guid;
        acpi_20_table_guid = sys.acpi_20_table_guid;
        configuration = c i;
        header = g i;
        xsdt_length = λ x. le32-kept x 4 (inl (omega arith)) i;
        xsdt_entry = λ x j. le64-kept x (36 + 8 * j) (omega arith) i;
      }
