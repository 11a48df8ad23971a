-- ===== src/Acpi/Main/Branded.antt =====
-- HelloWorldPkg/HelloWorld.c: what `UefiMain` does to the APIC table.
use oshome_work.Base.{
  ℕ, ◌≤◌, ◌≡◌, refl, ap, ◌∙◌, inl, inr, true, Option, none, some, List, ◌++◌, arith, ◌==◌,
  Option-cases, length,
}
use oshome_work.Acpi.Main.Letters.{
  table_length-renamed, oem_id-modified, byte-modified, renamed-IsModified,
}
use oshome_work.Acpi.Main.Kept.{firmware_at-kept, IsRebranded}
use oshome_work.Base.Run.{Returns}
use oshome_work.Acpi.Find.{get_acpi_table}
use oshome_work.Acpi.{header_size}
use oshome_work.Acpi.Modify.{BaseMemory, table_length}
use oshome_work.Acpi.Print.{print_all_acpi_tables, firmware_at}
use oshome_work.Acpi.Main.{
  apic_found, pool_given, apic_signature, uefi_main, modify_at, Memory, rebrand, System, ok,
}

-- What `UefiMain` does to a memory, without an APIC table and with one.
pub Rebranded : Option ℕ → Memory → Memory → Type 0
Rebranded none m n = n ≡ m
Rebranded (some p) m n = IsRebranded p m n × (n.pools ≡ m.pools)

rebrand-Rebranded :
    (lib : BaseMemory) (p : ℕ) (pool : List ℕ) (m : Memory)
    → header_size ≤ table_length (m.tables p)
    → table_length (m.tables p) ≤ length (m.tables p)
    → table_length (m.tables p) ≤ length pool
    → Rebranded (some p) m (rebrand lib p pool m).1
unfolding Rebranded rebrand modify_at table_length
rebrand-Rebranded lib p pool m whole fits room =
    let t = m.tables p in
    let k = renamed-IsModified lib t pool whole fits room in
    let z : (p == p) ≡ true = ground arith in
    (
      record {
        oem_id = rw (z) (oem_id-modified lib t pool whole fits room);
        sum = rw (z) k.sum;
        size = rw (z) (k.size ∙ table_length-renamed lib t pool whole fits room);
        same = λ i h. rw (z) (
            byte-modified lib t pool whole fits room i (λ e. ground (arith, h, e))
            ∙ ground (arith, h));
        elsewhere = λ q ne. ground (arith, ne);
      },
      ground arith,
    )

module _ (sys : System) (lib : BaseMemory) (allocate_pool : ℕ → Option (List ℕ)) (m : Memory) where
  uefi_main-none :
      get_acpi_table (firmware_at sys m.tables) apic_signature ≡ none
      → uefi_main sys lib allocate_pool m ≡ ok (print_all_acpi_tables sys m.tables, m)
  unfolding uefi_main apic_found
  uefi_main-none e = ap (apic_found lib allocate_pool m (print_all_acpi_tables sys m.tables)) e

  uefi_main-some :
      (p : ℕ) (pool : List ℕ)
      → get_acpi_table (firmware_at sys m.tables) apic_signature ≡ some p
      → allocate_pool (table_length (m.tables p)) ≡ some pool
      → uefi_main sys lib allocate_pool m
        ≡ ok (
          print_all_acpi_tables sys m.tables ++ (rebrand lib p pool m).0,
          (rebrand lib p pool m).1,
        )
  unfolding uefi_main apic_found pool_given table_length
  uefi_main-some p pool e given =
      let all = print_all_acpi_tables sys m.tables in
      ap (apic_found lib allocate_pool m all) e ∙ ap (pool_given lib p m all) given

-- Where `AllocatePool` gives buffers that are as long as asked for and an APIC table has a whole
-- header and lies in its memory, `UefiMain` ends without a fault: with no APIC table nothing
-- changes; otherwise the table that the search finds has the OEM id ABCDEF and a checksum that
-- makes it sum to 0, each other byte of it and all other tables are as before, the buffer is given
-- back, and the search and the printing of the tables go the same way afterwards.
pub uefi_main-Rebranded :
    (sys : System) (lib : BaseMemory) (allocate_pool : ℕ → Option (List ℕ)) (m : Memory)
    → ((size : ℕ) → (pool : List ℕ) × (allocate_pool size ≡ some pool) × (size ≤ length pool))
    → ((p : ℕ)
        → get_acpi_table (firmware_at sys m.tables) apic_signature ≡ some p
        → (header_size ≤ table_length (m.tables p))
          × (table_length (m.tables p) ≤ length (m.tables p)))
    → Returns (uefi_main sys lib allocate_pool m) (λ r.
      Rebranded (get_acpi_table (firmware_at sys m.tables) apic_signature) m r.1
      × (firmware_at sys r.1.tables ≡ firmware_at sys m.tables))
unfolding Rebranded
uefi_main-Rebranded sys lib allocate_pool m gives whole =
    elim (Option-cases (get_acpi_table (firmware_at sys m.tables) apic_signature)) [
      | inl e ↦ (_, uefi_main-none sys lib allocate_pool m e, (rw (e) refl, refl))
      | inr (p, e) ↦
          let (l, fits) = whole p e in
          let (pool, given, room) = gives (table_length (m.tables p)) in
          let r = rebrand-Rebranded lib p pool m l fits room in
          (
            _,
            uefi_main-some sys lib allocate_pool m p pool e given,
            (rw (e) r, firmware_at-kept p m (rebrand lib p pool m).1 r.0 sys),
          )
    ]
