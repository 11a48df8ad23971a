-- ===== src/Acpi/Main.antt =====
-- HelloWorldPkg/HelloWorld.c: `UefiMain`, which prints all tables, puts another OEM id into the APIC
-- table and prints it again, and `ChangeACPITable`. `AllocatePool` is a parameter: the buffer that it
-- gives for a size, `none` for NULL. The code does not look at NULL.
pub mod Letters
pub mod Kept
pub mod Branded
use oshome_work.Base.{ℕ, ◌+◌, ◌-◌, Option, none, some, List, [], ◌∷◌, ◌++◌, set, update}
use oshome_work.Acpi.Find.{get_acpi_table}
use oshome_work.Acpi.Modify.{modify_acpi_table, BaseMemory}
use oshome_work.Base.Run.{Run, fault, ok, null_pointer}
use oshome_work.Acpi.Print.{
  print_modified, print_acpi_header, print_found_table, firmware_at, print_all_acpi_tables, System,
  Text, le32,
}

-- The tables, and the number of buffers that `AllocatePool` has given and `FreePool` not taken back.
pub record Memory : Type 0 where
  pub tables : ℕ → List ℕ
  pub pools : ℕ

-- `EFI_ACPI_6_0_MULTIPLE_APIC_DESCRIPTION_TABLE_SIGNATURE`, the text APIC.
abbrev pub apic_signature : ℕ
apic_signature = 1128878145

-- The six assignments to `NewTable->OemId`.
unfoldable pub with_oem_id : List ℕ → List ℕ
with_oem_id t = set (set (set (set (set (set t 10 65) 11 66) 12 67) 13 68) 14 69) 15 70

-- The table at an address is replaced by `ModifyACPITable`.
unfoldable pub modify_at : BaseMemory → ℕ → List ℕ → Memory → Memory
unfolding modify_acpi_table
modify_at lib p new_table m = record m {
  tables = update m.tables p (modify_acpi_table lib (m.tables p) new_table);
}

-- `ChangeACPITable`
unfoldable pub change_acpi_table : System → BaseMemory → ℕ → List ℕ → Memory → Memory
unfolding modify_at
change_acpi_table sys lib signature new_table m =
    elim (get_acpi_table (firmware_at sys m.tables) signature) [
      | none ↦ m
      | some p ↦ modify_at lib p new_table m
    ]

-- `UefiMain` with the APIC table at `p` and a new buffer, after the tables are printed: what it prints
-- besides, and the memory.
unfoldable pub rebrand : BaseMemory → ℕ → List ℕ → Memory → List Text × Memory
unfolding modify_at with_oem_id print_acpi_header
rebrand lib p pool m =
    let new_table = with_oem_id (lib.copy_mem pool (m.tables p) (le32 (m.tables p) 4)) in
    let after = modify_at lib p new_table (record m { pools = m.pools + 1 }) in
    (
      print_found_table
          ∷ print_acpi_header m.tables p
          ∷ print_modified
          ∷ print_acpi_header after.tables p
          ∷ [],
      record after { pools = after.pools - 1 },
    )

-- After `AllocatePool`, where `all` is what is printed so far.
unfoldable pub pool_given :
    BaseMemory → ℕ → Memory → List Text → Option (List ℕ) → Run (List Text × Memory)
unfolding rebrand
pool_given lib p m all none = fault null_pointer
pool_given lib p m all (some pool) = let r = rebrand lib p pool m in ok (all ++ r.0, r.1)

-- After the search for the APIC table.
unfoldable pub apic_found :
    BaseMemory → (ℕ → Option (List ℕ)) → Memory → List Text → Option ℕ → Run (List Text × Memory)
unfolding pool_given
apic_found lib allocate_pool m all none = ok (all, m)
apic_found lib allocate_pool m all (some p) =
    pool_given lib p m all (allocate_pool (le32 (m.tables p) 4))

-- `UefiMain`
unfoldable pub uefi_main :
    System → BaseMemory → (ℕ → Option (List ℕ)) → Memory → Run (List Text × Memory)
unfolding apic_found
uefi_main sys lib allocate_pool m =
    apic_found lib allocate_pool m (print_all_acpi_tables sys m.tables)
      (get_acpi_table (firmware_at sys m.tables) apic_signature)
