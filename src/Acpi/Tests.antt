-- ===== src/Acpi/Tests.antt =====
-- HardwareInfoAppPkg/HardwareInfoApp.c and HelloWorldPkg/HelloWorld.c: the theorems at small tables.
use oshome_work.Base.{
  ℕ, zero, suc, ◌-◌, ◌%◌, ◌≤◌, ◌<◌, ◌≡◌, refl, ap, subst, Option, some, List, [], ◌∷◌, ◌++◌, arith,
  ◌==◌, if◌then◌else◌, first, length, replicate, length-replicate, total,
}
use oshome_work.Base.Run.{Returns}
use oshome_work.Acpi.Print.Order.{print_all_acpi_tables-first, printed}
use oshome_work.Acpi.Print.{
  configuration_at, print_all_acpi_tables, firmware_at, header_at, System, le32,
}
use oshome_work.Acpi.Main.{apic_signature, uefi_main, Memory}
use oshome_work.Acpi.Main.Branded.{Rebranded, uefi_main-Rebranded}
use oshome_work.Acpi.Modify.{BaseMemory, table_length}
use oshome_work.Acpi.{header_size, acpi_calculate_checksum}
use oshome_work.Acpi.Checksum.{byte, IsSummed, acpi_calculate_checksum-IsSummed}
use oshome_work.Acpi.Find.{
  scan_xsdt, entry_count, check_entry, scan_configuration, check_sub_table, get_acpi_table,
  fadt_signature, Firmware,
}
use oshome_work.Acpi.Install.{
  IsInstalled, Installation, runtime_info_entry_point-IsInstalled, runtime_info_entry_point,
}

acpi_calculate_checksum-IsSummed_example :
    (result : List ℕ) × (acpi_calculate_checksum (200 ∷ 7 ∷ 100 ∷ 9 ∷ []) 3 1 ≡ some result)
    × IsSummed (200 ∷ 7 ∷ 100 ∷ 9 ∷ []) 3 1 result
acpi_calculate_checksum-IsSummed_example =
    acpi_calculate_checksum-IsSummed (200 ∷ 7 ∷ 100 ∷ 9 ∷ []) 3 1 (omega arith) (omega arith)

-- The protocol is there and refuses with EFI_INVALID_PARAMETER.
runtime_info_entry_point-IsInstalled_example :
    (r : Installation) × (runtime_info_entry_point 0 (λ _ _. 9223372036854775810) ≡ some r)
    × IsInstalled 0 (λ _ _. 9223372036854775810) r
runtime_info_entry_point-IsInstalled_example =
    runtime_info_entry_point-IsInstalled 0 (λ _ _. 9223372036854775810)

-- One configuration table of ACPI, whose XSDT lists a FADT at 100 with a DSDT at 200.
abbrev firmware : Firmware
firmware = record {
  compare_guid = λ a b. a == b;
  acpi_table_guid = 1;
  acpi_20_table_guid = 2;
  configuration =
      record { vendor_guid = 9; xsdt_address = 50 }
      ∷ record { vendor_guid = 2; xsdt_address = 60 }
      ∷ [];
  header = λ p. record {
    signature = (if p == 100 then fadt_signature else p);
    dsdt = 200;
    firmware_ctrl = 0;
  };
  xsdt_length = λ _. 52;
  xsdt_entry = λ x j. if j == 0 then 0 else 100;
}

copy : List ℕ → List ℕ → ℕ → List ℕ
copy [] source count = []
copy (d ∷ ds) source zero = d ∷ ds
copy (d ∷ ds) [] (suc count) = d ∷ ds
copy (d ∷ ds) (x ∷ xs) (suc count) = x ∷ copy ds xs count

length-copy : (ds xs : List ℕ) (count : ℕ) → length (copy ds xs count) ≡ length ds
unfolding copy
length-copy [] xs count = refl
length-copy (d ∷ ds) xs zero = refl
length-copy (d ∷ ds) [] (suc count) = refl
length-copy (d ∷ ds) (x ∷ xs) (suc count) = ap suc (length-copy ds xs count)

byte-copy_new :
    (ds xs : List ℕ) (count i : ℕ)
    → count ≤ length xs
    → count ≤ length ds
    → i < count
    → byte (copy ds xs count) i ≡ byte xs i
unfolding copy
byte-copy_new [] xs count i p q h = absurd (omega arith)
byte-copy_new (d ∷ ds) xs zero i p q h = absurd (omega arith)
byte-copy_new (d ∷ ds) [] (suc count) i p q h = absurd (omega arith)
byte-copy_new (d ∷ ds) (x ∷ xs) (suc count) zero p q h = refl
byte-copy_new (d ∷ ds) (x ∷ xs) (suc count) (suc i) p q h =
    byte-copy_new ds xs count i (omega arith) (omega arith) (omega arith)

byte-copy_old : (ds xs : List ℕ) (count i : ℕ) → count ≤ i → byte (copy ds xs count) i ≡ byte ds i
unfolding copy
byte-copy_old [] xs count i h = refl
byte-copy_old (d ∷ ds) xs zero i h = refl
byte-copy_old (d ∷ ds) [] (suc count) i h = refl
byte-copy_old (d ∷ ds) (x ∷ xs) (suc count) zero h = absurd (omega arith)
byte-copy_old (d ∷ ds) (x ∷ xs) (suc count) (suc i) h = byte-copy_old ds xs count i (omega arith)

base_memory : BaseMemory
base_memory = record {
  copy_mem = copy;
  calculate_check_sum8 = λ buffer count. (256 - total count (byte buffer) % 256) % 256;
  copied = λ ds xs count p q. (
    length-copy ds xs count,
    (λ i h. byte-copy_new ds xs count i p q h),
    (λ i h. byte-copy_old ds xs count i h),
  );
  complement = λ buffer count p. omega arith;
}

-- A table of 36 bytes, in memory for 40.
abbrev new_table : List ℕ
new_table = 65 ∷ 80 ∷ 73 ∷ 67 ∷ 36 ∷ 0 ∷ 0 ∷ 0 ∷ replicate 28 5

abbrev old_table : List ℕ
old_table = replicate 40 7

new_table-length : table_length new_table ≡ 36
unfolding table_length
new_table-length = refl

-- The root at 1000 leads to an XSDT at 2000 with one table, the APIC table at 3000.
abbrev root_bytes : List ℕ
root_bytes = replicate 24 0 ++ (208 ∷ 7 ∷ replicate 6 0)

abbrev xsdt_bytes : List ℕ
xsdt_bytes = replicate 4 0 ++ (44 ∷ replicate 31 0) ++ (184 ∷ 11 ∷ replicate 6 0)

abbrev tables : ℕ → List ℕ
tables p = if p == 1000 then root_bytes else if p == 2000 then xsdt_bytes else new_table

abbrev system : System
system = record {
  compare_guid = λ a b. a == b;
  acpi_table_guid = 1;
  acpi_20_table_guid = 2;
  configuration = record { vendor_guid = 2; vendor_table = 1000 } ∷ [];
}

print_all_acpi_tables-first_example :
    get_acpi_table (firmware_at system tables) apic_signature
    ≡ first
        (λ p. le32 (tables p) 0 == apic_signature)
        (printed (print_all_acpi_tables system tables))
print_all_acpi_tables-first_example = print_all_acpi_tables-first system tables apic_signature

abbrev memory : Memory
memory = record { tables = tables; pools = 0 }

found_apic : get_acpi_table (firmware_at system tables) apic_signature ≡ some 3000
unfolding get_acpi_table scan_configuration scan_xsdt entry_count check_entry check_sub_table
    firmware_at header_at configuration_at
found_apic = refl

abbrev allocate_pool : ℕ → Option (List ℕ)
allocate_pool size = some (replicate size 0)

allocate_pool-gives :
    (size : ℕ) → (pool : List ℕ) × (allocate_pool size ≡ some pool) × (size ≤ length pool)
allocate_pool-gives size = (replicate size 0, refl, omega (arith, length-replicate {A = ℕ} size 0))

apic_whole :
    (p : ℕ)
    → get_acpi_table (firmware_at system tables) apic_signature ≡ some p
    → (header_size ≤ table_length (tables p)) × (table_length (tables p) ≤ length (tables p))
apic_whole p e =
    let z : 3000 ≡ p = ground (arith, e, found_apic) in
    subst
      (λ p. (header_size ≤ table_length (tables p)) × (table_length (tables p) ≤ length (tables p)))
      z (omega (arith, new_table-length), omega (arith, new_table-length))

uefi_main-Rebranded_example : Returns (uefi_main system base_memory allocate_pool memory) (λ r.
    Rebranded (get_acpi_table (firmware_at system tables) apic_signature) memory r.1
    × (firmware_at system r.1.tables ≡ firmware_at system tables))
uefi_main-Rebranded_example =
    uefi_main-Rebranded system base_memory allocate_pool memory allocate_pool-gives apic_whole
