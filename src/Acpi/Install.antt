-- ===== src/Acpi/Install.antt =====
-- HardwareInfoAppPkg/HardwareInfoApp.c: `InstallAcpiTable` and the entry point. The answers of the
-- boot services and of the ACPI protocol are parameters; the messages are left out.
use oshome_work.Base.{
  ℕ, zero, suc, ◌/◌, ◌%◌, ◌^◌, ◌≤◌, ◌≡◌, refl, ◌≢◌, ◌↔◌, inl, inr, Bool, true, false, Option, none,
  some, List, [], ◌∷◌, ◌++◌, arith, leb, if◌then◌else◌, Bool-cases, length, get_elem?, total,
}
use oshome_work.Acpi.Checksum.{acpi_calculate_checksum-IsSummed, byte}
use oshome_work.Acpi.{checksum_offset, acpi_calculate_checksum}

-- The bytes of a number, the lowest first.
unfoldable pub little_endian : (count n : ℕ) → List ℕ
little_endian zero n = []
little_endian (suc count) n = n % 256 ∷ little_endian count (n / 256)

-- `mZhwiTable`: the header of 36 bytes, then the values of ZHWI_TABLE, packed.
unfoldable pub zhwi_table : List ℕ
unfolding little_endian
zhwi_table =
    (90 ∷ 72 ∷ 87 ∷ 73 ∷ [])
    ++ little_endian 4 60
    ++ (1 ∷ 0 ∷ [])
    ++ (74 ∷ 65 ∷ 83 ∷ 79 ∷ 78 ∷ 0 ∷ [])
    ++ little_endian 8 114514
    ++ little_endian 4 1
    ++ little_endian 4 19260817
    ++ little_endian 4 1
    ++ little_endian 4 1
    ++ little_endian 4 2500
    ++ little_endian 4 420
    ++ little_endian 4 30
    ++ little_endian 8 1650000000

-- `mZhwiTable.Header.Length`
abbrev pub zhwi_length : ℕ
zhwi_length = 60

-- `EFI_ERROR`: the highest bit of the status.
abbrev pub efi_error : ℕ → Bool
efi_error status = leb (2 ^ 63) status

-- What a run leaves behind: the status, the global table, and the bytes the protocol was given.
pub record Installation : Type 0 where
  pub status : ℕ
  pub table : List ℕ
  pub given : Option (List ℕ)

-- The part of `InstallAcpiTable` after the checksum.
unfoldable pub hand_over : (List ℕ → ℕ → ℕ) → List ℕ → Installation
hand_over install table = record {
  status = (let s = install table zhwi_length in if efi_error s then s else 0);
  table = table;
  given = some table;
}

-- `InstallAcpiTable`: `locate` is the status of `LocateProtocol`; `none` for an access outside the
-- table.
unfoldable pub install_acpi_table : ℕ → (List ℕ → ℕ → ℕ) → List ℕ → Option Installation
unfolding hand_over
install_acpi_table locate install table =
    if efi_error locate
    then some (record { status = locate; table = table; given = none })
    else elim (acpi_calculate_checksum table zhwi_length checksum_offset) [
      | none ↦ none
      | some t ↦ some (hand_over install t)
    ]

-- `RuntimeInfoEntryPoint`, for the table of the image.
unfoldable pub runtime_info_entry_point : ℕ → (List ℕ → ℕ → ℕ) → Option Installation
unfolding install_acpi_table
runtime_info_entry_point locate install = elim (install_acpi_table locate install zhwi_table) [
  | none ↦ none
  | some r ↦ some (record r { status = (if efi_error r.status then r.status else 0) })
]

-- How the driver starts.
pub record IsInstalled (locate : ℕ) (install : List ℕ → ℕ → ℕ) (r : Installation) : Type 0 where
  pub missing : efi_error locate ≡ true → (r.status ≡ locate) × (r.given ≡ none)
  pub found : efi_error locate ≡ false → r.given ≡ some r.table
  pub sum : efi_error locate ≡ false → total zhwi_length (byte r.table) % 256 ≡ 0
  pub same : (i : ℕ) → checksum_offset ≢ i → get_elem? r.table i ≡ get_elem? zhwi_table i
  pub success :
      (r.status ≡ 0)
      ↔ ((efi_error locate ≡ false) × (efi_error (install r.table zhwi_length) ≡ false))

zhwi_length-le : zhwi_length ≤ length zhwi_table
unfolding zhwi_table little_endian
zhwi_length-le = let e : length zhwi_table ≡ 60 = refl in omega (arith, e)

-- The entry point never leaves its table. Without the ACPI protocol it gives back that error and
-- hands over nothing; with it, it hands over its table with a checksum that makes it sum to 0 and
-- otherwise unchanged, and succeeds exactly where the protocol accepts it.
pub runtime_info_entry_point-IsInstalled :
    (locate : ℕ) (install : List ℕ → ℕ → ℕ)
    → (r : Installation) × (runtime_info_entry_point locate install ≡ some r)
      × IsInstalled locate install r
unfolding runtime_info_entry_point install_acpi_table hand_over
runtime_info_entry_point-IsInstalled locate install = elim (Bool-cases (efi_error locate)) [
  | inl e ↦ (
    record { status = locate; table = zhwi_table; given = none },
    ground (arith, e),
    record {
      missing = λ _. (refl, refl);
      found = λ h. ground (arith, e, h);
      sum = λ h. ground (arith, e, h);
      same = λ i h. refl;
      success = (λ h. ground (arith, e, h), λ h. ground (arith, e, h));
    },
  )
  | inr e ↦
      let (t, run, laid) =
        acpi_calculate_checksum-IsSummed zhwi_table zhwi_length checksum_offset (omega arith)
          zhwi_length-le in
      let s = install t zhwi_length in
      (
        record { status = (if efi_error s then s else 0); table = t; given = some t },
        ground (arith, e, run),
        record {
          missing = λ h. ground (arith, e, h);
          found = λ h. refl;
          sum = λ h. laid.sum;
          same = laid.same;
          success = ground (arith, e);
        },
      )
]
