-- ===== src/Sensors.antt =====
-- linux-5.15.178/drivers/firmware/efi/efi_custom_hwinfo.c: the driver that shows the values of the
-- ZHWI table in sysfs. The kernel's answers are parameters, the messages are left out.
pub mod Start
mod Tests
use oshome_work.Base.{
  ℕ, ◌/◌, ◌%◌, Bool, true, false, not, ◌&&◌, Option, none, some, List, ◌∷◌, ◌==◌, if◌then◌else◌,
}

-- `struct zhwi_table`, as read.
pub record ZhwiTable : Type 0 where
  pub fan_speed : ℕ
  pub cpu_temp : ℕ
  pub system_load : ℕ
  pub timestamp : ℕ
  pub runtime_functions_ptr : ℕ

-- `struct zhwi_runtime_functions`: a function is what its next call returns, `none` for NULL.
pub record RuntimeFunctions : Type 0 where
  pub get_fan_speed : Option ℕ
  pub get_cpu_temp : Option ℕ
  pub get_system_load : Option ℕ
  pub get_timestamp : Option ℕ

-- The objects of sysfs that the driver makes.
pub data SysfsObject : Type 0 where
  kobject group link : SysfsObject

-- `zhwi_tbl`, `runtime_funcs`, whether `hw_info_kobj` is set, and the objects that are there.
pub record Driver : Type 0 where
  pub zhwi_tbl : Option ZhwiTable
  pub runtime_funcs : Option RuntimeFunctions
  pub hw_info_kobj : Bool
  pub objects : List SysfsObject

-- What a show function prints with its format: a number, or two with a dot between them.
pub data Shown : Type 0 where
  enodev : Shown
  number : ℕ → Shown
  dotted : ℕ → ℕ → Shown

-- The value of a runtime function, if the table of functions and the function are there.
abbrev pub call : (RuntimeFunctions → Option ℕ) → Option RuntimeFunctions → Option ℕ
call f none = none
call f (some r) = f r

-- The fall-back on the table.
abbrev pub from_table : (ZhwiTable → Shown) → Option ZhwiTable → Shown
from_table f none = enodev
from_table f (some t) = f t

-- `fan_speed_show`
unfoldable pub fan_speed_show : Driver → Shown
fan_speed_show d = elim (call (λ r. r.get_fan_speed) d.runtime_funcs) [
  | some speed ↦ number speed
  | none ↦ from_table (λ t. number t.fan_speed) d.zhwi_tbl
]

-- `cpu_temp_show`
unfoldable pub cpu_temp_show : Driver → Shown
cpu_temp_show d = elim (call (λ r. r.get_cpu_temp) d.runtime_funcs) [
  | some temp ↦ dotted (temp / 10) (temp % 10)
  | none ↦ from_table (λ t. dotted (t.cpu_temp / 10) (t.cpu_temp % 10)) d.zhwi_tbl
]

-- `system_load_show`
unfoldable pub system_load_show : Driver → Shown
system_load_show d = elim (call (λ r. r.get_system_load) d.runtime_funcs) [
  | some load ↦ number load
  | none ↦ from_table (λ t. number t.system_load) d.zhwi_tbl
]

-- `timestamp_show`
unfoldable pub timestamp_show : Driver → Shown
timestamp_show d = elim (call (λ r. r.get_timestamp) d.runtime_funcs) [
  | some timestamp ↦ number timestamp
  | none ↦ from_table (λ t. number t.timestamp) d.zhwi_tbl
]

-- The error numbers of the start.
pub data StartError : Type 0 where
  no_device no_memory : StartError
  group_error link_error : ℕ → StartError

-- `acpi_get_table`, `ioremap`, `kobject_create_and_add`, `sysfs_create_group`, whether `efi_kobj` is
-- set, and `sysfs_create_link`; an error number of the last two is not 0.
pub record StartAnswers : Type 0 where
  pub table : Option ZhwiTable
  pub ioremap : ℕ → Option RuntimeFunctions
  pub kobject_made : Bool
  pub group_result : ℕ
  pub efi_kobj : Bool
  pub link_result : ℕ

-- `read_zhwi_acpi_table`. A short table is only warned of. `zhwi_tbl` stays NULL where the table is
-- not found; the functions are mapped where `zhwi_tbl->runtime_functions_ptr && FALSE`.
unfoldable pub read_zhwi_acpi_table : StartAnswers → Driver → Option StartError × Driver
read_zhwi_acpi_table a d = elim a.table [
  | none ↦ (some no_device, d)
  | some t ↦ (
    none,
    (if not (t.runtime_functions_ptr == 0) && false
        then record d { zhwi_tbl = some t; runtime_funcs = a.ioremap t.runtime_functions_ptr }
        else record d { zhwi_tbl = some t }),
  )
]

-- `hw_info_init`, after the table is read.
unfoldable pub make_objects : StartAnswers → Driver → Option StartError × Driver
make_objects a d =
    if not a.kobject_made
    then (some no_memory, record d { hw_info_kobj = false })
    else (if not (a.group_result == 0)
        then (some (group_error a.group_result), record d { hw_info_kobj = true })
        else (
          none,
          record d {
            hw_info_kobj = true;
            objects =
                kobject
                ∷ group
                ∷ (if a.efi_kobj && (a.link_result == 0) then link ∷ d.objects else d.objects);
          },
        ))

-- `hw_info_init`: the objects of a failed start are put back, the pointers are not.
unfoldable pub hw_info_init : StartAnswers → Driver → Option StartError × Driver
unfolding read_zhwi_acpi_table make_objects
hw_info_init a d =
    let (r, t) = read_zhwi_acpi_table a d in
    elim r [ some e ↦ (some e, t) | none ↦ make_objects a t ]
