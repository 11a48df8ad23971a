-- ===== src/Sensors/Start.antt =====
-- linux-5.15.178/drivers/firmware/efi/efi_custom_hwinfo.c: what a start of the driver leaves behind,
-- and what sysfs then shows.
use oshome_work.Base.{
  ℕ, ◌+◌, ◌*◌, ◌/◌, ◌%◌, ◌<◌, ◌≡◌, refl, sym, subst, ◌≢◌, ◌↔◌, ◌⊎◌, inl, inr, Bool, true, false,
  ◌&&◌, Option, none, some, List, [], ◌∷◌, arith, ◌==◌, if◌then◌else◌, Bool-cases, Option-cases,
}
use oshome_work.Sensors.{
  no_device, no_memory, group_error, StartAnswers, link, kobject, group, dotted, number,
  SysfsObject, cpu_temp_show, read_zhwi_acpi_table, system_load_show, timestamp_show, StartError,
  Driver, ZhwiTable, make_objects, hw_info_init, fan_speed_show,
}

abbrev pub unloaded : Driver
unloaded = record { zhwi_tbl = none; runtime_funcs = none; hw_info_kobj = false; objects = [] }

pub has_link : List SysfsObject → Bool
has_link [] = false
has_link (link ∷ xs) = true
has_link (_ ∷ xs) = has_link xs

-- After a start: the values of the table `t`.
pub record IsStarted (a : StartAnswers) (d : Driver) : Type 0 where
  pub t : ZhwiTable
  pub found : a.table ≡ some t
  pub fan : fan_speed_show d ≡ number t.fan_speed
  pub temp :
      (q : ℕ) × (r : ℕ) × (cpu_temp_show d ≡ dotted q r) × (10 * q + r ≡ t.cpu_temp) × (r < 10)
  pub load : system_load_show d ≡ number t.system_load
  pub time : timestamp_show d ≡ number t.timestamp
  pub linked : (has_link d.objects ≡ true) ↔ ((a.efi_kobj ≡ true) × (a.link_result ≡ 0))

pub Started : StartAnswers → Option StartError × Driver → Type 0
Started a (none, d) = IsStarted a d
Started a (some e, d) =
    (d.objects ≡ []) × ((a.table ≡ none) ⊎ (a.kobject_made ≡ false) ⊎ (a.group_result ≢ 0))

read : ZhwiTable → Driver
read t = record unloaded { zhwi_tbl = some t }

made : StartAnswers → ZhwiTable → Driver
made a t = record (read t) {
  hw_info_kobj = true;
  objects = kobject ∷ group ∷ (if a.efi_kobj && (a.link_result == 0) then link ∷ [] else []);
}

made-IsStarted : (a : StartAnswers) (t : ZhwiTable) → a.table ≡ some t → IsStarted a (made a t)
unfolding made read fan_speed_show cpu_temp_show system_load_show timestamp_show has_link
made-IsStarted a t e = record {
  t = t;
  found = e;
  fan = refl;
  temp = (t.cpu_temp / 10, t.cpu_temp % 10, refl, omega arith, omega arith);
  load = refl;
  time = refl;
  linked = ground arith;
}

make_objects-Started :
    (a : StartAnswers) (t : ZhwiTable) → a.table ≡ some t → Started a (make_objects a (read t))
unfolding make_objects Started made read
make_objects-Started a t e = elim (Bool-cases a.kobject_made) [
  | inl k ↦ elim (Bool-cases (a.group_result == 0)) [
    | inl g ↦
        subst (Started a)
          (sym (let r : make_objects a (read t) ≡ (none, made a t) = ground (arith, k, g) in r))
          (made-IsStarted a t e)
    | inr g ↦
        subst (Started a)
          (sym (
            let r : make_objects a (read t)
                ≡ (some (group_error a.group_result), record (read t) { hw_info_kobj = true }) =
              ground (arith, k, g) in
            r))
          (refl, ground (arith, g))
  ]
  | inr k ↦
      subst (Started a)
        (sym (let r : make_objects a (read t) ≡ (some no_memory, read t) = ground (arith, k) in r))
        (refl, inr (inl k))
]

-- A start of the unloaded driver fails only without the table, the kernel object or the attribute
-- group, and then leaves nothing in sysfs. After a start that does not fail, each file shows the
-- value of the table, the temperature in whole degrees and tenths, whatever functions the table
-- points to, and the link is there exactly where the EFI directory is and the link could be made.
pub hw_info_init-Started : (a : StartAnswers) → Started a (hw_info_init a unloaded)
unfolding hw_info_init read_zhwi_acpi_table Started read
hw_info_init-Started a = elim (Option-cases a.table) [
  | inl e ↦
      subst (Started a)
        (sym
          (let r : hw_info_init a unloaded ≡ (some no_device, unloaded) = ground (arith, e) in r))
        (refl, inl e)
  | inr (t, e) ↦
      subst (Started a)
        (sym (let r : hw_info_init a unloaded ≡ make_objects a (read t) = ground (arith, e) in r))
        (make_objects-Started a t e)
]
