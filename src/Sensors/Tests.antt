-- ===== src/Sensors/Tests.antt =====
-- linux-5.15.178/drivers/firmware/efi/efi_custom_hwinfo.c: the theorem at the table of the firmware.
use oshome_work.Base.{true, none, some}
use oshome_work.Sensors.Start.{unloaded, hw_info_init-Started, Started}
use oshome_work.Sensors.{StartAnswers, hw_info_init, ZhwiTable}

abbrev table : ZhwiTable
table = record {
  fan_speed = 2500;
  cpu_temp = 420;
  system_load = 30;
  timestamp = 1650000000;
  runtime_functions_ptr = 4096;
}

abbrev answers : StartAnswers
answers = record {
  table = some table;
  ioremap = λ _. none;
  kobject_made = true;
  group_result = 0;
  efi_kobj = true;
  link_result = 0;
}

hw_info_init-Started_example : Started answers (hw_info_init answers unloaded)
hw_info_init-Started_example = hw_info_init-Started answers
