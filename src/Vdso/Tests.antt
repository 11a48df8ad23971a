-- ===== src/Vdso/Tests.antt =====
-- linux-5.15.178/arch/x86/entry/vdso: the theorems at an image, a program and a task.
use oshome_work.Base.{
  ℕ, ◌+◌, ◌-◌, ◌*◌, ◌/◌, ◌%◌, ◌≤◌, ◌≡◌, refl, true, false, ◌&&◌, Option, none, some, List, [], ◌∷◌,
  arith, ltb, leb, if◌then◌else◌,
}
use oshome_work.Base.Int.{negsuc}
use oshome_work.Vdso.Setup.{IsSetUp, image_for, setup-IsSetUp, bits_64, Kernel, setup}
use oshome_work.Vdso.Move.{vdso_join_timens}
use oshome_work.Vdso.PageFault.{Clocks}
use oshome_work.Vdso.View.{task_byte_lem, task_byte, Process}
use oshome_work.Vdso.{VdsoImage, page_size, page_align}
use oshome_work.Vdso.Address.{pmd_size, random_addr-bounds, random_addr}
use oshome_work.Vdso.Map.{
  Area, vdso_mapping, vvar_mapping, other, area_found, vvar_installed, text_installed, map_vdso,
  vtask_installed, MmStruct, up_fail,
}
use oshome_work.Vdso.Intervals.{memory}

abbrev image : VdsoImage
image = record {
  size = 8192;
  vvar_size = 16384;
  sym_vvar_page = negsuc 16383;
  sym_pvclock_page = negsuc 12287;
  sym_hvclock_page = negsuc 8191;
  sym_timens_page = negsuc 4095;
}

abbrev program : MmStruct
program = record {
  mmap = record { vm_start = 4096; len = 4096; kind = other } ∷ [];
  locked = false;
  vdso = 0;
  vdso_image = none;
}

-- A kernel without the x32 interface.
abbrev kernel : Kernel
kernel = record {
  x86_x32_abi = false;
  ia32_emulation = true;
  vdso64_enabled = 1;
  vdso32_enabled = 1;
  vdso_image_64 = image;
  vdso_image_x32 = image;
  vdso_image_32 = image;
}

setup-IsSetUp_example :
    IsSetUp
      (image_for kernel bits_64)
      9000
      program
      (setup (λ a. a) memory 9000 false 5 100000000 5000 program refl kernel bits_64)
setup-IsSetUp_example =
    setup-IsSetUp (λ a. a) memory 9000 false 5 100000000 5000 program refl kernel bits_64

maps : (map_vdso memory image 9000 false 0 program).0 ≡ none
unfolding map_vdso area_found text_installed vvar_installed vtask_installed up_fail memory
maps = refl

aligned : page_align 5000 + 24576 ≤ 100000000
unfolding page_align
aligned = omega arith

random_addr-bounds_example :
    (5000 ≤ random_addr 77 100000000 5000 24576)
    × (random_addr 77 100000000 5000 24576 + 24576 ≤ 100000000)
    × (random_addr 77 100000000 5000 24576 + 24576
        ≤ (page_align 5000 + 24576 + pmd_size - 1) / pmd_size * pmd_size)
    × (random_addr 77 100000000 5000 24576 % page_size ≡ 0)
random_addr-bounds_example = random_addr-bounds 77 100000000 5000 24576 aligned (omega arith)

three_pages : page_align 9000 ≡ 12288
unfolding page_align
three_pages = refl

-- The vtask area starts at 2^20, and the clock pages after it can be read.
abbrev process : Process
process = record {
  start = 1048576;
  other = λ address. if leb 1064960 address && ltb address 1081344 then some 90 else none;
  physical = λ a. a % 256;
}

three : page_align 12000 ≡ 12288
unfolding page_align
three = refl

-- A byte that is the kernel's.
near : task_byte 9000 65600 7 process 100 ≡ some 164
near = task_byte_lem 9000 65600 7 process 100 three_pages (omega arith) (omega arith)

-- A byte of the clock pages in place of one of the task_struct.
far : task_byte 12000 69000 7 process 11000 ≡ some 90
far = task_byte_lem 12000 69000 7 process 11000 three (omega arith) (omega arith)

task_byte_lem_example : task_byte 12000 67000 7 process 11000 ≡ (
    if ltb (67000 % page_size + 11000) 12288
    then some (process.physical 78000)
    else process.other (1048576 + (page_size + 67000 % page_size + 11000)))
task_byte_lem_example = task_byte_lem 12000 67000 7 process 11000 three (omega arith) (omega arith)

abbrev clocks : Clocks
clocks = record {
  vvar_frame = 10;
  timens_frame = some 11;
  pvclock_frame = none;
  hvclock_frame = none;
  insert_fails = false;
}

-- A process with an area of its own, the clock pages and the text, all with pages.
abbrev areas : List Area
areas =
    record { vm_start = 4096; len = 4096; kind = other }
    ∷ record { vm_start = 8192; len = 16384; kind = vvar_mapping }
    ∷ record { vm_start = 24576; len = 8192; kind = vdso_mapping }
    ∷ []

abbrev zap : (start size : ℕ) → (ℕ → Option ℕ) → ℕ → Option ℕ
zap start size page p = if leb start p && ltb p (start + size) then none else page p

-- Only the clock pages are taken away.
zapped :
    (vdso_join_timens zap areas (λ p. some p) 12288 ≡ none)
    × (vdso_join_timens zap areas (λ p. some p) 24576 ≡ some 24576)
unfolding vdso_join_timens
zapped = (refl, refl)
