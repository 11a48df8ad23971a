-- ===== src/Vdso/View.antt =====
-- linux-5.15.178/arch/x86/entry/vdso/vgetinfo.c, read in the process that vma.c lays out: the bytes
-- at the address that it computes for the task_struct. In the vtask area they come from
-- `vtask_fault`; what lies elsewhere is left open. `&vvar_page` is the start of the vvar area, which
-- follows the vtask area. Addresses are 64 bits and wrap around.
use oshome_work.Base.{
  ℕ, ◌+◌, ◌-◌, ◌*◌, ◌/◌, ◌%◌, ◌^◌, ◌≤◌, ◌<◌, ◌≡◌, refl, ap, ◌∙◌, inl, inr, true, ◌&&◌, Option, none,
  some, arith, ltb, leb, if◌then◌else◌, Bool-cases,
}
use oshome_work.Vdso.{page_size, page_align, vtask_size}
use oshome_work.Vdso.PageFault.{frame, view_page, vtask_fault}

abbrev pub vvar_size : ℕ
vvar_size = 16384

-- Where the vtask area starts, the bytes that can be read outside it, and physical memory.
pub record Process : Type 0 where
  pub start : ℕ
  pub other : ℕ → Option ℕ
  pub physical : ℕ → ℕ

-- A byte of `struct my_task_struct_view`, two `int`s, or of the zeros after it.
unfoldable pub view_byte : (page_offset pid i : ℕ) → ℕ
view_byte page_offset pid i =
    if ltb i 4
    then page_offset / 256 ^ i % 256
    else (if ltb i 8 then pid / 256 ^ (i - 4) % 256 else 0)

-- The byte at an offset of the vtask area, where a page for the view can be allocated, and the byte
-- at an address.
unfoldable pub vtask_read : (task_size pa pid : ℕ) → Process → (offset : ℕ) → Option ℕ
unfolding vtask_fault view_byte
vtask_read task_size pa pid w offset =
    elim (vtask_fault task_size pa pid true (offset / page_size)) [
      | view_page page_offset pid' ↦ some (view_byte page_offset pid' (offset % page_size))
      | frame n ↦ some (w.physical (n * page_size + offset % page_size))
      | _ ↦ none
    ]

unfoldable pub user_byte : (task_size pa pid : ℕ) → Process → (address : ℕ) → Option ℕ
unfolding vtask_read vtask_size
user_byte task_size pa pid w address =
    if leb w.start address && ltb address (w.start + vtask_size task_size)
    then vtask_read task_size pa pid w (address - w.start)
    else w.other address

-- An `int` from its bytes, made a 64-bit number.
abbrev int_of : Option ℕ → Option ℕ → Option ℕ → Option ℕ → Option ℕ
int_of (some a) (some b) (some c) (some d) =
    let n = a + b * 256 + c * 65536 + d * 16777216 in
    some (if leb 2147483648 n then n + (2 ^ 64 - 2 ^ 32) else n)
int_of _ _ _ _ = none

-- `view->page_offset`
unfoldable pub view_page_offset : (task_size pa pid : ℕ) → Process → (view : ℕ) → Option ℕ
unfolding user_byte
view_page_offset task_size pa pid w view =
    let at = λ (i : ℕ). user_byte task_size pa pid w ((view + i) % 2 ^ 64) in
    int_of (at 0) (at 1) (at 2) (at 3)

-- `get_task_addr`: `none` where the read of the view faults.
unfoldable pub get_task_addr : (task_size pa pid : ℕ) → Process → Option ℕ
unfolding view_page_offset vtask_size
get_task_addr task_size pa pid w =
    let view = (w.start + vtask_size task_size + 2 ^ 64 - vvar_size) % 2 ^ 64 in
    elim (view_page_offset task_size pa pid w view) [
      | none ↦ none
      | some page_offset ↦ some ((view + page_offset + page_size) % 2 ^ 64)
    ]

-- `__vdso_get_task_struct_info`, of which byte `j` of `task` is read.
unfoldable pub task_byte : (task_size pa pid : ℕ) → Process → (j : ℕ) → Option ℕ
unfolding get_task_addr user_byte
task_byte task_size pa pid w j = elim (get_task_addr task_size pa pid w) [
  | none ↦ none
  | some task ↦ user_byte task_size pa pid w ((task + j) % 2 ^ 64)
]

module _ (task_size pa pid : ℕ) (w : Process) (pages : page_align task_size ≡ 12288)
    (room : w.start + 32768 ≤ 2 ^ 64) where
  inside_area :
      (offset : ℕ)
      → offset < 16384
      → user_byte task_size pa pid w ((w.start + offset) % 2 ^ 64)
        ≡ vtask_read task_size pa pid w offset
  unfolding user_byte vtask_size
  inside_area offset l =
      let at : (w.start + offset) % 2 ^ 64 ≡ w.start + offset = omega arith in
      let back : w.start + offset - w.start ≡ offset = omega arith in
      rw (at, back) (ground (arith, pages))

  outside_area :
      (offset : ℕ)
      → 16384 ≤ offset
      → offset < 32768
      → user_byte task_size pa pid w ((w.start + offset) % 2 ^ 64) ≡ w.other (w.start + offset)
  unfolding user_byte vtask_size
  outside_area offset l h =
      let at : (w.start + offset) % 2 ^ 64 ≡ w.start + offset = omega arith in
      rw (at) (ground (arith, pages))

  -- The page offset that the process finds.
  view_page_offset_lem : view_page_offset task_size pa pid w w.start ≡ some (pa % page_size)
  unfolding view_page_offset vtask_read vtask_fault vtask_size view_byte
  view_page_offset_lem =
      rw
        (
          inside_area 0 (omega arith),
          inside_area 1 (omega arith),
          inside_area 2 (omega arith),
          inside_area 3 (omega arith),
        )
        (ground (arith, pages))

  get_task_addr_lem : get_task_addr task_size pa pid w ≡ some (w.start + page_size + pa % page_size)
  unfolding get_task_addr vtask_size
  get_task_addr_lem =
      let at : (w.start + vtask_size task_size + 2 ^ 64 - vvar_size) % 2 ^ 64 ≡ w.start =
        omega (arith, pages, room) in
      let view = (w.start + vtask_size task_size + 2 ^ 64 - vvar_size) % 2 ^ 64 in
      let up : (view + pa % page_size + page_size) % 2 ^ 64 ≡ w.start + page_size + pa % page_size =
        omega (arith, at, room) in
      rw (get_task_addr, at, view_page_offset_lem) (ap some up)

  task_byte-user_byte :
      (j : ℕ)
      → task_byte task_size pa pid w j
        ≡ user_byte task_size pa pid w ((w.start + (page_size + pa % page_size + j)) % 2 ^ 64)
  unfolding task_byte
  task_byte-user_byte j =
      let at : w.start + page_size + pa % page_size + j
          ≡ w.start + (page_size + pa % page_size + j) =
        omega arith in
      rw (task_byte, get_task_addr_lem, at) refl

  vtask_read-frame :
      (j : ℕ)
      → pa % page_size + j < 12288
      → vtask_read task_size pa pid w (page_size + pa % page_size + j) ≡ some (w.physical (pa + j))
  unfolding vtask_read vtask_fault vtask_size
  vtask_read-frame j h =
      let n = (page_size + pa % page_size + j) / page_size in
      let at : (pa + n * page_size - page_size) / page_size * page_size
            + (page_size + pa % page_size + j) % page_size
          ≡ pa + j =
        omega arith in
      ground (arith, pages, h, at)

-- Where the task_struct takes three pages, the areas lie below 2^64 and a page for the view can be
-- allocated: what a process reads as a byte `j` within the size of its task_struct, at the address
-- that it computes, is byte `j` of the kernel's if the byte lies less than three pages after the
-- start of the page in which the task_struct starts, and else whatever is mapped there after the
-- vtask area.
pub task_byte_lem :
    (task_size pa pid : ℕ) (w : Process) (j : ℕ)
    → page_align task_size ≡ 12288
    → w.start + 32768 ≤ 2 ^ 64
    → j < task_size
    → task_byte task_size pa pid w j ≡ (
        if ltb (pa % page_size + j) 12288
        then some (w.physical (pa + j))
        else w.other (w.start + (page_size + pa % page_size + j)))
unfolding page_align
task_byte_lem task_size pa pid w j pages room l =
    task_byte-user_byte task_size pa pid w pages room j
    ∙ elim (Bool-cases (ltb (pa % page_size + j) 12288)) [
      | inl e ↦
          inside_area task_size pa pid w pages room (page_size + pa % page_size + j)
            (ground (arith, e))
          ∙ vtask_read-frame task_size pa pid w pages room j (ground (arith, e))
          ∙ rw (e) refl
      | inr e ↦
          outside_area task_size pa pid w pages room (page_size + pa % page_size + j)
            (ground (arith, e)) (omega (arith, pages, l))
          ∙ rw (e) refl
    ]
