-- ===== src/Vdso/Address.antt =====
-- linux-5.15.178/arch/x86/entry/vdso/vma.c: where `vdso_addr` asks for the vdso. A page middle
-- directory covers 2 MiB; `DEFAULT_MAP_WINDOW` is a parameter, as are the random number of
-- `get_random_int` and `align_vdso_addr`.
use oshome_work.Base.{
  ℕ, ◌+◌, ◌-◌, ◌*◌, ◌/◌, ◌%◌, ◌^◌, ◌≤◌, ◌<◌, ◌≡◌, Bool, Option, arith, ltb, leb, if◌then◌else◌,
}
use oshome_work.Vdso.{Errno, page_size, page_align, VdsoImage}
use oshome_work.Vdso.Map.{MmStruct, map_vdso, Memory}

abbrev pub pmd_size : ℕ
pmd_size = 2097152

-- `end`, before `len` is taken off. The sum wraps around.
unfoldable pub pmd_end : (window start len : ℕ) → ℕ
pmd_end window start len =
    let end = (start + len + pmd_size - 1) % 2 ^ 64 / pmd_size * pmd_size in
    if leb window end then window else end

-- `offset << PAGE_SHIFT`, where `offset` is an `unsigned`.
unfoldable pub random_offset : (random gap : ℕ) → ℕ
random_offset random gap = random % (gap / page_size + 1) % 2 ^ 32 * page_size % 2 ^ 32

-- `vdso_addr`, before `align_vdso_addr`. `end -= len` wraps around.
unfoldable pub random_addr : (random window start len : ℕ) → ℕ
unfolding pmd_end random_offset
random_addr random window start₀ len =
    let start = page_align start₀ in
    let end = (pmd_end window start len + 2 ^ 64 - len) % 2 ^ 64 in
    if ltb start end then start + random_offset random (end - start) else start

-- `vdso_addr`
unfoldable pub vdso_addr : (ℕ → ℕ) → (random window start len : ℕ) → ℕ
unfolding random_addr
vdso_addr align_vdso_addr random window start len =
    align_vdso_addr (random_addr random window start len)

-- `map_vdso_randomized`: the length does not count the vtask area.
unfoldable pub map_vdso_randomized :
    (ℕ → ℕ)
    → Memory
    → VdsoImage
    → (task_size : ℕ) → Bool
    → (random window start_stack : ℕ) → MmStruct
    → Option Errno × MmStruct
unfolding vdso_addr map_vdso
map_vdso_randomized align_vdso_addr mem image task_size killed random window start_stack mm =
    map_vdso mem image task_size killed
      (vdso_addr align_vdso_addr random window start_stack (image.size + image.vvar_size)) mm

random_offset-bounds :
    (random gap : ℕ) → (random_offset random gap ≤ gap) × (random_offset random gap % page_size ≡ 0)
unfolding random_offset
random_offset-bounds random gap =
    let small : random % (gap / page_size + 1) < gap / page_size + 1 = omega arith in
    (omega (arith, small), omega arith)

no_wrap : (e len : ℕ) → len ≤ e → e < 2 ^ 64 → (e + 2 ^ 64 - len) % 2 ^ 64 ≡ e - len
no_wrap e len h small = omega arith

pmd_end-bounds :
    (window start len : ℕ)
    → start + len ≤ window
    → window + pmd_size ≤ 2 ^ 64
    → (start + len ≤ pmd_end window start len)
      × (pmd_end window start len ≤ window)
      × (pmd_end window start len ≤ (start + len + pmd_size - 1) / pmd_size * pmd_size)
unfolding pmd_end
pmd_end-bounds window start len h small =
    let e : (start + len + pmd_size - 1) % 2 ^ 64 ≡ start + len + pmd_size - 1 = omega arith in
    rw (e) (ground (arith, h), ground arith, ground arith)

page_align-ge : (x : ℕ) → x ≤ page_align x
unfolding page_align
page_align-ge x = omega arith

page_align-mod : (x : ℕ) → page_align x % page_size ≡ 0
unfolding page_align
page_align-mod x = omega arith

-- Where the aligned stack and the length fit below the window and 2 MiB above the window is still
-- below 2^64, the random address is page aligned, lies at or above the stack, and leaves room for
-- the length both before the window and before the end of the 2 MiB in which the lowest possible
-- end lies.
pub random_addr-bounds :
    (random window start len : ℕ)
    → page_align start + len ≤ window
    → window + pmd_size ≤ 2 ^ 64
    → (start ≤ random_addr random window start len)
      × (random_addr random window start len + len ≤ window)
      × (random_addr random window start len + len
          ≤ (page_align start + len + pmd_size - 1) / pmd_size * pmd_size)
      × (random_addr random window start len % page_size ≡ 0)
unfolding random_addr
random_addr-bounds random window start len fits small =
    let first = page_align start in
    let last = pmd_end window first len in
    let (low, high, near) = pmd_end-bounds window first len fits small in
    let aligned = page_align-mod start in
    let up = page_align-ge start in
    let offset = random_offset-bounds random (last - len - first) in
    let wrap = no_wrap last len (omega arith) (omega arith) in
    (
      ground (arith, wrap, offset, low, up),
      ground (arith, wrap, offset, low, high),
      ground (arith, wrap, offset, low, near),
      ground (arith, wrap, aligned),
    )
