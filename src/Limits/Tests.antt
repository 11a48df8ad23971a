-- ===== src/Limits/Tests.antt =====
-- linux-5.15.178/kernel/fork.c: the limits of a machine with pages of 4096 bytes, four to a stack.
use oshome_work.Base.{
  ℕ, zero, suc, ◌+◌, ◌-◌, ◌*◌, ◌/◌, ◌^◌, ◌≤◌, ◌<◌, min, max, ◌≡◌, refl, sym, subst, ◌⊎◌, inl, inr,
  true, ◌&&◌, arith, leb, ◌==◌, if◌then◌else◌, Bool-cases,
}
use oshome_work.Base.Int.{pos, negsuc, eq_ℤ}
use oshome_work.Limits.Bounds.{set_max_threads-bounds}
use oshome_work.Limits.{
  sysctl_max_threads, clamp_threads, Machine, min_threads, Sysctl, set_max_threads, threads_for,
}
use native.Mathlib.Nat.{pow-succ'}

fls : (left n : ℕ) → ℕ
fls zero n = 0
fls (suc left) n = let rest = fls left (n / 2) in if n == 0 then 0 else 1 + rest

fls_le : (left n : ℕ) → fls left n ≤ left
unfolding fls
fls_le zero n = omega arith
fls_le (suc left) n = ground (arith, fls_le left (n / 2))

fls_below : (left n : ℕ) → n < 2 ^ left → n < 2 ^ fls left n
unfolding fls
fls_below zero n l = l
fls_below (suc left) n l = elim (Bool-cases (n == 0)) [
  | inl b ↦ rw (b) (ground (arith, b))
  | inr b ↦
      let half : n / 2 < 2 ^ left = omega (arith, l, pow-succ' 2 left) in
      let rest = fls_below left (n / 2) half in
      let e : 1 + fls left (n / 2) ≡ suc (fls left (n / 2)) = omega arith in
      rw (b) (rw (e) (omega (arith, rest, pow-succ' 2 (fls left (n / 2)))))
]

fls_highest : (left n : ℕ) → n < 2 ^ left → 1 ≤ fls left n → 2 ^ (fls left n - 1) ≤ n
unfolding fls
fls_highest zero n l k = absurd (omega arith)
fls_highest (suc left) n l k = elim (Bool-cases (n == 0)) [
  | inl b ↦ absurd (ground (arith, k, b))
  | inr b ↦
      let half : n / 2 < 2 ^ left = omega (arith, l, pow-succ' 2 left) in
      let f = fls left (n / 2) in
      let e : 1 + f - 1 ≡ f = omega arith in
      rw (b) (
        rw (e) (elim (Bool-cases (f == 0)) [
          | inl c ↦ let g : f ≡ 0 = ground (arith, c) in rw (g) (ground (arith, b))
          | inr c ↦
              let rest = fls_highest left (n / 2) half (ground (arith, c)) in
              let g : f ≡ suc (f - 1) = ground (arith, c) in
              let h : 2 ^ suc (f - 1) ≤ n = omega (arith, rest, pow-succ' 2 (f - 1)) in
              subst (λ k. 2 ^ k ≤ n) (sym g) h
        ]))
]

machine : Machine
machine = record {
  page_size = 4096;
  thread_size = 16384;
  max_threads_limit = 1073741823;
  fls64 = fls 64;
  fls64_le = fls_le 64;
  below = fls_below 64;
  highest = fls_highest 64;
}

-- 4 GiB of memory give room for 32768 threads.
four_gib : set_max_threads machine 1048576 1073741823 ≡ 32768
unfolding set_max_threads clamp_threads threads_for machine fls
four_gib = refl

set_max_threads-bounds_example :
    (set_max_threads machine 1048576 30000
      ≡ max min_threads (
          min machine.max_threads_limit
            (min 30000 (1048576 * machine.page_size / (machine.thread_size * 8)))))
    × (min_threads ≤ set_max_threads machine 1048576 30000)
    × (set_max_threads machine 1048576 30000 ≤ machine.max_threads_limit)
    × ((set_max_threads machine 1048576 30000 ≡ min_threads)
        ⊎ ((set_max_threads machine 1048576 30000 ≤ 30000)
            × (set_max_threads machine 1048576 30000 * (machine.thread_size * 8)
                ≤ 1048576 * machine.page_size)))
unfolding machine
set_max_threads-bounds_example =
    set_max_threads-bounds machine 1048576 30000 (ground arith) (ground arith) (ground arith)
      (ground arith) (ground arith)

-- A write of 500, which `proc_dointvec_minmax` takes where it is in the range.
sysctl : Sysctl
sysctl = record {
  dointvec = λ write lower upper value.
      if leb lower 500 && leb 500 upper then (pos 0, 500) else (negsuc 21, value);
  in_range = λ lower upper value e l k. ground (arith, l, k);
}

written : sysctl_max_threads machine sysctl true 32768 ≡ (pos 0, 500)
unfolding sysctl_max_threads machine sysctl eq_ℤ
written = refl
