-- ===== src/Limits/Bounds.antt =====
-- linux-5.15.178/kernel/fork.c: the greatest number of threads is in its range, nothing overflows, and
-- the stacks of that many threads take a part of the memory.
use oshome_work.Base.{
  ℕ, zero, suc, ◌+◌, ◌-◌, ◌*◌, ◌/◌, ◌%◌, ◌^◌, ◌≤◌, ◌<◌, min, max, ◌≡◌, refl, ap, ◌∙◌, ◌⊎◌, inl, inr,
  Bool, true, false, arith, ltb, Bool-cases, either_if,
}
use oshome_work.Base.Int.{pos, eq_ℤ, eq_ℤ_iff}
use native.Mathlib.Nat.{
  mul-le-mul, mul-le-mul_right, div-mul-le_self, le-div_iff_mul-le, pow-le-pow_right, pow-succ',
}
use oshome_work.Limits.{
  clamp_threads, threads_for, min_threads, set_max_threads, Sysctl, sysctl_max_threads, Machine,
}

pow_add : (a b : ℕ) → 2 ^ (a + b) ≡ 2 ^ a * 2 ^ b
pow_add zero b = let e : 0 + b ≡ b = omega arith in ap (λ k. 2 ^ k) e ∙ omega arith
pow_add (suc a) b =
    let e : suc a + b ≡ suc (a + b) = omega arith in
    ap (λ k. 2 ^ k) e ∙ grind (arith, pow-succ' 2 (a + b), pow_add a b, pow-succ' 2 a)

module _ (z : Machine) (nr_pages : ℕ) (l : nr_pages < 2 ^ 64) (k : z.page_size < 2 ^ 64) where
  product_lt : z.fls64 nr_pages + z.fls64 z.page_size ≤ 64 → nr_pages * z.page_size < 2 ^ 64
  product_lt h =
      let a = z.below nr_pages l in
      let b = z.below z.page_size k in
      let c : 2 ^ (z.fls64 nr_pages + z.fls64 z.page_size) ≤ 2 ^ 64 =
        pow-le-pow_right (omega arith) h in
      let m : (1 + nr_pages) * (1 + z.page_size) ≤ 2 ^ z.fls64 nr_pages * 2 ^ z.fls64 z.page_size =
        mul-le-mul (omega arith) (omega arith) in
      grind (arith, c, m, pow_add (z.fls64 nr_pages) (z.fls64 z.page_size))

  product_ge : 65 ≤ z.fls64 nr_pages + z.fls64 z.page_size → 2 ^ 63 ≤ nr_pages * z.page_size
  product_ge h =
      let a = z.highest nr_pages l in
      let b = z.highest z.page_size k in
      let c : 2 ^ 63 ≤ 2 ^ (z.fls64 nr_pages - 1 + (z.fls64 z.page_size - 1)) =
        pow-le-pow_right (omega arith) {i = 63} (omega (arith, h)) in
      let m =
        mul-le-mul (a (omega (arith, h, z.fls64_le nr_pages, z.fls64_le z.page_size)))
          (b (omega (arith, h, z.fls64_le nr_pages, z.fls64_le z.page_size))) in
      omega (arith, c, m, pow_add (z.fls64 nr_pages - 1) (z.fls64 z.page_size - 1))

module _ (z : Machine) (nr_pages : ℕ) (l : nr_pages < 2 ^ 64) (k : z.page_size < 2 ^ 64)
    (range : min_threads ≤ z.max_threads_limit) (stack : 1 ≤ z.thread_size)
    (room : z.max_threads_limit * (z.thread_size * 8) ≤ 2 ^ 63) where
  stack_lt : z.thread_size * 8 < 2 ^ 64
  stack_lt =
      let c : 1 * (z.thread_size * 8) ≤ z.max_threads_limit * (z.thread_size * 8) =
        mul-le-mul_right (z.thread_size * 8) (omega arith) in
      omega (arith, c)

  threads_for-fits : threads_for z nr_pages * (z.thread_size * 8) ≤ nr_pages * z.page_size
  unfolding threads_for
  threads_for-fits =
      either_if (λ t. t * (z.thread_size * 8) ≤ nr_pages * z.page_size)
        (ltb 64 (z.fls64 nr_pages + z.fls64 z.page_size))
        (λ b. let c = product_ge z nr_pages l k (ground (arith, b)) in omega (arith, c))
        (λ b.
          let c = product_lt z nr_pages l k (ground (arith, b)) in
          let d : nr_pages * z.page_size % 2 ^ 64 ≡ nr_pages * z.page_size = omega (arith, c) in
          let e : z.thread_size * 8 % 2 ^ 64 ≡ z.thread_size * 8 = omega (arith, stack_lt) in
          rw (d, e) (div-mul-le_self (nr_pages * z.page_size) (z.thread_size * 8)))

  -- Below what is computed, the stacks fit.
  fits : (r : ℕ) → r ≤ threads_for z nr_pages → r * (z.thread_size * 8) ≤ nr_pages * z.page_size
  fits r h = let c = mul-le-mul_right (z.thread_size * 8) h in omega (arith, c, threads_for-fits)

  in_range :
      (suggested : ℕ)
      → let r = set_max_threads z nr_pages suggested in
        (min_threads ≤ r)
        × (r ≤ z.max_threads_limit)
        × ((r ≡ min_threads) ⊎ ((r ≤ suggested) × (r ≤ threads_for z nr_pages)))
  unfolding set_max_threads clamp_threads
  in_range suggested = ground arith

  -- Without a bound on the numbers.
  threads_for-exact :
      (threads_for z nr_pages ≡ nr_pages * z.page_size / (z.thread_size * 8))
      ⊎ ((threads_for z nr_pages ≡ z.max_threads_limit)
          × (z.max_threads_limit ≤ nr_pages * z.page_size / (z.thread_size * 8)))
  unfolding threads_for
  threads_for-exact = elim (Bool-cases (ltb 64 (z.fls64 nr_pages + z.fls64 z.page_size))) [
    | inl b ↦
        let c = product_ge z nr_pages l k (ground (arith, b)) in
        let d : z.max_threads_limit ≤ nr_pages * z.page_size / (z.thread_size * 8) =
          (le-div_iff_mul-le (omega arith)).1 (omega (arith, c)) in
        inr (rw (b) refl, d)
    | inr b ↦
        let c = product_lt z nr_pages l k (ground (arith, b)) in
        let d : nr_pages * z.page_size % 2 ^ 64 ≡ nr_pages * z.page_size = omega (arith, c) in
        let e : z.thread_size * 8 % 2 ^ 64 ≡ z.thread_size * 8 = omega (arith, stack_lt) in
        inl (rw (b) (rw (d, e) refl))
  ]

  exact :
      (suggested : ℕ)
      → set_max_threads z nr_pages suggested
        ≡ max min_threads
            (min z.max_threads_limit (min suggested (nr_pages * z.page_size / (z.thread_size * 8))))
  unfolding set_max_threads clamp_threads
  exact suggested = elim threads_for-exact [
    | inl e ↦ rw (e) (ground (arith, range))
    | inr (e, h) ↦ rw (e) (ground (arith, h, range))
  ]

-- For a memory size and a page size below 2^64, MAX_THREADS at least MIN_THREADS, stacks that are
-- not empty, and MAX_THREADS of them in at most 2^60 bytes: `set_max_threads` sets what its formula
-- gives without overflow, the smaller one of the suggestion and an eighth of the memory in stacks,
-- put between MIN_THREADS and MAX_THREADS; it is MIN_THREADS, or it is not above the suggestion and
-- the stacks of so many threads take at most an eighth of the memory.
pub set_max_threads-bounds :
    (z : Machine) (nr_pages suggested : ℕ)
    → nr_pages < 2 ^ 64
    → z.page_size < 2 ^ 64
    → min_threads ≤ z.max_threads_limit
    → 1 ≤ z.thread_size
    → z.max_threads_limit * (z.thread_size * 8) ≤ 2 ^ 63
    → (set_max_threads z nr_pages suggested
        ≡ max min_threads (
            min z.max_threads_limit (min suggested (nr_pages * z.page_size / (z.thread_size * 8)))))
      × (min_threads ≤ set_max_threads z nr_pages suggested)
      × (set_max_threads z nr_pages suggested ≤ z.max_threads_limit)
      × ((set_max_threads z nr_pages suggested ≡ min_threads)
          ⊎ ((set_max_threads z nr_pages suggested ≤ suggested)
              × (set_max_threads z nr_pages suggested * (z.thread_size * 8)
                  ≤ nr_pages * z.page_size)))
set_max_threads-bounds z nr_pages suggested l k range stack room =
    let (low, high, rest) = in_range z nr_pages l k range stack room suggested in
    (
      exact z nr_pages l k range stack room suggested,
      low,
      high,
      elim rest [ inl e ↦ inl e | inr (a, b) ↦ inr (a, fits z nr_pages l k range stack room _ b) ],
    )

-- From a number in its range `sysctl_max_threads` leads to one in its range, and changes it only in a
-- write that answers 0.
pub sysctl_max_threads-bounds :
    (z : Machine) (lib : Sysctl) (write : Bool) (max_threads : ℕ)
    → 1 ≤ max_threads
    → max_threads ≤ z.max_threads_limit
    → (1 ≤ (sysctl_max_threads z lib write max_threads).1)
      × ((sysctl_max_threads z lib write max_threads).1 ≤ z.max_threads_limit)
      × (((sysctl_max_threads z lib write max_threads).1 ≡ max_threads)
          ⊎ ((write ≡ true) × ((sysctl_max_threads z lib write max_threads).0 ≡ pos 0)))
unfolding sysctl_max_threads
sysctl_max_threads-bounds z lib false max_threads l k = ground (arith, l, k)
sysctl_max_threads-bounds z lib true max_threads l k =
    let r = lib.dointvec true 1 z.max_threads_limit max_threads in
    elim (Bool-cases (eq_ℤ r.0 (pos 0))) [
      | inl b ↦
          let h = lib.in_range 1 z.max_threads_limit max_threads ((eq_ℤ_iff r.0 (pos 0)).0 b) l k in
          rw (b) (h.0, h.1, inr (refl, refl))
      | inr b ↦ rw (b) (l, k, inl refl)
    ]
