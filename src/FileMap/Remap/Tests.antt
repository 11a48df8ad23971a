-- ===== src/FileMap/Remap/Tests.antt =====
-- memctrl/mmap/impl.c: an area of two pages of 4 bytes is moved from 8 to 64.
use oshome_work.Base.{
  ℕ, zero, suc, ◌+◌, ◌-◌, ◌*◌, ◌/◌, ◌<◌, ◌≡◌, refl, ap, subst, inl, inr, Bool, true, false, ◌&&◌,
  Option, none, some, arith, ltb, leb, ◌==◌, if◌then◌else◌, Bool-cases, either_if,
}
use oshome_work.FileMap.Remap.{Mman, Space}

unused : Space → (start size : ℕ) → Bool
unused m start zero = true
unused m start (suc n) = elim (m (start + n)) [ none ↦ unused m start n | some v ↦ false ]

unused-none :
    (m : Space) (start size i : ℕ) → unused m start size ≡ true → i < size → m (start + i) ≡ none
unfolding unused
unused-none m start zero i e l = absurd (omega arith)
unused-none m start (suc n) i e l = elim (Bool-cases (i == n)) [
  | inl b ↦ ground (arith, b, e)
  | inr b ↦ unused-none m start n i (ground (arith, e)) (ground (arith, b, l))
]

abbrev zeros : (p size : ℕ) → Space → Space
zeros p size m q = if leb p q && ltb q (p + size) then some 0 else m q

map_at : (size : ℕ) → Space → Option (ℕ × Space)
map_at size m = if unused m 64 size then some (64, zeros 64 size m) else none

abbrev round : ℕ → ℕ
round size = (size + 3) / 4 * 4

-- Larger areas are refused.
abbrev drop : (start size : ℕ) → Space → Space
drop start size m q = if leb start q && ltb q (start + round size) then none else m q

-- What `mmap` promises.
Fresh : ℕ → Space → Option (ℕ × Space) → Type 0
Fresh size m none = map_at size m ≡ none
Fresh size m (some (p, n)) =
    ((i : ℕ) → i < size → (m (p + i) ≡ none) × (n (p + i) ≡ some 0))
    × ((q v : ℕ) → m q ≡ some v → n q ≡ some v)

map_at-Fresh : (size : ℕ) (m : Space) → Fresh size m (map_at size m)
unfolding map_at Fresh
map_at-Fresh size m =
    either_if (Fresh size m) (unused m 64 size)
      (λ b. (
        (λ i l. (unused-none m 64 size i b l, ground (arith, l))),
        (λ q v k. elim (Bool-cases (leb 64 q && ltb q (64 + size))) [
          | inl c ↦
              let h = unused-none m 64 size (q - 64) b (ground (arith, c)) in
              let at : 64 + (q - 64) ≡ q = ground (arith, c) in
              absurd (ground (arith, ap m at, h, k))
          | inr c ↦ rw (c) k
        ]),
      ))
      (λ b. rw (b) refl)

map_at-fresh :
    (size : ℕ) (m : Space) (p : ℕ) (n : Space)
    → map_at size m ≡ some (p, n)
    → ((i : ℕ) → i < size → (m (p + i) ≡ none) × (n (p + i) ≡ some 0))
      × ((q v : ℕ) → m q ≡ some v → n q ≡ some v)
unfolding Fresh
map_at-fresh size m p n e = subst (Fresh size m) e (map_at-Fresh size m)

mman : Mman
mman = record {
  page = 4;
  mmap = map_at;
  memcpy = λ d s c m q. if leb d q && ltb q (d + c) then m (s + (q - d)) else m q;
  munmap = λ start size m. if leb size 12 then (true, drop start size m) else (false, m);
  rounded = round;
  rounded_ge = λ size. omega arith;
  fresh = map_at-fresh;
  copied = λ d s c m h k o. (
    (λ i l.
        let z : (leb d (d + i) && ltb (d + i) (d + c)) ≡ true = ground (arith, l) in
        let at : s + (d + i - d) ≡ s + i = omega arith in rw (z) (ap m at)),
    (λ q l. ground (arith, l)),
  );
  unmapped =
      λ start size m e b. ((λ q l k. ground (arith, b, l, k)), (λ q l. ground (arith, b, l)));
  refused = λ start size m b q. ground (arith, b);
}

-- The byte at each address is the address.
abbrev space : Space
space q = if ltb q 20 then some q else none
