-- ===== src/Base/Maps.antt =====
-- Arrays and heaps as functions from an index: update at one place, sums over a range.
use Prim.Native.Nat.{ℕ, zero, suc, ◌+◌, ◌<◌, ◌≤◌}
use mathlib.Core.Option.{Option, none, some}
use mathlib.Core.Path.{◌≡◌, refl}
use mathlib.Core.Logic.{◌≢◌}
use native.Mathlib.Omega.{arith}
use native.Mathlib.Decide.{dec_le}
use native.Mathlib.Numerals.{add-one}
use oshome_work.Base.Tests.{◌==◌, if◌then◌else◌}

abbrev pub update {ℓ} : {A : Type ℓ} → (ℕ → A) → ℕ → A → ℕ → A
update f i a j = if i == j then a else f j

-- The sum of `f` over the first `n` indices.
pub total : ℕ → (ℕ → ℕ) → ℕ
total zero f = 0
total (suc n) f = total n f + f n

pub total-congr : (n : ℕ) (f g : ℕ → ℕ) → ((i : ℕ) → i < n → f i ≡ g i) → total n f ≡ total n g
unfolding total
total-congr zero f g h = refl
total-congr (suc n) f g h =
    omega (arith, total-congr n f g (λ i p. h i (omega arith)), h n (omega arith))

-- Changing one summand changes the sum by as much.
pub total_change :
    (n : ℕ) (f g : ℕ → ℕ) (i : ℕ)
    → i < n
    → ((j : ℕ) → i ≢ j → f j ≡ g j)
    → total n g + f i ≡ total n f + g i
unfolding total
total_change zero f g i p h = absurd (omega arith)
total_change (suc n) f g i p h = ground (arith, total_last, h n, total_change n f g i)
  where
    total_last : i ≡ n → total n f ≡ total n g
    total_last e = total-congr n f g (λ j q. h j (omega arith))

pub total_step : (n : ℕ) (f : ℕ → ℕ) → total (n + 1) f ≡ total n f + f n
unfolding total
total_step n f = rw add-one

pub total_mono : (n m : ℕ) (f : ℕ → ℕ) → n ≤ m → total n f ≤ total m f
unfolding total
total_mono n zero f h = let e : n ≡ 0 = omega arith in rw e (omega arith)
total_mono n (suc m) f h = elim (dec_le n m) [
  | yes p ↦ omega (arith, total_mono n m f p)
  | no p ↦ let e : n ≡ suc m = omega arith in rw e (omega arith)
]

pub total_le : (n : ℕ) (f g : ℕ → ℕ) → ((i : ℕ) → f i ≤ g i) → total n f ≤ total n g
unfolding total
total_le zero f g h = omega arith
total_le (suc n) f g h = omega (arith, total_le n f g h, h n)

pub total-zero : (f : ℕ → ℕ) → total 0 f ≡ 0
unfolding total
total-zero f = refl

pub total-eq-zero : (n : ℕ) (f : ℕ → ℕ) → ((i : ℕ) → i < n → f i ≡ 0) → total n f ≡ 0
unfolding total
total-eq-zero zero f h = refl
total-eq-zero (suc n) f h =
    omega (arith, total-eq-zero n f (λ i p. h i (omega arith)), h n (omega arith))

-- How often a pointer that may be null is a given one.
abbrev pub holds : Option ℕ → ℕ → ℕ
holds none p = 0
holds (some q) p = if q == p then 1 else 0
