-- ===== src/Stack/Charged.antt =====
-- linux-5.15.178/kernel/fork.c: the loops over the pages of a stack and over the slots of the cache.
use oshome_work.Base.{
  ℕ, zero, suc, ◌+◌, ◌≡◌, refl, ◌∙◌, inl, inr, Bool, true, false, ◌&&◌, Option, none, some, List,
  [], ◌∷◌, arith, ltb, leb, ◌==◌, if◌then◌else◌, Bool-cases, is_some,
}
use oshome_work.Stack.{take_cached, charge_pages, uncharge_pages, set_charged, put_cached, Errno}

-- A page that a loop over the `n` pages from `i` on reaches.
abbrev pub reaches : (n stack i q j : ℕ) → Bool
reaches n p i q j = p == q && leb i j && ltb j (i + n)

pub uncharge_pages_lem :
    (n p i : ℕ) (charged : (stack i : ℕ) → Bool) (q j : ℕ)
    → uncharge_pages n p i charged q j ≡ (if reaches n p i q j then false else charged q j)
unfolding uncharge_pages
uncharge_pages_lem zero p i charged q j = ground arith
uncharge_pages_lem (suc n) p i charged q j =
    ground (arith, uncharge_pages_lem n p (i + 1) (set_charged p i false charged) q j)

-- What is charged is charged, and nothing else changes.
pub charge_pages-other :
    (charge : ℕ → Option Errno) (n p i : ℕ) (charged : (stack i : ℕ) → Bool) (q j : ℕ)
    → reaches n p i q j ≡ false
    → (charge_pages charge n p i charged).1 q j ≡ charged q j
unfolding charge_pages
charge_pages-other charge zero p i charged q j h = refl
charge_pages-other charge (suc n) p i charged q j h =
    let P = λ (r : Option Errno × ((stack i : ℕ) → Bool)). r.1 q j ≡ charged q j in
    elim (charge i)
      as (λ o. P (elim o [
        | some e ↦ (some e, charged)
        | none ↦ charge_pages charge n p (i + 1) (set_charged p i true charged)
      ])) [
        | some e ↦ refl
        | none ↦
            charge_pages-other charge n p (i + 1) (set_charged p i true charged) q j
              (ground (arith, h))
            ∙ ground (arith, h)
      ]

pub charge_pages-all :
    (charge : ℕ → Option Errno) (n p i : ℕ) (charged : (stack i : ℕ) → Bool) (q j : ℕ)
    → (charge_pages charge n p i charged).0 ≡ none
    → reaches n p i q j ≡ true
    → (charge_pages charge n p i charged).1 q j ≡ true
unfolding charge_pages
charge_pages-all charge zero p i charged q j = λ e h. absurd (ground arith)
charge_pages-all charge (suc n) p i charged q j =
    let P = λ (r : Option Errno × ((stack i : ℕ) → Bool)).
      r.0 ≡ none → reaches (suc n) p i q j ≡ true → r.1 q j ≡ true in
    elim (charge i)
      as (λ o. P (elim o [
        | some e ↦ (some e, charged)
        | none ↦ charge_pages charge n p (i + 1) (set_charged p i true charged)
      ])) [
        | some e ↦ λ k h. absurd (ground arith)
        | none ↦ λ k h. elim (Bool-cases (reaches n p (i + 1) q j)) [
          | inl r ↦ charge_pages-all charge n p (i + 1) (set_charged p i true charged) q j k r
          | inr r ↦
              charge_pages-other charge n p (i + 1) (set_charged p i true charged) q j r
              ∙ ground (arith, h, r)
        ]
      ]

-- The slots that hold a stack.
unfoldable pub filled : List (Option ℕ) → ℕ
filled [] = 0
filled (none ∷ cs) = filled cs
filled (some p ∷ cs) = suc (filled cs)

pub take_cached-filled :
    (cs : List (Option ℕ))
    → filled cs ≡ filled (take_cached cs).1 + (if is_some (take_cached cs).0 then 1 else 0)
unfolding take_cached filled
take_cached-filled [] = omega arith
take_cached-filled (none ∷ cs) = take_cached-filled cs
take_cached-filled (some p ∷ cs) = omega arith

pub put_cached-filled :
    (p : ℕ) (cs : List (Option ℕ))
    → filled (put_cached p cs).1 ≡ filled cs + (if (put_cached p cs).0 then 1 else 0)
unfolding put_cached filled
put_cached-filled p [] = omega arith
put_cached-filled p (none ∷ cs) = omega arith
put_cached-filled p (some q ∷ cs) = omega (arith, put_cached-filled p cs)
