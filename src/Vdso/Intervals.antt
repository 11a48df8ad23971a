-- ===== src/Vdso/Intervals.antt =====
-- linux-5.15.178/arch/x86/entry/vdso: a memory manager that keeps its areas as intervals, for the
-- tests.
use oshome_work.Base.{
  ℕ, ◌+◌, ◌-◌, ◌≤◌, ◌<◌, min, max, ◌≡◌, refl, sym, ap, ◌∙◌, ◌⊎◌, inl, inr, Option, none, some, List,
  [], ◌∷◌, arith, dec_lt,
}
use oshome_work.Vdso.Map.{AreaKind, overlay, mapped, Area, Memory}

-- Above every area.
pub top : List Area → ℕ
top [] = 0
top (x ∷ xs) = max (x.vm_start + x.len) (top xs)

pub mapped-top : (m : List Area) (a : ℕ) → top m ≤ a → mapped m a ≡ none
unfolding top
mapped-top [] a h = refl
mapped-top (x ∷ xs) a h = ground (arith, mapped-top xs a)

below : ℕ → Area → Area
below start x = record {
  vm_start = x.vm_start;
  len = min (x.vm_start + x.len) start - x.vm_start;
  kind = x.kind;
}

above : ℕ → Area → Area
above end x = record {
  vm_start = max x.vm_start end;
  len = x.vm_start + x.len - max x.vm_start end;
  kind = x.kind;
}

pub cut : (start len : ℕ) → List Area → List Area
cut start len [] = []
cut start len (x ∷ xs) = below start x ∷ above (start + len) x ∷ cut start len xs

mapped_two : (start len : ℕ) → Area → ℕ → Option AreaKind → Option AreaKind
mapped_two start len x a old =
    let b = below start x in
    let c = above (start + len) x in
    overlay b.vm_start b.len (some b.kind) a (overlay c.vm_start c.len (some c.kind) a old)

overlay_in :
    (start len : ℕ) (k : Option AreaKind) (a : ℕ) (old : Option AreaKind)
    → start ≤ a
    → a < start + len
    → overlay start len k a old ≡ k
overlay_in start len k a old p q = ground arith

overlay_out :
    (start len : ℕ) (k : Option AreaKind) (a : ℕ) (old : Option AreaKind)
    → (a < start) ⊎ (start + len ≤ a)
    → overlay start len k a old ≡ old
overlay_out start len k a old h = ground arith

in_or_out :
    (start len a : ℕ) → ((start ≤ a) × (a < start + len)) ⊎ ((a < start) ⊎ (start + len ≤ a))
in_or_out start len a = elim (dec_lt a start) [
  | yes p ↦ inr (inl p)
  | no p ↦ elim (dec_lt a (start + len)) [
    | yes q ↦ inl (omega arith, q)
    | no q ↦ inr (inr (omega arith))
  ]
]

-- The two pieces of an area show the area outside the cut, and nothing inside it.
pieces :
    (start len a : ℕ) (x : Area) (old : Option AreaKind)
    → mapped_two start len x a (overlay start len none a old)
      ≡ overlay start len none a (overlay x.vm_start x.len (some x.kind) a old)
unfolding mapped_two below above
pieces start len a x old = elim (in_or_out start len a) [
  | inl (p, q) ↦
      overlay_out _ _ _ a _ (omega arith)
      ∙ overlay_out _ _ _ a _ (omega arith)
      ∙ overlay_in start len none a old p q
      ∙ sym (overlay_in start len none a _ p q)
  | inr out ↦
      ap (mapped_two start len x a) (overlay_out start len none a old out)
      ∙ elim (in_or_out x.vm_start x.len a) [
        | inl (p, q) ↦
            elim out [
              | inl low ↦ overlay_in _ _ _ a _ (omega arith) (omega arith)
              | inr high ↦
                  overlay_out _ _ _ a _ (omega arith)
                  ∙ overlay_in _ _ _ a _ (omega arith) (omega arith)
            ]
            ∙ sym (
                overlay_out start len none a _ out
                ∙ overlay_in x.vm_start x.len (some x.kind) a old p q)
        | inr off ↦
            overlay_out _ _ _ a _ (omega arith)
            ∙ overlay_out _ _ _ a _ (omega arith)
            ∙ sym (
                overlay_out start len none a _ out
                ∙ overlay_out x.vm_start x.len (some x.kind) a old off)
      ]
]

pub mapped-cut :
    (start len : ℕ) (m : List Area) (a : ℕ)
    → mapped (cut start len m) a ≡ overlay start len none a (mapped m a)
unfolding cut mapped_two
mapped-cut start len [] a = elim (in_or_out start len a) [
  | inl (p, q) ↦ sym (overlay_in start len none a none p q)
  | inr out ↦ sym (overlay_out start len none a none out)
]
mapped-cut start len (x ∷ xs) a =
    ap (mapped_two start len x a) (mapped-cut start len xs a) ∙ pieces start len a x (mapped xs a)

unfoldable pub memory : Memory
memory = record {
  get_unmapped_area = λ addr len m. inr (top m);
  install_special_mapping =
      λ start len k m. inr (record { vm_start = start; len = len; kind = k } ∷ m);
  do_munmap = cut;
  unmapped = λ addr len start m h a p q. mapped-top m a (ground arith);
  installed = λ start len k m t h a. ground arith;
  removed = mapped-cut;
}
