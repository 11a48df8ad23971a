-- ===== src/Kv/Threads/Invariant.antt =====
-- kv_store.c: what holds of the store and of the threads between any two steps.
use oshome_work.Base.{ℕ, ◌≡◌, refl, ◌≢◌, true, false, none, some, arith, ℕ_discrete, update}
use oshome_work.Base.Int.{eq_ℤ_iff}
use oshome_work.Kv.Bucket.{find_node, count_key, count_key-find_none, count_key-set_value}
use oshome_work.Kv.Invariant.{IsPlaced}
use oshome_work.Kv.{KvStore, bucket_of, set_head}
use oshome_work.Kv.Threads.{
  Pc, idle, write_found, write_missing, inside, Move, begin_write, lock_write, hit, miss, assign,
  insert, lock_read, System, Step, pick, Reach, here, later,
}

-- What the position of a thread says about the store.
abbrev pub Knows : KvStore → Pc → Type 0
Knows s (write_found k v) = find_node k (s.head (bucket_of k)) ≢ none
Knows s (write_missing k v) = find_node k (s.head (bucket_of k)) ≡ none
Knows s _ = Unit {0}

pub record Inv (σ : System) : Type 0 where
  pub locked : (i h : ℕ) → inside (σ.pc i) ≡ some h → σ.store.locks h ≡ true
  pub unique : (i j h : ℕ) → inside (σ.pc i) ≡ some h → inside (σ.pc j) ≡ some h → i ≡ j
  pub knows : (i : ℕ) → Knows σ.store (σ.pc i)
  pub placed : IsPlaced σ.store
  pub owned : (h : ℕ) → σ.store.locks h ≡ true → (i : ℕ) × (inside (σ.pc i) ≡ some h)

module _ {s : KvStore} {pc : ℕ → Pc} (inv : Inv (record { store = s; pc = pc })) (i : ℕ) where
  open inv use {locked, unique, knows, placed, owned}

  Move-locked :
      {p p' : Pc} {t : KvStore}
      → Move s p t p'
      → pc i ≡ p
      → (j h : ℕ) → inside (update pc i p' j) ≡ some h
      → t.locks h ≡ true
  unfolding set_head
  Move-locked (begin_write k v) e j h q = ground (arith, locked j h)
  Move-locked mv e j h q = ground (arith, locked j h, locked i h, unique i j h)

  Move-unique :
      {p p' : Pc} {t : KvStore}
      → Move s p t p'
      → pc i ≡ p
      → (a b h : ℕ) → inside (update pc i p' a) ≡ some h
      → inside (update pc i p' b) ≡ some h
      → a ≡ b
  Move-unique (begin_write k v) e a b h qa qb = ground (arith, unique a b h)
  Move-unique (lock_write f) e a b h qa qb = ground (arith, unique a b h, locked a h, locked b h, f)
  Move-unique (lock_read f) e a b h qa qb = ground (arith, unique a b h, locked a h, locked b h, f)
  Move-unique mv e a b h qa qb =
      ground (arith, unique a b h, unique i a h, unique i b h, locked a h, locked b h)

  Move-find :
      {p p' : Pc} {t : KvStore} → Move s p t p' → pc i ≡ p → (j : ℕ) → Knows t (update pc i p' j)
  unfolding set_head
  Move-find (begin_write k v) e j = ground (arith, knows j)
  Move-find (hit n f) e j = ground (arith, knows j, f)
  Move-find (miss f) e j = ground (arith, knows j, f)
  Move-find (assign {k} {v}) e j = ground (arith, knows j, unique i j (bucket_of k))
  Move-find (insert {k} {v}) e j = ground (arith, knows j, unique i j (bucket_of k))
  Move-find mv e j = ground (arith, knows j)

  Move-IsPlaced : {p p' : Pc} {t : KvStore} → Move s p t p' → pc i ≡ p → IsPlaced t
  unfolding set_head count_key
  Move-IsPlaced (assign {k} {v}) e j b q =
      ground (arith, placed j b q, count_key-set_value j k v (s.head (bucket_of k)))
  Move-IsPlaced (insert {k} {v}) e j b q =
      ground
        (arith, placed j b q, knows i, eq_ℤ_iff k j, count_key-find_none k (s.head (bucket_of k)))
  Move-IsPlaced mv e j b q = ground (arith, placed j b q)

  Move-owned :
      {p p' : Pc} {t : KvStore}
      → Move s p t p'
      → pc i ≡ p
      → (h : ℕ) → t.locks h ≡ true
      → (j : ℕ) × (inside (update pc i p' j) ≡ some h)
  unfolding set_head
  Move-owned (lock_write {k} f) e h q = elim (ℕ_discrete (bucket_of k) h) [
    | yes same ↦ (i, ground arith)
    | no other ↦ let (j, own) = owned h (ground arith) in (j, ground arith)
  ]
  Move-owned (lock_read {k} f) e h q = elim (ℕ_discrete (bucket_of k) h) [
    | yes same ↦ (i, ground arith)
    | no other ↦ let (j, own) = owned h (ground arith) in (j, ground arith)
  ]
  Move-owned mv e h q = let (j, own) = owned h (ground arith) in (j, ground arith)

-- The system at the start: every thread idle, on a well-formed store whose locks are free.
abbrev pub start : KvStore → System
start s = record { store = s; pc = λ _. idle }

Step-Inv : {σ τ : System} → Step σ τ → Inv σ → Inv τ
Step-Inv (pick i mv) inv = record {
  locked = Move-locked inv i mv refl;
  unique = Move-unique inv i mv refl;
  knows = Move-find inv i mv refl;
  placed = Move-IsPlaced inv i mv refl;
  owned = Move-owned inv i mv refl;
}

pub Reach-Inv :
    {s : KvStore} {τ : System}
    → IsPlaced s
    → ((h : ℕ) → s.locks h ≡ false)
    → Reach (start s) τ
    → Inv τ
Reach-Inv placed free here = record {
  locked = λ i h q. cc;
  unique = λ i j h q r. cc;
  knows = λ i. tt;
  placed = placed;
  owned = λ h q. absurd (ground (arith, free h));
}
Reach-Inv placed free (later r st) = Step-Inv st (Reach-Inv placed free r)
