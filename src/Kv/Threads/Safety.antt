-- ===== src/Kv/Threads/Safety.antt =====
-- What the bucket locks of kv_store.c protect: every interleaving of calls keeps the store well
-- formed, and every call takes effect at once.
use oshome_work.Base.{
  ℕ, ◌≡◌, refl, sym, subst, ◌≢◌, ◌⊎◌, inl, inr, true, false, none, some, arith, ℕ_discrete,
  Bool-cases, Option-cases, update,
}
use oshome_work.Base.Int.{ℤ, pos, minus_one, eq_ℤ_iff}
use oshome_work.Kv.Threads.Invariant.{Inv, Reach-Inv, start}
use oshome_work.Kv.Calls.{answer}
use oshome_work.Kv.Threads.Sequential.{
  start_read, Act, do_read, Call, start_write, do_write, resting, writing, reading, answered,
  finish,
}
use oshome_work.Kv.Bucket.{find_node, value_of, find_node-set_value}
use oshome_work.Kv.Invariant.{IsPlaced, view, map_write}
use oshome_work.Kv.{read_locked, KvStore, bucket_of, set_head}
use oshome_work.Kv.Threads.{
  begin_read, no_room, Pc, idle, write_lock, write_search, write_found, write_missing, read_lock,
  read_search, leave, inside, with_lock, Move, begin_write, lock_write, hit, miss, assign, insert,
  lock_read, look, unlock, System, Step, pick, Reach,
}

-- The call that a thread is in.
abbrev pub call_of : Pc → Call
call_of idle = resting
call_of (write_lock k v) = writing k v
call_of (write_search k v) = writing k v
call_of (write_found k v) = writing k v
call_of (write_missing k v) = writing k v
call_of (read_lock k) = reading k
call_of (read_search k) = reading k
call_of (leave h ret) = answered ret

-- What one step is on the map: nothing that can be seen, or an act of one thread.
pub data Effect (σ τ : System) : Type 0 where
  quiet :
      ((j : ℤ) → view τ.store j ≡ view σ.store j)
      → ((j : ℕ) → call_of (τ.pc j) ≡ call_of (σ.pc j))
      → Effect σ τ
  acted :
      (i : ℕ)
      → Act (view σ.store) (view τ.store) (call_of (σ.pc i)) (call_of (τ.pc i))
      → ((j : ℕ) → j ≢ i → call_of (τ.pc j) ≡ call_of (σ.pc j))
      → Effect σ τ

module _ {s : KvStore} {pc : ℕ → Pc} (inv : Inv (record { store = s; pc = pc })) (i : ℕ) where
  -- A step within a call.
  within :
      (p p' : Pc) (t : KvStore)
      → pc i ≡ p
      → ((j : ℤ) → view t j ≡ view s j)
      → call_of p' ≡ call_of p
      → Effect (record { store = s; pc = pc }) (record { store = t; pc = update pc i p' })
  within p p' t e same q =
      quiet same (λ j. elim (ℕ_discrete j i) [
        | yes h ↦ ground (arith, h, e, q)
        | no ne ↦ ground (arith, ne)
      ])

  -- A step from one call to the next.
  between :
      (p p' : Pc) (t : KvStore)
      → pc i ≡ p
      → Act (view s) (view t) (call_of p) (call_of p')
      → Effect (record { store = s; pc = pc }) (record { store = t; pc = update pc i p' })
  between p p' t e act =
      acted i
        (subst (λ q. Act (view s) (view t) (call_of q) (call_of (update pc i p' i))) (sym e)
          (subst (λ q. Act (view s) (view t) (call_of p) (call_of q)) (sym (updated p')) act))
        (λ j ne. ground (arith, ne))
    where
      updated : (p' : Pc) → update pc i p' i ≡ p'
      updated p' = ground arith

  Move-Effect :
      {p p' : Pc} {t : KvStore}
      → Move s p t p'
      → pc i ≡ p
      → Effect (record { store = s; pc = pc }) (record { store = t; pc = update pc i p' })
  unfolding set_head view map_write value_of find_node answer read_locked
  Move-Effect (begin_write k v) e = between idle _ s e (start_write k v (λ j. refl))
  Move-Effect (begin_read k) e = between idle _ s e (start_read k (λ j. refl))
  Move-Effect (lock_write {k} {v} f) e = within (write_lock k v) _ _ e (λ j. refl) refl
  Move-Effect (lock_read {k} f) e = within (read_lock k) _ _ e (λ j. refl) refl
  Move-Effect (hit {k} {v} n f) e = within (write_search k v) _ s e (λ j. refl) refl
  Move-Effect (miss {k} {v} f) e = within (write_search k v) _ s e (λ j. refl) refl
  Move-Effect (assign {k} {v}) e =
      let ns = s.head (bucket_of k) in
      elim (Option-cases (find_node k ns)) [
        | inl q ↦ absurd (ground (arith, inv.knows i))
        | inr (n, q) ↦ between (write_found k v) _ _ e (
            do_write true (λ j. ground (arith, eq_ℤ_iff k j, find_node-set_value j k v ns n q))
              (pos 4) (ground arith))
      ]
  Move-Effect (insert {k} {v}) e =
      between (write_missing k v) _ _ e
        (do_write true (λ j. ground (arith, eq_ℤ_iff k j)) (pos 4) (ground arith))
  Move-Effect (no_room {k} {v}) e =
      let absent : find_node k (s.head (bucket_of k)) ≡ none = ground (arith, inv.knows i) in
      between (write_missing k v) _ s e
        (do_write false (λ j. ground (arith, absent)) minus_one (ground (arith, absent)))
  Move-Effect (look {k}) e = between (read_search k) _ s e (do_read (λ j. refl) _ (ground arith))
  Move-Effect (unlock {h} {ret}) e = between (leave h ret) _ _ e (finish (λ j. refl))

-- A thread that holds a lock can always take its next step.
inside-Move :
    (s : KvStore) (p : Pc) (h : ℕ) → inside p ≡ some h → (t : KvStore) × (p' : Pc) × Move s p t p'
inside-Move s idle h q = absurd (ground arith)
inside-Move s (write_lock k v) h q = absurd (ground arith)
inside-Move s (write_search k v) h q = elim (Option-cases (find_node k (s.head (bucket_of k)))) [
  | inl e ↦ (_, _, miss e)
  | inr (n, e) ↦ (_, _, hit n e)
]
inside-Move s (write_found k v) h q = (_, _, assign)
inside-Move s (write_missing k v) h q = (_, _, insert)
inside-Move s (read_lock k) h q = absurd (ground arith)
inside-Move s (read_search k) h q = (_, _, look)
inside-Move s (leave l ret) h q = (_, _, unlock)

module _ (s : KvStore) (τ : System) (placed : IsPlaced s) (free : (h : ℕ) → s.locks h ≡ false)
    (r : Reach (start s) τ) where
  -- However the calls of the threads interleave from a well-formed store with free locks, two
  -- different threads are never at once between the lock and the unlock of one bucket.
  pub mutual_exclusion : (i j h : ℕ) → inside (τ.pc i) ≡ some h → inside (τ.pc j) ≡ some h → i ≡ j
  mutual_exclusion = (Reach-Inv placed free r).unique

  -- However the calls of the threads interleave from a well-formed store with free locks, no key is
  -- ever stored twice or outside its bucket.
  pub Reach-IsPlaced : IsPlaced τ.store
  Reach-IsPlaced = (Reach-Inv placed free r).placed

  -- In every system that the threads of a process can reach from a well-formed store with free
  -- locks, each further step can be seen neither in the map of the store nor in what any thread has
  -- asked for or is answered, or it is one act of one thread as if the calls were made one after
  -- the other: a call is begun; a write changes the map at its key alone and answers 4, or without
  -- room for a new key changes nothing and answers -1; a read changes nothing and answers the value
  -- of its key or -1; or an answer is given.
  pub Step-Effect : (υ : System) → Step τ υ → Effect τ υ
  Step-Effect υ (pick i mv) = Move-Effect (Reach-Inv placed free r) i mv refl

  -- In every system that the threads can reach from a well-formed store with free locks, while a
  -- thread waits for a lock some thread inside a call has a next step.
  pub no_deadlock :
      (i : ℕ) (k v : ℤ)
      → (τ.pc i ≡ write_lock k v) ⊎ (τ.pc i ≡ read_lock k)
      → (j : ℕ) × (t : KvStore) × (p : Pc) × (τ.pc j ≢ idle) × Move τ.store (τ.pc j) t p
  no_deadlock i k v waits = elim (Bool-cases (τ.store.locks (bucket_of k))) [
    | inl taken ↦
        let (j, own) = (Reach-Inv placed free r).owned (bucket_of k) taken in
        let (t, p, mv) = inside-Move τ.store (τ.pc j) (bucket_of k) own in
        (j, t, p, (λ e. ground (arith, e, own)), mv)
    | inr open_lock ↦ elim waits [
      | inl e ↦ (
        i,
        with_lock (bucket_of k) true τ.store,
        write_search k v,
        (λ e'. ground (arith, e, e')),
        rw e (lock_write open_lock),
      )
      | inr e ↦ (
        i,
        with_lock (bucket_of k) true τ.store,
        read_search k,
        (λ e'. ground (arith, e, e')),
        rw e (lock_read open_lock),
      )
    ]
  ]
