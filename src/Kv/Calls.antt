-- ===== src/Kv/Calls.antt =====
-- The two system calls of kv_store.c against the map that the store stands for.
use oshome_work.Base.{
  ap, ◌↔◌, ◌⊎◌, fun_ext, ℕ, ◌+◌, ◌≡◌, refl, ◌∙◌, Bool, true, false, ◌||◌, Option, none, some, arith,
  if◌then◌else◌, update,
}
use oshome_work.Base.Int.{eq_ℤ, ℤ, pos, minus_one}
use oshome_work.Base.Run.{fault, null_pointer, ◌>>=◌, ok, Returns}
use oshome_work.Kv.{
  KvStore, Task, Kernel, bucket_of, deref, put_store, write_locked, write_kv, read_kv,
}
use oshome_work.Kv.Invariant.{
  IsPlaced, view, is_some, map_write, size, write_locked-IsPlaced, view-write_locked,
  write_locked_result, write_locked-locks, size-write_locked,
}

-- The store behind the task's pointer is `s`, well formed, and the lock of key `k` is free.
pub record Ready (task : Task) (m : Kernel) (k : ℤ) (s : KvStore) : Type 0 where
  pub found : deref m task.kv ≡ ok s
  pub free : s.locks (bucket_of k) ≡ false
  pub placed : IsPlaced s

deref-put_store :
    (m : Kernel) (p : Option ℕ) (s t : KvStore)
    → deref m p ≡ ok s
    → deref (put_store m p t) p ≡ ok t
unfolding deref put_store
deref-put_store m none s t h = cc
deref-put_store m (some p) s t h = ground arith

-- What a write leaves behind.
pub record Wrote (room : Bool) (k v : ℤ) (task : Task) (m : Kernel) (s : KvStore) (r : ℤ × Kernel)
    : Type 0 where
  pub after : KvStore
  pub found : deref r.1 task.kv ≡ ok after
  pub placed : IsPlaced after
  pub locks : (i : ℕ) → after.locks i ≡ s.locks i
  pub maps : (j : ℤ) → view after j ≡ map_write room k v (view s) j
  pub result : r.0 ≡ (if is_some (view s k) || room then pos 4 else minus_one)
  pub counted : r.1.nodes + size s ≡ m.nodes + size after

module _ (k v : ℤ) (task : Task) (m : Kernel) {s : KvStore} (ready : Ready task m k s) where
  held : KvStore
  held = record s { locks = update s.locks (bucket_of k) true }

  -- The store after the unlock.
  released : Bool → KvStore
  released room =
      let t = (write_locked room k v held).1 in
      record t { locks = update t.locks (bucket_of k) false }

  after_write : Bool → ℤ × Kernel
  after_write room = (
    (write_locked room k v held).0,
    record (put_store m task.kv (released room)) {
      nodes = m.nodes + (write_locked room k v held).2;
    },
  )

  write_kv-eq : (room : Bool) → write_kv room k v task m ≡ ok (after_write room)
  unfolding write_kv after_write released held
  write_kv-eq room =
      ground (arith, ready.found, ready.free, write_locked-locks room k v held (bucket_of k))

  deref_same_nodes :
      (σ : Kernel) (n : ℕ) (p : Option ℕ) → deref (record σ { nodes = n }) p ≡ deref σ p
  unfolding deref
  deref_same_nodes σ n none = refl
  deref_same_nodes σ n (some p) = refl

  -- For a task whose store is well formed and whose lock of the key is free, `write_kv` ends
  -- without a fault: the map of the store changes at the key alone, and only where the key was
  -- there or memory was given; it answers 4 then and -1 otherwise, keeps the store well formed and
  -- every lock as it was, and counts each new node once.
  pub write_kv-Wrote : (room : Bool) → Returns (write_kv room k v task m) (Wrote room k v task m s)
  unfolding held released after_write view size
  write_kv-Wrote room = (
    after_write room,
    write_kv-eq room,
    record {
      after = released room;
      found =
          deref_same_nodes (put_store m task.kv (released room)) _ task.kv
          ∙ deref-put_store m task.kv s (released room) ready.found;
      placed = write_locked-IsPlaced room k v held ready.placed;
      locks = λ i. ground (arith, ready.free, write_locked-locks room k v held i);
      maps = view-write_locked room k v held;
      result = write_locked_result room k v held;
      counted = omega (arith, size-write_locked room k v held);
    },
  )

-- What a read answers, from the map alone.
unfoldable pub answer : Option ℤ → ℤ
answer none = minus_one
answer (some v) = v

relock :
    (s : KvStore) (h : ℕ)
    → s.locks h ≡ false
    → record s { locks = update (update s.locks h true) h false } ≡ s
relock s h e = ap (λ (l : ℕ → Bool). record s { locks = l }) (fun_ext λ i. ground (arith, e))

put_store_same : (m : Kernel) (p : Option ℕ) (s : KvStore) → deref m p ≡ ok s → put_store m p s ≡ m
unfolding deref put_store
put_store_same m none s e = cc
put_store_same m (some p) s e =
    ap (λ (f : ℕ → Option KvStore). record m { stores = f }) (fun_ext λ q. ground arith)

-- For a task with a store whose lock of the key is free, `read_kv` does not fault, answers the
-- value of the key or -1, and leaves all of kernel memory as it was.
pub read_kv-answer :
    (k : ℤ) (task : Task) (m : Kernel) (s : KvStore)
    → deref m task.kv ≡ ok s
    → s.locks (bucket_of k) ≡ false
    → read_kv k task m ≡ ok (answer (view s k), m)
unfolding read_kv view answer
read_kv-answer k task m s found free =
    let same : put_store m task.kv s ≡ m = put_store_same m task.kv s found in
    let back = relock s (bucket_of k) free in ground (arith, found, free, same, back)

-- With a well-formed store, the locks of both keys free and memory for a node, a read that follows
-- a write answers the written value where the keys are equal, and otherwise what it would have
-- answered before the write.
pub read_kv-write_kv :
    (k v j : ℤ) (task : Task) (m : Kernel) (s : KvStore)
    → Ready task m k s
    → s.locks (bucket_of j) ≡ false
    → write_kv true k v task m >>= (λ r. read_kv j task r.1) >>= (λ r. ok r.0)
      ≡ ok (if eq_ℤ k j then v else answer (view s j))
unfolding map_write answer
read_kv-write_kv k v j task m s ready free =
    let (r, run, w) = write_kv-Wrote k v task m ready true in
    rw (run, read_kv-answer j task r.1 w.after w.found (w.locks (bucket_of j) ∙ free))
      (ground (arith, w.maps j))

-- What a read answers is -1 exactly where the key is absent or its value is -1.
pub answer-minus_one : (o : Option ℤ) → (answer o ≡ minus_one) ↔ ((o ≡ none) ⊎ (o ≡ some minus_one))
unfolding answer
answer-minus_one o = ground arith

-- A null pointer in place of the store: both calls go through it.
pub calls_null :
    (room : Bool) (k v : ℤ) (task : Task) (m : Kernel)
    → task.kv ≡ none
    → (write_kv room k v task m ≡ fault null_pointer) × (read_kv k task m ≡ fault null_pointer)
unfolding write_kv read_kv
calls_null room k v task m e = ground arith
