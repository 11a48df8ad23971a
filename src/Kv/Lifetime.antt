-- ===== src/Kv/Lifetime.antt =====
-- `init_task_kv_store` and `cleanup_task_kv_store` of kv_store.c.
use oshome_work.Base.{
  ℕ, zero, suc, ◌+◌, ◌-◌, ◌≤◌, ◌<◌, ◌≡◌, refl, ◌∙◌, ◌≢◌, Bool, true, false, ◌&&◌, Option, none,
  some, List, [], ◌∷◌, arith, ltb, leb, if◌then◌else◌, length, update, total, total-congr,
  total_change, total_step, total_mono, total-zero, total-eq-zero,
}
use oshome_work.Base.Int.{ℤ, pos}
use oshome_work.Base.Run.{ok, Returns}
use oshome_work.Kv.{
  KvStore, Task, Kernel, buckets, bucket_of, deref, put_store, free_nodes, free_buckets,
  cleanup_task_kv_store, init_buckets, init_task_kv_store,
}
use oshome_work.Kv.Bucket.{KvNode, find_node, count_key, value_of}
use oshome_work.Kv.Invariant.{IsPlaced, view, size, bucket_of-lt}

abbrev pub in_range : ℕ → ℕ → ℕ → Bool
in_range i e j = leb i j && ltb j e

-- The initialisation loop resets the buckets from `i` up to `e`, and no others.
init_buckets-range :
    (rounds i e : ℕ) (s : KvStore) (j : ℕ)
    → i + rounds ≡ e
    → ((init_buckets rounds i s).locks j ≡ (if in_range i e j then false else s.locks j))
      × ((init_buckets rounds i s).head j ≡ (if in_range i e j then [] else s.head j))
unfolding init_buckets
init_buckets-range zero i e s j h = ground arith
init_buckets-range (suc rounds) i e s j h = ground (
  arith,
  init_buckets-range rounds (i + 1) e
      (record { locks = update s.locks i false; head = update s.head i [] }) j (omega arith),
)

free_nodes_lem : (ns : List KvNode) (live : ℕ) → free_nodes ns live ≡ ([], live - length ns)
unfolding free_nodes
free_nodes_lem [] live = ground arith
free_nodes_lem (n ∷ ns) live = rw (free_nodes_lem ns (live - 1)) (ground arith)

abbrev lengths : KvStore → ℕ → ℕ
lengths s i = length (s.head i)

in_range-buckets : (i : ℕ) → i < buckets → in_range 0 buckets i ≡ true
in_range-buckets i h = ground arith

-- What the loop of the clean-up leaves of the buckets from `i` up to `e`.
record Emptied (i e : ℕ) (s : KvStore) (live : ℕ) (r : KvStore × ℕ) : Type 0 where
  locks : (j : ℕ) → r.0.locks j ≡ s.locks j
  heads : (j : ℕ) → r.0.head j ≡ (if in_range i e j then [] else s.head j)
  freed : r.1 + total e (lengths s) ≡ live + total i (lengths s)

free_buckets-Emptied :
    (rounds i e : ℕ) (s : KvStore) (live : ℕ)
    → i + rounds ≡ e
    → ((j : ℕ) → i ≤ j → j < e → s.locks j ≡ false)
    → total e (lengths s) ≤ live + total i (lengths s)
    → Returns (free_buckets rounds i s live) (Emptied i e s live)
unfolding free_buckets
free_buckets-Emptied zero i e s live h free enough =
    let same : i ≡ e = omega arith in
    ((s, live), refl, record { locks = λ j. refl; heads = λ j. ground arith; freed = rw same })
free_buckets-Emptied (suc rounds) i e s live h free enough =
    let len = length (s.head i) in
    let change = total_change e (lengths s) (lengths next) i (omega arith) (λ j ne. ground arith) in
    let below : total i (lengths next) ≡ total i (lengths s) =
      total-congr i (lengths next) (lengths s) (λ j p. ground arith) in
    let step = total_step i (lengths s) in
    let step' = total_step i (lengths next) in
    let fits = total_mono (i + 1) e (lengths s) (omega arith) in
    let own : lengths next i ≡ 0 = ground arith in
    let (r, run, t) =
      free_buckets-Emptied rounds (i + 1) e next (live - len) (omega arith)
        (λ j p q. ground (arith, free j)) (omega arith) in
    (
      r,
      ground (arith, free_nodes_lem (s.head i) live, free i (omega arith) (omega arith), run),
      record {
        locks = λ j. ground (arith, t.locks j, free i (omega arith) (omega arith));
        heads = λ j. ground (arith, t.heads j);
        freed = omega (arith, t.freed);
      },
    )
  where
    next : KvStore
    next = record { locks = update (update s.locks i true) i false; head = update s.head i [] }

deref_after :
    (m : Kernel) (p : Option ℕ) (s t : KvStore) (n : ℕ)
    → deref m p ≡ ok s
    → deref (record (put_store m p t) { nodes = n }) p ≡ ok t
unfolding deref put_store
deref_after m none s t n h = cc
deref_after m (some p) s t n h = ground arith

-- What a clean-up by the main thread leaves behind.
pub record Cleaned (task : Task) (m : Kernel) (s : KvStore) (r : Kernel) : Type 0 where
  pub after : KvStore
  pub found : deref r task.kv ≡ ok after
  pub locks : (i : ℕ) → after.locks i ≡ s.locks i
  pub empty : size after ≡ 0
  pub unmapped : (k : ℤ) → view after k ≡ none
  pub freed : r.nodes + size s ≡ m.nodes

-- For the main thread, with every lock free and no more nodes in the store than are live, the
-- clean-up ends without a fault, frees each node of the store exactly once, leaves no key and every
-- lock as it was, and leaves the store object itself allocated.
pub cleanup-Cleaned :
    (task : Task) (m : Kernel) (s : KvStore)
    → task.tgid ≡ task.pid
    → deref m task.kv ≡ ok s
    → ((i : ℕ) → i < buckets → s.locks i ≡ false)
    → size s ≤ m.nodes
    → Returns (cleanup_task_kv_store task m) (Cleaned task m s)
unfolding cleanup_task_kv_store size view find_node value_of
cleanup-Cleaned task m s leader found free enough =
    let (r, run, t) =
      free_buckets-Emptied buckets 0 buckets s m.nodes (omega arith) (λ j _ p. free j p)
        (omega (arith, total-zero (lengths s))) in
    (
      record (put_store m task.kv r.0) { nodes = r.1 },
      ground (arith, leader, found, run),
      record {
        after = r.0;
        found = deref_after m task.kv s r.0 r.1 found;
        locks = t.locks;
        empty = total-eq-zero buckets _ (λ i p. rw (t.heads i, in_range-buckets i p));
        unmapped = λ k. rw (t.heads (bucket_of k), in_range-buckets _ (bucket_of-lt k));
        freed = omega (arith, t.freed, total-zero (lengths s));
      },
    )

-- A thread other than the main one frees nothing.
pub cleanup_other :
    (task : Task) (m : Kernel) → task.tgid ≢ task.pid → cleanup_task_kv_store task m ≡ ok m
unfolding cleanup_task_kv_store
cleanup_other task m h = ground arith

-- What a successful set-up leaves behind.
pub record Fresh (task : Task) (m : Kernel) (r : ℤ × Task × Kernel) : Type 0 where
  pub after : KvStore
  pub result : r.0 ≡ pos 0
  pub found : deref r.2 r.1.kv ≡ ok after
  pub locks : (k : ℤ) → after.locks (bucket_of k) ≡ false
  pub placed : IsPlaced after
  pub unmapped : (k : ℤ) → view after k ≡ none
  pub empty : size after ≡ 0
  pub counted : r.2.nodes ≡ m.nodes

init_buckets-head : (s : KvStore) (i : ℕ) → i < buckets → (init_buckets buckets 0 s).head i ≡ []
init_buckets-head s i h = (init_buckets-range buckets 0 buckets s i (omega arith)).1 ∙ ground arith

init_buckets-locks :
    (s : KvStore) (i : ℕ) → i < buckets → (init_buckets buckets 0 s).locks i ≡ false
init_buckets-locks s i h = (init_buckets-range buckets 0 buckets s i (omega arith)).0 ∙ ground arith

-- Where the allocation succeeds, whatever the memory held before, the set-up answers 0 and gives
-- the task a well-formed store with no key and no node and with every lock free.
pub init-Fresh :
    (p : ℕ) (garbage : KvStore) (task : Task) (m : Kernel)
    → Fresh task m (init_task_kv_store (some (p, garbage)) task m)
unfolding init_task_kv_store deref view size find_node value_of count_key
init-Fresh p garbage task m =
    let head = init_buckets-head garbage in
    record {
      after = init_buckets buckets 0 garbage;
      result = refl;
      found = ground arith;
      locks = λ k. init_buckets-locks garbage (bucket_of k) (bucket_of-lt k);
      placed = λ k i h. rw (head i h) (omega arith, λ _. refl);
      unmapped = λ k. rw (head (bucket_of k) (bucket_of-lt k));
      empty = total-eq-zero buckets _ (λ i h. rw (head i h));
      counted = refl;
    }
