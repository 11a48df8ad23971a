-- ===== src/Kv/Tests.antt =====
-- linux-5.15.178/kernel/kv_store.c: the theorems at a store with one entry, and at an empty one.
use oshome_work.Base.{
  ℕ, ◌+◌, ◌≤◌, ◌≡◌, refl, true, false, none, some, [], ◌∷◌, arith, if◌then◌else◌, length, update,
  total, total_change, total-eq-zero,
}
use oshome_work.Base.Int.{pos, eq_ℤ, eq_ℤ_iff}
use oshome_work.Kv.Bucket.{count_key}
use oshome_work.Kv.Invariant.{view, IsPlaced, size}
use oshome_work.Kv.{
  buckets, bucket_of, read_kv, KvStore, Kernel, cleanup_task_kv_store, Task, write_kv, deref,
}
use oshome_work.Kv.Calls.{answer, read_kv-write_kv, write_kv-Wrote, Ready, Wrote, calls_null}
use oshome_work.Kv.Lifetime.{Cleaned, cleanup_other, cleanup-Cleaned}
use oshome_work.Base.Run.{◌>>=◌, ok, null_pointer, fault, Returns}

abbrev empty_store : KvStore
empty_store = record { locks = λ _. false; head = λ _. [] }

-- The key 3 with the value 30.
abbrev one_store : KvStore
one_store = record {
  locks = λ _. false;
  head = update (λ _. []) 3 (record { key = pos 3; value = pos 30 } ∷ []);
}

abbrev task : Task
task = record { pid = 7; tgid = 7; kv = some 0 }

abbrev kernel : Kernel
kernel = record { stores = update (λ _. none) 0 (some one_store); nodes = 1 }

abbrev no_task : Task
no_task = record { pid = 8; tgid = 7; kv = none }

empty_store-IsPlaced : IsPlaced empty_store
unfolding count_key
empty_store-IsPlaced k i h = (omega arith, λ _. refl)

one_store-IsPlaced : IsPlaced one_store
unfolding count_key bucket_of
one_store-IsPlaced k i h = (ground arith, λ ne. ground (arith, eq_ℤ_iff (pos 3) k))

found : deref kernel task.kv ≡ ok one_store
unfolding deref
found = refl

ready : Ready task kernel (pos 3) one_store
ready = record { found = found; free = refl; placed = one_store-IsPlaced }

write_kv-Wrote_example :
    Returns
      (write_kv true (pos 3) (pos 5) task kernel)
      (Wrote true (pos 3) (pos 5) task kernel one_store)
write_kv-Wrote_example = write_kv-Wrote (pos 3) (pos 5) task kernel ready true

read_kv-write_kv_example :
    write_kv true (pos 3) (pos 5) task kernel
      >>= (λ r. read_kv (pos 1027) task r.1)
      >>= (λ r. ok r.0)
    ≡ ok (if eq_ℤ (pos 3) (pos 1027) then pos 5 else answer (view one_store (pos 1027)))
read_kv-write_kv_example =
    read_kv-write_kv (pos 3) (pos 5) (pos 1027) task kernel one_store ready refl

calls_null_example :
    (write_kv true (pos 3) (pos 5) no_task kernel ≡ fault null_pointer)
    × (read_kv (pos 3) no_task kernel ≡ fault null_pointer)
calls_null_example = calls_null true (pos 3) (pos 5) no_task kernel refl

one_store-size : size one_store ≤ 1
unfolding size
one_store-size =
    let lens : ℕ → ℕ = λ i. length (one_store.head i) in
    let change : total buckets lens + 0 ≡ total buckets (λ _. 0) + 1 =
      total_change buckets (λ _. 0) lens 3 (omega arith) (λ j ne. ground arith) in
    omega (arith, change, total-eq-zero buckets (λ _. 0) (λ i p. refl))

cleanup-Cleaned_example :
    Returns (cleanup_task_kv_store task kernel) (Cleaned task kernel one_store)
cleanup-Cleaned_example =
    cleanup-Cleaned task kernel one_store refl found (λ i h. refl) one_store-size

cleanup_other_example : cleanup_task_kv_store no_task kernel ≡ ok kernel
cleanup_other_example = cleanup_other no_task kernel (λ e. omega arith)
