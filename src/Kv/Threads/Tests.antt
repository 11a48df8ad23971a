-- ===== src/Kv/Threads/Tests.antt =====
-- linux-5.15.178/kernel/kv_store.c: two threads of a process, at a store where one of them holds a
-- lock and the other one waits for it.
use oshome_work.Base.{ℕ, ◌≡◌, refl, ◌≢◌, inr, true, false, [], ◌∷◌, arith, update}
use oshome_work.Base.Int.{pos}
use oshome_work.Kv.Bucket.{KvNode, find_node, count_key}
use oshome_work.Kv.Invariant.{IsPlaced}
use oshome_work.Kv.{set_head, bucket_of, KvStore}
use oshome_work.Kv.Threads.{
  System, miss, write_missing, Step, Pc, Move, idle, later, pick, begin_write, begin_read,
  lock_write, write_lock, write_search, read_lock, here, Reach, with_lock, leave, insert,
}
use oshome_work.Kv.Threads.Safety.{Step-Effect, mutual_exclusion, no_deadlock, Effect}
use oshome_work.Kv.Threads.Invariant.{start}

abbrev empty_store : KvStore
empty_store = record { locks = λ _. false; head = λ _. [] }

empty_store-IsPlaced : IsPlaced empty_store
unfolding count_key
empty_store-IsPlaced k i h = (omega arith, λ _. refl)

-- Thread 0 has begun a write and taken the lock, thread 1 has begun a read of the same bucket.
abbrev both : System
both = record {
  store = with_lock 3 true empty_store;
  pc =
      update
        (update (update (λ _. idle) 0 (write_lock (pos 3) (pos 5))) 0
          (write_search (pos 3) (pos 5)))
        1 (read_lock (pos 1027));
}

run : Reach (start empty_store) both
unfolding bucket_of
run =
    later (later (later here (pick 0 (begin_write (pos 3) (pos 5)))) (pick 0 (lock_write refl)))
      (pick 1 (begin_read (pos 1027)))

mutual_exclusion_example : ◌≡◌ {A = ℕ} 0 0
mutual_exclusion_example =
    mutual_exclusion empty_store both empty_store-IsPlaced (λ h. refl) run 0 0 (bucket_of (pos 3))
      refl refl

abbrev searched : System
searched = record { store = both.store; pc = update both.pc 0 (write_missing (pos 3) (pos 5)) }

search : Step both searched
unfolding find_node
search = pick 0 (miss refl)

abbrev entry : KvNode
entry = record { key = pos 3; value = pos 5 }

abbrev stored : System
stored = record {
  store = set_head (bucket_of (pos 3)) (entry ∷ []) searched.store;
  pc = update searched.pc 0 (leave (bucket_of (pos 3)) (pos 4));
}

store_entry : Step searched stored
store_entry = pick 0 insert

Step-Effect_example : Effect searched stored
Step-Effect_example =
    Step-Effect empty_store searched empty_store-IsPlaced (λ h. refl) (later run search) stored
      store_entry

no_deadlock_example :
    (j : ℕ) × (t : KvStore) × (p : Pc) × (both.pc j ≢ idle) × Move both.store (both.pc j) t p
no_deadlock_example =
    no_deadlock empty_store both empty_store-IsPlaced (λ h. refl) run 1 (pos 1027) (pos 0)
      (inr refl)
