-- ===== src/Kv/Invariant.antt =====
-- The invariant of a store, the map that it stands for, and how the parts of the calls change both.
use oshome_work.Base.{
  ℕ, ◌+◌, ◌≤◌, ◌<◌, ◌≡◌, ◌≢◌, Bool, true, false, ◌&&◌, ◌||◌, Option, none, some, List, ◌∷◌, arith,
  if◌then◌else◌, length, inl, inr, Option-cases, update, total, total_change,
}
use oshome_work.Base.Int.{ℤ, pos, negsuc, eq_ℤ, eq_ℤ_iff, minus_one}
use oshome_work.Kv.Bucket.{
  KvNode, find_node, set_value, count_key, value_of, count_key-find_none, count_key-set_value,
  length-set_value, find_node-set_value,
}
use oshome_work.Kv.{KvStore, buckets, bucket_of, set_head, write_locked}

-- Each key stands at most once, and only in its own bucket.
abbrev pub IsPlaced : KvStore → Type 0
IsPlaced s =
    (k : ℤ) (i : ℕ)
    → i < buckets
    → (count_key k (s.head i) ≤ 1) × (bucket_of k ≢ i → count_key k (s.head i) ≡ 0)

-- The finite map that a store stands for.
unfoldable pub view : KvStore → ℤ → Option ℤ
view s k = value_of (find_node k (s.head (bucket_of k)))

-- What a write does to the map, independently of buckets: a new key needs memory, an old one not.
abbrev pub is_some {ℓ} : {A : Type ℓ} → Option A → Bool
is_some none = false
is_some (some _) = true

unfoldable pub map_write : Bool → ℤ → ℤ → (ℤ → Option ℤ) → ℤ → Option ℤ
map_write room k v f j = if (is_some (f k) || room) && eq_ℤ k j then some v else f j

-- The nodes of a store.
unfoldable pub size : KvStore → ℕ
size s = total buckets (λ i. length (s.head i))

pub bucket_of-lt : (k : ℤ) → bucket_of k < buckets
unfolding bucket_of
bucket_of-lt (pos n) = omega arith
bucket_of-lt (negsuc n) = omega arith

pub write_locked-IsPlaced :
    (room : Bool) (k v : ℤ) (s : KvStore) → IsPlaced s → IsPlaced (write_locked room k v s).1
unfolding write_locked set_head count_key
write_locked-IsPlaced room k v s placed j i p =
    let ns = s.head (bucket_of k) in
    ground (
      arith,
      placed j i p,
      placed j (bucket_of k) (bucket_of-lt k),
      count_key-set_value j k v ns,
      count_key-find_none k ns,
      eq_ℤ_iff k j,
    )

pub view-write_locked :
    (room : Bool) (k v : ℤ) (s : KvStore) (j : ℤ)
    → view (write_locked room k v s).1 j ≡ map_write room k v (view s) j
unfolding view write_locked set_head value_of find_node map_write
view-write_locked room k v s j =
    let ns = s.head (bucket_of k) in
    elim (Option-cases (find_node k ns)) [
      | inl e ↦ rw e (ground (arith, eq_ℤ_iff k j))
      | inr (n, e) ↦ rw e (ground (arith, eq_ℤ_iff k j, find_node-set_value j k v ns n e))
    ]

-- The result says whether the key had a place or got one.
pub write_locked_result :
    (room : Bool) (k v : ℤ) (s : KvStore)
    → (write_locked room k v s).0 ≡ (if is_some (view s k) || room then pos 4 else minus_one)
unfolding view write_locked value_of
write_locked_result room k v s = ground arith

pub write_locked-locks :
    (room : Bool) (k v : ℤ) (s : KvStore) (i : ℕ) → (write_locked room k v s).1.locks i ≡ s.locks i
unfolding write_locked set_head
write_locked-locks room k v s i = ground arith

-- Every node that was allocated stands in the store.
pub size-write_locked :
    (room : Bool) (k v : ℤ) (s : KvStore)
    → size (write_locked room k v s).1 ≡ size s + (write_locked room k v s).2
unfolding size write_locked set_head
size-write_locked room k v s =
    let h = bucket_of k in
    let ns = s.head h in
    let change = λ (ms : List KvNode).
      total_change buckets (λ i. length (s.head i)) (λ i. length (update s.head h ms i)) h
        (bucket_of-lt k) (λ j ne. ground arith) in
    ground (
      arith,
      length-set_value k v ns,
      change (set_value k v ns),
      change (record { key = k; value = v } ∷ ns),
    )
