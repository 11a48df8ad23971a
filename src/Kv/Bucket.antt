-- ===== src/Kv/Bucket.antt =====
-- linux-5.15.178/kernel/kv_store.c: one hash bucket, an `hlist` of `kv_node`s from its head on.
use oshome_work.Base.{
  ℕ, ◌+◌, ◌≡◌, refl, Option, none, some, List, [], ◌∷◌, arith, if◌then◌else◌, length,
}
use oshome_work.Base.Int.{ℤ, eq_ℤ, eq_ℤ_iff}

-- `struct kv_node`; its `hlist_node` is the place in the list.
pub record KvNode : Type 0 where
  pub key : ℤ
  pub value : ℤ

-- The loop `hlist_for_each_entry` with its `break` at the first node with the key.
unfoldable pub find_node : ℤ → List KvNode → Option KvNode
find_node k [] = none
find_node k (n ∷ ns) = if eq_ℤ n.key k then some n else find_node k ns

-- `old_entry->value = v`, at the node that the loop stopped at.
unfoldable pub set_value : ℤ → ℤ → List KvNode → List KvNode
set_value k v [] = []
set_value k v (n ∷ ns) = if eq_ℤ n.key k then record n { value = v } ∷ ns else n ∷ set_value k v ns

-- How many nodes of a bucket hold the key.
unfoldable pub count_key : ℤ → List KvNode → ℕ
count_key k [] = 0
count_key k (n ∷ ns) = (if eq_ℤ n.key k then 1 else 0) + count_key k ns

-- The value that a read of the bucket would find.
unfoldable pub value_of : Option KvNode → Option ℤ
value_of none = none
value_of (some n) = some n.value

pub count_key-find_none : (k : ℤ) (ns : List KvNode) → find_node k ns ≡ none → count_key k ns ≡ 0
unfolding count_key find_node
count_key-find_none k [] h = refl
count_key-find_none k (n ∷ ns) h = ground (arith, count_key-find_none k ns)

pub count_key-set_value :
    (j k v : ℤ) (ns : List KvNode) → count_key j (set_value k v ns) ≡ count_key j ns
unfolding count_key set_value
count_key-set_value j k v [] = refl
count_key-set_value j k v (n ∷ ns) = ground (arith, count_key-set_value j k v ns)

pub length-set_value : (k v : ℤ) (ns : List KvNode) → length (set_value k v ns) ≡ length ns
unfolding set_value
length-set_value k v [] = refl
length-set_value k v (n ∷ ns) = ground (arith, length-set_value k v ns)

pub find_node-set_value :
    (j k v : ℤ) (ns : List KvNode) (n : KvNode)
    → find_node k ns ≡ some n
    → value_of (find_node j (set_value k v ns))
      ≡ (if eq_ℤ k j then some v else value_of (find_node j ns))
unfolding find_node set_value value_of
find_node-set_value j k v [] n h = ground arith
find_node-set_value j k v (m ∷ ns) n h =
    ground (arith, find_node-set_value j k v ns n, eq_ℤ_iff m.key k, eq_ℤ_iff m.key j, eq_ℤ_iff k j)
