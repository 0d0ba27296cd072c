-- ===== src/HashTable.antt =====
-- tsl/hash_table.h and tsl/hash_table.c: buckets of chained nodes. A node is named by the address of its
-- `h_node`, and 0 is NULL. The bucket array is a run of struct hash_bucket, each of them one list head.
-- The hash function and the comparison are parameters, and the answer of calloc is one too. The pointers to the
-- table and the out-parameters are not NULL; the debug build is meant, in which TSL_ASSERT_ARG_DEBUG and assert
-- check.
pub mod Find
pub mod Table
pub mod Delete
pub mod Murmur
mod Tests
use Prim.Native.Nat.{bit_and}
use trading_base.Base.{
  ℕ, zero, suc, ◌+◌, ◌-◌, ◌*◌, ◌%◌, ◌^◌, Bool, ◌==◌, not, ltb, if◌then◌else◌, Option, none, some,
  Run, done, fault, stalled, ◌>>=◌,
}
use trading_base.ResultCode.{AResult, a_ok, a_e_badargs, a_e_busy, a_e_inval, a_e_notfound, failed}
use trading_base.LinkedList.{Ptr, Links, list_init, list_append, list_del}

abbrev pub null : Ptr
null = 0

-- The links of every list entry, and the field `hash` of every struct hash_node.
pub record Nodes : Type 0 where
  pub links : Links
  pub hash : Ptr → ℕ

-- `buckets` and `nr_buckets` of struct hash_table.
pub record HashTable : Type 0 where
  pub buckets : Ptr
  pub nr_buckets : ℕ

-- `&table->buckets[i].entries`: a list head has two pointers of 8 bytes.
abbrev pub bucket : Ptr → ℕ → Ptr
bucket buckets i = buckets + 16 * i

unfoldable pub ht_node_init : Nodes → Ptr → AResult × Nodes
ht_node_init m node = if node == null then (a_e_badargs, m) else (
  a_ok,
  record { links = list_init m.links node; hash = λ q. if q == node then 0 else m.hash q },
)

-- The loop of ht_init: `n` buckets from `i` on.
unfoldable pub init_buckets : ℕ → Links → Ptr → ℕ → Links
init_buckets zero m buckets i = m
init_buckets (suc n) m buckets i = init_buckets n (list_init m (bucket buckets i)) buckets (suc i)

-- `allocated` is what calloc gives.
unfoldable pub ht_init : Nodes → HashTable → ℕ → Option Ptr → AResult × Nodes × HashTable
ht_init m table nr_buckets allocated =
    if nr_buckets == 0
    then (a_e_badargs, m, table)
    else if not (table.buckets == null)
    then (a_e_busy, m, table)
    else elim allocated [
      | none ↦ (a_e_inval, m, table)
      | some p ↦ (
        a_ok,
        record m { links = init_buckets nr_buckets m.links p 0 },
        record { buckets = p; nr_buckets = nr_buckets },
      )
    ]

unfoldable pub ht_cleanup : HashTable → AResult × HashTable
ht_cleanup table =
    if table.buckets == null
    then (a_e_badargs, table)
    else (a_ok, record { buckets = null; nr_buckets = 0 })

-- `hash_val & (table->nr_buckets - 1)`, on 64-bit words.
unfoldable pub bucket_offset : HashTable → ℕ → ℕ
bucket_offset table hash_val = bit_and hash_val ((table.nr_buckets + 2 ^ 64 - 1) % 2 ^ 64)

-- `entry->hash = hash_val; list_append(&bkt->entries, &entry->h_node);`
unfoldable pub put_entry : Nodes → Ptr → Ptr → ℕ → Nodes
put_entry m bkt entry hash_val = record {
  links = list_append m.links bkt entry;
  hash = λ q. if q == entry then hash_val else m.hash q;
}

module _ {K : Type 0} (hfunc : K → ℕ → AResult × ℕ) (compare : Ptr → K → ℕ → AResult × Bool) where
  -- _ht_get_bucket: the result, the bucket and the hash.
  unfoldable pub ht_get_bucket : HashTable → K → ℕ → Run (AResult × Ptr × ℕ)
  ht_get_bucket table key key_size =
      let (ret, hash_val) = hfunc key key_size in
      let offset = bucket_offset table hash_val in
      if key_size == 0
      then done (a_e_badargs, null, 0)
      else if failed ret
      then done (ret, null, 0)
      else if ltb offset table.nr_buckets
      then done (ret, bucket table.buckets offset, hash_val)
      else fault

  unfoldable pub ht_insert : Nodes → HashTable → K → ℕ → Ptr → Run (AResult × Nodes)
  unfolding put_entry
  ht_insert m table key key_size entry =
      if key_size == 0
      then done (a_e_badargs, m)
      else if entry == null
      then done (a_e_badargs, m)
      else (do
        (ret, bkt, hash_val) ← ht_get_bucket table key key_size
        done (if failed ret then (ret, m) else (ret, put_entry m bkt entry hash_val)))

  -- The loop of ht_find over the chain of `head`: the result, and what `*pfound` is set to. A break goes on
  -- behind the loop, where the result becomes A_E_NOTFOUND.
  unfoldable pub find_in : ℕ → Nodes → Ptr → K → ℕ → ℕ → Ptr → Run (AResult × Ptr)
  find_in zero m head key key_size hash_val hnode = stalled
  find_in (suc fuel) m head key key_size hash_val hnode =
      let more = find_in fuel m head key key_size hash_val (m.links.next hnode) in
      let (ret, res) = compare hnode key key_size in
      if hnode == head
      then done (a_e_notfound, null)
      else if not (hash_val == m.hash hnode)
      then more
      else if failed ret
      then done (a_e_notfound, null)
      else if res
      then done (ret, hnode)
      else more

  -- `found` is `*pfound` before the call.
  unfoldable pub ht_find : ℕ → Nodes → HashTable → K → ℕ → Ptr → Run (AResult × Ptr)
  unfolding find_in
  ht_find fuel m table key key_size found = if key_size == 0 then done (a_e_badargs, found) else (do
    (ret, bkt, hash_val) ← ht_get_bucket table key key_size
    if failed ret
        then done (ret, null)
        else find_in fuel m bkt key key_size hash_val (m.links.next bkt))

unfoldable pub ht_delete : Nodes → Ptr → AResult × Nodes
ht_delete m node = if node == null then (a_e_badargs, m) else (
  a_ok,
  record { links = list_del m.links node; hash = λ q. if q == node then 0 else m.hash q },
)
