-- ===== src/HashTable/Tests.antt =====
-- A hash table with two buckets.
use trading_base.Base.{
  ℕ, zero, suc, ◌+◌, ◌<◌, ◌≡◌, ◌≢◌, refl, List, [], ◌∷◌, Bool, ◌==◌, if◌then◌else◌, arith, done,
  Ends, inl,
}
use trading_base.ResultCode.{AResult, a_ok}
use trading_base.LinkedList.{Ptr}
use trading_base.LinkedList.Rings.{IsRing, one, count}
use trading_base.HashTable.{Nodes, HashTable, bucket, ht_insert, ht_find, ht_delete, bucket_offset}
use trading_base.HashTable.Find.{Looked, ht_find-Looked, ht_find-ht_insert}
use trading_base.HashTable.Table.{IsTable, put_chain, ht_insert-IsTable}
use trading_base.HashTable.Murmur.{
  ht_murmur_hash_byte_string, ht_murmur_hash_word, mix_word, mix_bytes, xor_tail, finish_hash,
}
use trading_base.HashTable.Delete.{with_chain, ht_delete-IsTable}

-- The key is its own hash, and the key of a node is its address.
abbrev identity : ℕ → ℕ → AResult × ℕ
identity key key_size = (a_ok, key)

abbrev same_key : Ptr → ℕ → ℕ → AResult × Bool
same_key node key key_size = (a_ok, node == key)

abbrev table : HashTable
table = record { buckets = 100; nr_buckets = 2 }

-- Two buckets at 100 and 116; the node 9 is in the second one.
abbrev nodes : Nodes
nodes = record {
  links = record {
    prev = λ p. if p == 116 then 9 else if p == 9 then 116 else p;
    next = λ p. if p == 116 then 9 else if p == 9 then 116 else p;
  };
  hash = λ p. p;
}

abbrev chains : ℕ → List Ptr
chains zero = []
chains (suc i) = 9 ∷ []

chain-IsRing : IsRing nodes.links 116 (9 ∷ [])
chain-IsRing = record { linked = (refl, refl, (refl, refl)); once = λ p. ground arith }

ring : (i : ℕ) → i < 2 → IsRing nodes.links (bucket 100 i) (chains i)
ring zero lt = record { linked = (refl, refl); once = λ p. ground arith }
ring (suc zero) lt = chain-IsRing
ring (suc (suc i)) lt = absurd (omega arith)

nodes-IsTable : IsTable nodes.links table chains
nodes-IsTable = record { rings = ring; apart = parted }
  where
    parted :
        (i j : ℕ) (p : Ptr)
        → i < 2
        → j < 2
        → i ≢ j
        → 0 < one p (bucket 100 i) + count p (chains i)
        → one p (bucket 100 j) + count p (chains j) ≡ 0
    parted zero zero p hi hj ne o = absurd (ne refl)
    parted zero (suc zero) p hi hj ne o = ground arith
    parted (suc zero) zero p hi hj ne o = ground arith
    parted (suc zero) (suc zero) p hi hj ne o = absurd (ne refl)
    parted (suc (suc i)) j p hi hj ne o = absurd (omega arith)
    parted zero (suc (suc j)) p hi hj ne o = absurd (omega arith)
    parted (suc zero) (suc (suc j)) p hi hj ne o = absurd (omega arith)

fresh : (j : ℕ) → j < 2 → one 7 (bucket 100 j) + count 7 (chains j) ≡ 0
fresh zero lt = refl
fresh (suc zero) lt = refl
fresh (suc (suc j)) lt = absurd (omega arith)

-- The hash 7 leads to the second bucket.
offset : bucket_offset table 7 ≡ 1
unfolding bucket_offset
offset = refl

ht_find-Looked_example :
    Ends
      (Looked identity same_key 9 8 nodes.hash 9 (9 ∷ []))
      (ht_find identity same_key 2 nodes table 9 8 0)
unfolding bucket_offset
ht_find-Looked_example =
    ht_find-Looked identity same_key 9 8 table 9 refl (ground arith) (omega arith) 2 nodes (9 ∷ [])
      0 chain-IsRing (omega arith)

ht_find-ht_insert_example :
    Ends
      (λ (ret, u). (ret ≡ a_ok) × (ht_find identity same_key 3 u table 7 8 0 ≡ done (a_ok, 7)))
      (ht_insert identity same_key nodes table 7 8 7)
unfolding bucket_offset
ht_find-ht_insert_example =
    ht_find-ht_insert identity same_key 7 8 table 7 refl (ground arith) (omega arith) 3 nodes
      (9 ∷ []) 7 0 chain-IsRing refl (ground arith) (inl (ground arith), tt) refl (omega arith)

ht_insert-IsTable_example :
    Ends
      (λ (ret, u). (ret ≡ a_ok) × IsTable u.links table (put_chain chains 1 7))
      (ht_insert identity same_key nodes table 7 8 7)
unfolding bucket_offset
ht_insert-IsTable_example =
    ht_insert-IsTable identity same_key 7 8 table 7 refl (ground arith) (omega arith) nodes chains 7
      nodes-IsTable fresh (ground arith)

ht_delete-IsTable_example :
    ((ht_delete nodes 9).0 ≡ a_ok)
    × IsTable (ht_delete nodes 9).1.links table (with_chain chains 1 [])
    × ((ht_delete nodes 9).1.hash 9 ≡ 0)
ht_delete-IsTable_example =
    ht_delete-IsTable nodes table chains 1 [] 9 [] nodes-IsTable (omega arith) refl (ground arith)

-- Runs of the hash functions.
murmur_word_run : ht_murmur_hash_word 42 8 0 ≡ (a_ok, 7092729355111490589)
unfolding ht_murmur_hash_word mix_word finish_hash
murmur_word_run = refl

murmur_byte_string_run :
    ht_murmur_hash_byte_string (1 ∷ 2 ∷ 3 ∷ 4 ∷ 5 ∷ 6 ∷ 7 ∷ 8 ∷ 9 ∷ 10 ∷ 11 ∷ []) 0
    ≡ (a_ok, 3564707054259951355)
unfolding ht_murmur_hash_byte_string mix_bytes mix_word xor_tail finish_hash
murmur_byte_string_run = refl
