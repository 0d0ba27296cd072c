-- ===== src/HashTable/Delete.antt =====
-- ht_delete on the buckets of a hash table.
use trading_base.Base.{
  ℕ, ◌+◌, ◌≤◌, ◌<◌, ◌≡◌, ◌≢◌, refl, sym, List, ◌∷◌, ◌++◌, false, Bool-cases, inl, inr, ◌==◌,
  if◌then◌else◌, arith,
}
use trading_base.ResultCode.{a_ok}
use trading_base.LinkedList.{Ptr, Links, list_del}
use trading_base.LinkedList.Rings.{IsRing, one, count, count-append, Linked-same}
use trading_base.LinkedList.Delete.{list_del-IsRing, list_del-apart}
use trading_base.HashTable.{null, Nodes, HashTable, bucket, ht_delete}
use trading_base.HashTable.Table.{IsTable}

-- The chains with another chain in the bucket `i`.
abbrev pub with_chain : (ℕ → List Ptr) → ℕ → List Ptr → ℕ → List Ptr
with_chain chains i xs j = if j == i then xs else chains j

fewer : (xs ys : List Ptr) (x p : Ptr) → count p (xs ++ ys) ≤ count p (xs ++ x ∷ ys)
fewer xs ys x p = omega (arith, count-append p xs ys, count-append p xs (x ∷ ys))

module _ (m : Links) (table : HashTable) (chains : ℕ → List Ptr) (h : IsTable m table chains)
    (i : ℕ) (inside : i < table.nr_buckets) (xs : List Ptr) (x : Ptr) (ys : List Ptr)
    (chain : chains i ≡ xs ++ x ∷ ys) where
  own : IsRing m (bucket table.buckets i) (xs ++ x ∷ ys)
  own = rw chain at (h.rings i inside)

  other-IsRing :
      (j : ℕ)
      → j < table.nr_buckets
      → i ≢ j
      → IsRing (list_del m x) (bucket table.buckets j) (chains j)
  other-IsRing j hj ne =
      let same = λ (q : Ptr) (o : 0 < one q (bucket table.buckets j) + count q (chains j)).
        list_del-apart m (bucket table.buckets i) xs x ys own q
          (rw chain at (h.apart j i q hj inside (λ e. ne (sym e)) o)) in
      record {
        linked =
            Linked-same m (list_del m x) (bucket table.buckets j) (chains j)
              (bucket table.buckets j) (λ q o. (same q o).0) (λ q o. (same q (omega (arith, o))).1)
              (h.rings j hj).linked;
        once = (h.rings j hj).once;
      }

  IsRing-left :
      (j : ℕ)
      → j < table.nr_buckets
      → IsRing (list_del m x) (bucket table.buckets j) (with_chain chains i (xs ++ ys) j)
  IsRing-left j hj = elim (Bool-cases (j == i)) [
    | inl e ↦
        let same : j ≡ i = ground arith in
        rw e (rw same (list_del-IsRing m (bucket table.buckets i) xs x ys own).0)
    | inr e ↦ rw e (other-IsRing j hj (λ q. ground arith))
  ]

  fewer_in : (j : ℕ) (p : Ptr) → count p (with_chain chains i (xs ++ ys) j) ≤ count p (chains j)
  fewer_in j p = elim (Bool-cases (j == i)) [
    | inl e ↦ let same : j ≡ i = ground arith in rw e (rw (same, chain) (fewer xs ys x p))
    | inr e ↦ rw e (omega arith)
  ]

  left-IsTable : IsTable (list_del m x) table (with_chain chains i (xs ++ ys))
  left-IsTable = record {
    rings = IsRing-left;
    apart = λ a b p ha hb ne o.
        omega (arith, fewer_in b p, h.apart a b p ha hb ne (omega (arith, o, fewer_in a p)));
  }

-- ht_delete of a node in the chain of a bucket, which is not NULL: it gives A_OK, the chain of the bucket has the
-- other nodes in the same order, the other chains are as before, still no node is in two of them, and the
-- hash of the node is 0.
pub ht_delete-IsTable :
    (m : Nodes) (table : HashTable) (chains : ℕ → List Ptr) (i : ℕ) (xs : List Ptr) (x : Ptr)
    (ys : List Ptr)
    → IsTable m.links table chains
    → i < table.nr_buckets
    → chains i ≡ xs ++ x ∷ ys
    → x ≢ null
    → ((ht_delete m x).0 ≡ a_ok)
      × IsTable (ht_delete m x).1.links table (with_chain chains i (xs ++ ys))
      × ((ht_delete m x).1.hash x ≡ 0)
unfolding ht_delete
ht_delete-IsTable m table chains i xs x ys h inside chain ne =
    let given : (x == null) ≡ false = ground arith in
    rw given (refl, left-IsTable m.links table chains h i inside xs x ys chain, ground arith)
