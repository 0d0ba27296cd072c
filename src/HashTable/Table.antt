-- ===== src/HashTable/Table.antt =====
-- The buckets of a hash table together.
use trading_base.Base.{
  ℕ, zero, suc, ◌+◌, ◌≤◌, ◌<◌, ◌≡◌, ◌≢◌, refl, sym, ◌∙◌, ap, some, List, [], ◌∷◌, ◌++◌, Bool, true,
  false, Bool-cases, inl, inr, ◌==◌, if◌then◌else◌, arith, Ends, ends,
}
use trading_base.ResultCode.{AResult, a_ok}
use trading_base.LinkedList.{Ptr, Links, list_init, list_append}
use trading_base.LinkedList.Rings.{IsRing, one, count, count-append, Linked-same}
use trading_base.LinkedList.Insert.{list_inserts-IsRing, list_append-apart}
use trading_base.HashTable.Find.{get_bucket-home}
use trading_base.HashTable.{
  bucket_offset, ht_insert, put_entry, null, Nodes, HashTable, bucket, init_buckets, ht_init,
}

-- The chain of each bucket, and no node in two of them.
pub record IsTable (m : Links) (table : HashTable) (chains : ℕ → List Ptr) : Type 0 where
  pub rings : (i : ℕ) → i < table.nr_buckets → IsRing m (bucket table.buckets i) (chains i)
  pub apart :
      (i j : ℕ) (p : Ptr)
      → i < table.nr_buckets
      → j < table.nr_buckets
      → i ≢ j
      → 0 < one p (bucket table.buckets i) + count p (chains i)
      → one p (bucket table.buckets j) + count p (chains j) ≡ 0

init_at :
    (m : Links) (p q : Ptr)
    → q ≢ p
    → ((list_init m p).next q ≡ m.next q) × ((list_init m p).prev q ≡ m.prev q)
unfolding list_init
init_at m p q ne = (ground arith, ground arith)

init_here :
    (m : Links) (p q : Ptr) → p ≡ q → ((list_init m p).next q ≡ q) × ((list_init m p).prev q ≡ q)
unfolding list_init
init_here m p q e = (ground arith, ground arith)

-- The loop of ht_init writes the buckets from `i` on, and nothing before them.
init_buckets-before :
    (n : ℕ) (m : Links) (buckets i j : ℕ)
    → j < i
    → ((init_buckets n m buckets i).next (bucket buckets j) ≡ m.next (bucket buckets j))
      × ((init_buckets n m buckets i).prev (bucket buckets j) ≡ m.prev (bucket buckets j))
unfolding init_buckets
init_buckets-before zero m buckets i j h = (refl, refl)
init_buckets-before (suc n) m buckets i j h =
    let (a, b) =
      init_buckets-before n (list_init m (bucket buckets i)) buckets (suc i) j (omega arith) in
    let (c, d) = init_at m (bucket buckets i) (bucket buckets j) (λ e. omega arith) in
    (a ∙ c, b ∙ d)

init_buckets-at :
    (n : ℕ) (m : Links) (buckets i j : ℕ)
    → i ≤ j
    → j < i + n
    → ((init_buckets n m buckets i).next (bucket buckets j) ≡ bucket buckets j)
      × ((init_buckets n m buckets i).prev (bucket buckets j) ≡ bucket buckets j)
unfolding init_buckets
init_buckets-at zero m buckets i j h g = absurd (omega arith)
init_buckets-at (suc n) m buckets i j h g = elim (Bool-cases (i == j)) [
  | inl e ↦
      let same : i ≡ j = ground arith in
      let (a, b) =
        init_buckets-before n (list_init m (bucket buckets i)) buckets (suc i) j (omega arith) in
      let (c, d) =
        init_here m (bucket buckets i) (bucket buckets j) (ap (λ v. bucket buckets v) same) in
      (a ∙ c, b ∙ d)
  | inr e ↦
      let other : i ≢ j = λ q. ground arith in
      init_buckets-at n (list_init m (bucket buckets i)) buckets (suc i) j (omega arith)
        (omega arith)
]

-- ht_init of a table that has no buckets, with a number of buckets that is not 0 and memory for them: it
-- gives A_OK, and the table has that many buckets, all with empty chains.
pub ht_init-IsTable :
    (m : Nodes) (table : HashTable) (nr_buckets : ℕ) (p : Ptr)
    → table.buckets ≡ null
    → nr_buckets ≢ 0
    → ((ht_init m table nr_buckets (some p)).0 ≡ a_ok)
      × ((ht_init m table nr_buckets (some p)).2.nr_buckets ≡ nr_buckets)
      × IsTable
          (ht_init m table nr_buckets (some p)).1.links
          (ht_init m table nr_buckets (some p)).2
          (λ i. [])
unfolding ht_init
ht_init-IsTable m table nr_buckets p none_ some_ =
    let a : (nr_buckets == 0) ≡ false = ground arith in
    let b : (table.buckets == null) ≡ true = ground arith in
    rw (a, b)
      (
        refl,
        refl,
        record {
          rings = λ i lt. record {
            linked = init_buckets-at nr_buckets m.links p 0 i (omega arith) (omega arith);
            once = λ q. ground arith;
          };
          apart = λ i j q hi hj ne o. ground arith;
        },
      )

parted :
    (a b i p entry na nb : ℕ)
    → a ≢ b
    → (p ≡ entry → na ≡ 0)
    → (p ≡ entry → nb ≡ 0)
    → (0 < na → nb ≡ 0)
    → 0 < na + (if a == i then one p entry else 0)
    → nb + (if b == i then one p entry else 0) ≡ 0
parted a b i p entry na nb ne fa fb f o = ground arith

-- The chains with an entry more.
abbrev pub put_chain : (ℕ → List Ptr) → ℕ → Ptr → ℕ → List Ptr
put_chain chains i entry j = if j == i then chains j ++ entry ∷ [] else chains j

module _ (m : Links) (table : HashTable) (chains : ℕ → List Ptr) (h : IsTable m table chains)
    (i : ℕ) (inside : i < table.nr_buckets) (entry : Ptr)
    (new : (j : ℕ)
      → j < table.nr_buckets
      → one entry (bucket table.buckets j) + count entry (chains j) ≡ 0) where
  grown : Links
  grown = list_append m (bucket table.buckets i) entry

  other-IsRing :
      (j : ℕ) → j < table.nr_buckets → i ≢ j → IsRing grown (bucket table.buckets j) (chains j)
  unfolding grown
  other-IsRing j hj ne =
      let same = λ (q : Ptr) (o : 0 < one q (bucket table.buckets j) + count q (chains j)).
        list_append-apart m (bucket table.buckets i) (chains i) entry (h.rings i inside)
          (new i inside) q (h.apart j i q hj inside (λ e. ne (sym e)) o)
          (λ e.
            let z = new j hj in
            let o' : 0 < one entry (bucket table.buckets j) + count entry (chains j) = rw e at o in
            omega (arith, z, o')) in
      record {
        linked =
            Linked-same m grown (bucket table.buckets j) (chains j) (bucket table.buckets j)
              (λ q o. (same q o).0) (λ q o. (same q (omega (arith, o))).1) (h.rings j hj).linked;
        once = (h.rings j hj).once;
      }

  grown-IsRing :
      (j : ℕ)
      → j < table.nr_buckets
      → IsRing grown (bucket table.buckets j) (put_chain chains i entry j)
  unfolding grown
  grown-IsRing j hj = elim (Bool-cases (j == i)) [
    | inl e ↦
        let same : i ≡ j = ground arith in
        rw e (
          rw same
            (list_inserts-IsRing m (bucket table.buckets j) [] (chains j) entry (h.rings j hj)
              (new j hj)).1)
    | inr e ↦ rw e (other-IsRing j hj (λ q. ground arith))
  ]

  counted :
      (j : ℕ) (p : Ptr)
      → count p (put_chain chains i entry j)
        ≡ count p (chains j) + (if j == i then one p entry else 0)
  counted j p = elim (Bool-cases (j == i)) [
    | inl e ↦ rw e (omega (arith, count-append p (chains j) (entry ∷ [])))
    | inr e ↦ rw e (omega arith)
  ]

  grown-IsTable : IsTable grown table (put_chain chains i entry)
  grown-IsTable = record {
    rings = grown-IsRing;
    apart = λ a b p ha hb ne o.
        let old = λ (j : ℕ) (hj : j < table.nr_buckets) (e : p ≡ entry). rw (sym e) at (new j hj) in
        omega (
          arith,
          counted b p,
          parted a b i p entry (one p (bucket table.buckets a) + count p (chains a))
              (one p (bucket table.buckets b) + count p (chains b)) ne (old a ha) (old b hb)
              (h.apart a b p ha hb ne) (omega (arith, o, counted a p)),
        );
  }

-- ht_insert of an entry that is in no bucket, of a key whose hash function answers: it gives A_OK, the entry is at
-- the end of the chain of the bucket of the hash, the other chains are as before, and still no node is in two of
-- them.
pub ht_insert-IsTable :
    {K : Type 0} (hfunc : K → ℕ → AResult × ℕ) (compare : Ptr → K → ℕ → AResult × Bool) (key : K)
    (key_size : ℕ) (table : HashTable) (hash_val : ℕ)
    → hfunc key key_size ≡ (a_ok, hash_val)
    → key_size ≢ 0
    → bucket_offset table hash_val < table.nr_buckets
    → (m : Nodes) (chains : ℕ → List Ptr) (entry : Ptr) → IsTable m.links table chains
    → ((j : ℕ)
        → j < table.nr_buckets
        → one entry (bucket table.buckets j) + count entry (chains j) ≡ 0)
    → entry ≢ null
    → Ends
        (λ (ret, u).
          (ret ≡ a_ok)
          × IsTable u.links table (put_chain chains (bucket_offset table hash_val) entry))
        (ht_insert hfunc compare m table key key_size entry)
unfolding ht_insert put_entry grown
ht_insert-IsTable hfunc compare key key_size table hash_val hashed sized inside m chains entry h new
      ne =
    let s : (key_size == 0) ≡ false = ground arith in
    let e : (entry == null) ≡ false = ground arith in
    rw (s, e, get_bucket-home hfunc compare key key_size table hash_val hashed sized inside)
      (ends (
        refl,
        grown-IsTable m.links table chains h (bucket_offset table hash_val) inside entry new,
      ))
