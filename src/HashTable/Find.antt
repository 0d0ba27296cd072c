-- ===== src/HashTable/Find.antt =====
-- ht_find over the chain of a bucket, and after ht_insert.
use trading_base.Base.{
  ℕ, zero, suc, ◌+◌, ◌<◌, ◌≡◌, ◌≢◌, ◌⊎◌, inl, inr, refl, ap, List, [], ◌∷◌, ◌++◌, Bool, true, false,
  not, ltb, ◌==◌, if◌then◌else◌, arith, length, length-append, Run, done, Ends, ends, Ends-mono,
  Ends-if,
}
use trading_base.ResultCode.{AResult, a_ok, a_e_notfound, failed}
use trading_base.LinkedList.{Ptr}
use trading_base.LinkedList.Rings.{Linked, IsRing, one, count, start, Linked-start}
use trading_base.LinkedList.Insert.{list_inserts-IsRing}
use trading_base.HashTable.{
  null, Nodes, HashTable, bucket, bucket_offset, ht_get_bucket, put_entry, ht_insert, find_in,
  ht_find,
}

abbrev pub All : (Ptr → Type 0) → List Ptr → Type 0
All P [] = Unit {0}
All P (x ∷ xs) = P x × All P xs

module _ {K : Type 0} (hfunc : K → ℕ → AResult × ℕ) (compare : Ptr → K → ℕ → AResult × Bool)
    (key : K) (key_size : ℕ) where
  -- The node has another hash, or the comparison tells it apart.
  abbrev pub Differs : (Ptr → ℕ) → ℕ → Ptr → Type 0
  Differs hash hash_val x = (hash x ≢ hash_val) ⊎ (compare x key key_size ≡ (a_ok, false))

  -- What a search through a chain ends with: the first node of the hash and the key; or no node, when
  -- all differ; or no node, when the comparison failed at the first node that did not differ.
  pub data Looked (hash : Ptr → ℕ) (hash_val : ℕ) (xs : List Ptr) : AResult × Ptr → Type 0 where
    hit :
        (ys : List Ptr) (x : Ptr) (zs : List Ptr)
        → xs ≡ ys ++ x ∷ zs
        → All (Differs hash hash_val) ys
        → hash x ≡ hash_val
        → compare x key key_size ≡ (a_ok, true)
        → Looked hash hash_val xs (a_ok, x)
    miss : All (Differs hash hash_val) xs → Looked hash hash_val xs (a_e_notfound, null)
    broken :
        (ys : List Ptr) (x : Ptr) (zs : List Ptr)
        → xs ≡ ys ++ x ∷ zs
        → All (Differs hash hash_val) ys
        → hash x ≡ hash_val
        → failed (compare x key key_size).0 ≡ true
        → Looked hash hash_val xs (a_e_notfound, null)

  later :
      (hash : Ptr → ℕ) (hash_val : ℕ) (x : Ptr) (xs : List Ptr) (r : AResult × Ptr)
      → Differs hash hash_val x
      → Looked hash hash_val xs r
      → Looked hash hash_val (x ∷ xs) r
  later hash hash_val x xs r d (hit ys y zs e a h c) =
      hit (x ∷ ys) y zs (ap (λ v. x ∷ v) e) (d, a) h c
  later hash hash_val x xs r d (miss a) = miss (d, a)
  later hash hash_val x xs r d (broken ys y zs e a h c) =
      broken (x ∷ ys) y zs (ap (λ v. x ∷ v) e) (d, a) h c

  -- One node whose hash is right.
  compared :
      (hash : Ptr → ℕ) (hash_val : ℕ) (x : Ptr) (xs : List Ptr) (more : Run (AResult × Ptr))
      (ret : AResult) (res : Bool)
      → hash x ≡ hash_val
      → compare x key key_size ≡ (ret, res)
      → Ends (Looked hash hash_val xs) more
      → Ends
          (Looked hash hash_val (x ∷ xs))
          (if failed ret then done (a_e_notfound, null) else if res then done (ret, x) else more)
  compared hash hash_val x xs more a_ok true h c rest = ends (hit [] x xs refl tt h c)
  compared hash hash_val x xs more a_ok false h c rest =
      Ends-mono rest (λ r l. later hash hash_val x xs r (inr c) l)
  compared hash hash_val x xs more ret res h c rest = ends (broken [] x xs refl tt h (rw c refl))

  find_in-Looked :
      (fuel : ℕ) (m : Nodes) (head : Ptr) (hash_val : ℕ) (xs : List Ptr) (a q : Ptr)
      → q ≡ start xs head
      → length xs < fuel
      → Linked m.links a xs head
      → count head xs ≡ 0
      → Ends (Looked m.hash hash_val xs) (find_in hfunc compare fuel m head key key_size hash_val q)
  unfolding find_in
  find_in-Looked zero m head hash_val xs a q at enough h out = absurd (omega arith)
  find_in-Looked (suc fuel) m head hash_val [] a q at enough h out =
      let here : (q == head) ≡ true = ground arith in rw here (ends (miss tt))
  find_in-Looked (suc fuel) m head hash_val (x ∷ xs) a q at enough h out =
      let there : (q == head) ≡ false = ground arith in
      let rest =
        find_in-Looked fuel m head hash_val xs x (m.links.next x)
          (Linked-start m.links x xs head h.2) (omega arith) h.2 (omega (arith, out)) in
      rw there (
        rw at (
          Ends-if (not (hash_val == m.hash x))
            (λ e. Ends-mono rest (λ r l. later m.hash hash_val x xs r (inl (λ e'. ground arith)) l))
            (λ e.
              compared m.hash hash_val x xs _ (compare x key key_size).0 (compare x key key_size).1
                (ground arith) refl rest)))

  find_in-last :
      (fuel : ℕ) (m : Nodes) (head : Ptr) (hash_val : ℕ) (xs : List Ptr) (x a q : Ptr)
      → q ≡ start (xs ++ x ∷ []) head
      → length (xs ++ x ∷ []) < fuel
      → Linked m.links a (xs ++ x ∷ []) head
      → count head (xs ++ x ∷ []) ≡ 0
      → All (Differs m.hash hash_val) xs
      → m.hash x ≡ hash_val
      → compare x key key_size ≡ (a_ok, true)
      → find_in hfunc compare fuel m head key key_size hash_val q ≡ done (a_ok, x)
  unfolding find_in
  find_in-last zero m head hash_val xs x a q at enough h out d hx c = absurd (omega arith)
  find_in-last (suc fuel) m head hash_val [] x a q at enough h out d hx c =
      let there : (q == head) ≡ false = ground arith in
      let same : (hash_val == m.hash x) ≡ true = ground arith in
      rw there (rw at (rw (same, c) refl))
  find_in-last (suc fuel) m head hash_val (y ∷ ys) x a q at enough h out d hx c =
      let there : (q == head) ≡ false = ground arith in
      let rest =
        find_in-last fuel m head hash_val ys x y (m.links.next y)
          (Linked-start m.links y (ys ++ x ∷ []) head h.2) (omega arith) h.2 (omega (arith, out))
          d.1 hx c in
      rw there (
        rw at (elim (d.0) [
          | inl other ↦ let test : (hash_val == m.hash y) ≡ false = ground arith in rw test rest
          | inr cy ↦ rw cy (if_same (not (hash_val == m.hash y)) _ _ rest)
        ]))
    where
      if_same : (b : Bool) (r v : Run (AResult × Ptr)) → r ≡ v → (if b then r else r) ≡ v
      if_same true r v e = e
      if_same false r v e = e

  -- The nodes of the chain keep their hashes when another node gets one.
  still :
      (hash : Ptr → ℕ) (hash_val : ℕ) (entry : Ptr) (xs : List Ptr)
      → count entry xs ≡ 0
      → All (Differs hash hash_val) xs
      → All (Differs (λ q. if q == entry then hash_val else hash q) hash_val) xs
  still hash hash_val entry [] out d = tt
  still hash hash_val entry (x ∷ xs) out (inl other, d) =
      (inl (λ e. ground arith), still hash hash_val entry xs (omega (arith, out)) d)
  still hash hash_val entry (x ∷ xs) out (inr c, d) =
      (inr c, still hash hash_val entry xs (omega (arith, out)) d)

  module _ (table : HashTable) (hash_val : ℕ) (hashed : hfunc key key_size ≡ (a_ok, hash_val))
      (sized : key_size ≢ 0) (inside : bucket_offset table hash_val < table.nr_buckets) where
    abbrev home : Ptr
    home = bucket table.buckets (bucket_offset table hash_val)

    pub get_bucket-home :
        ht_get_bucket hfunc compare table key key_size ≡ done (a_ok, home, hash_val)
    unfolding ht_get_bucket
    get_bucket-home =
        let s : (key_size == 0) ≡ false = ground arith in
        let i : ltb (bucket_offset table hash_val) table.nr_buckets ≡ true = ground arith in
        rw (s, hashed, i) refl

    -- ht_find of a key whose hash function answers, in a bucket with the chain `xs`, with fuel for more
    -- rounds than there are nodes in it: the run ends. It gives A_OK and the first node with the hash whose
    -- comparison tells the same key, where the nodes before it differ in the hash or by the comparison. Where
    -- all nodes differ, and also where the comparison fails at the first node that does not differ, it gives
    -- A_E_NOTFOUND and NULL.
    pub ht_find-Looked :
        (fuel : ℕ) (m : Nodes) (xs : List Ptr) (found : Ptr)
        → IsRing m.links (bucket table.buckets (bucket_offset table hash_val)) xs
        → length xs < fuel
        → Ends (Looked m.hash hash_val xs) (ht_find hfunc compare fuel m table key key_size found)
    unfolding ht_find
    ht_find-Looked fuel m xs found h enough =
        let s : (key_size == 0) ≡ false = ground arith in
        rw (s, get_bucket-home)
          (find_in-Looked fuel m home hash_val xs home (m.links.next home)
            (Linked-start m.links home xs home h.linked) enough h.linked
            (let o = h.once home in ground arith))

    -- ht_insert of an entry that is in no chain, and ht_find of the key after it, where the nodes that the
    -- bucket had differ from the key, where the comparison tells that the entry has it, and with fuel for
    -- more rounds than there are nodes then: both end with A_OK, and the entry is found.
    pub ht_find-ht_insert :
        (fuel : ℕ) (m : Nodes) (xs : List Ptr) (entry found : Ptr)
        → IsRing m.links (bucket table.buckets (bucket_offset table hash_val)) xs
        → one entry (bucket table.buckets (bucket_offset table hash_val)) + count entry xs ≡ 0
        → entry ≢ null
        → All (Differs m.hash hash_val) xs
        → compare entry key key_size ≡ (a_ok, true)
        → length xs + 1 < fuel
        → Ends
            (λ (ret, u).
              (ret ≡ a_ok)
              × (ht_find hfunc compare fuel u table key key_size found ≡ done (a_ok, entry)))
            (ht_insert hfunc compare m table key key_size entry)
    unfolding ht_insert ht_find put_entry
    ht_find-ht_insert fuel m xs entry found h out ne d c enough =
        let s : (key_size == 0) ≡ false = ground arith in
        let e : (entry == null) ≡ false = ground arith in
        let ring = (list_inserts-IsRing m.links home [] xs entry h out).1 in
        let u = put_entry m home entry hash_val in
        rw (s, e, get_bucket-home)
          (ends (
            refl,
            (find_in-last fuel u home hash_val xs entry home (u.links.next home)
                (Linked-start u.links home (xs ++ entry ∷ []) home ring.linked)
                (omega (arith, enough, length-append xs (entry ∷ []))) ring.linked
                (let o = ring.once home in ground arith)
                (still m.hash hash_val entry xs (omega (arith, out)) d) (ground arith) c),
          ))
