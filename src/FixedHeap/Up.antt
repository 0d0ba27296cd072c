-- ===== src/FixedHeap/Up.antt =====
-- The loop of __fixed_heap_insert moves an item up until its parent ranks no lower.
use trading_base.Base.{
  ◌+◌, set, length-set, ℕ, zero, suc, ◌≤◌, ◌<◌, ◌≢◌, List, arith, length, ltb, Ends, ends, Ends-if,
}
use trading_base.Base.Int.{is_neg}
use trading_base.Base.Arrays.{exchange, length-exchange, get_or-exchange, get_or-set}
use trading_base.FixedHeap.{heap_insert, Ptr, null, Compare, fixed_heap_parent, sift_up}
use trading_base.FixedHeap.Order.{
  Ranks, item, key, IsHeap, IsBridged, Sifted, store-done, Sifted-refl, Sifted-exchange, load-done,
  swap-done,
}

-- Only the edge above `i` may be out of order.
pub record UpInv (rank : Ptr → ℕ) (n : ℕ) (a : List Ptr) (i : ℕ) : Type 0 where
  pub fits : n ≤ length a
  pub inside : i < n
  pub edges : (c : ℕ) → 0 < c → c < n → c ≢ i → key rank a c ≤ key rank a (fixed_heap_parent c)
  pub bridged : IsBridged rank n a i

module _ {compare : Compare} {rank : Ptr → ℕ} (sign : Ranks compare rank) where
  exchange-UpInv :
      (n : ℕ) (a : List Ptr) (i : ℕ)
      → UpInv rank n a i
      → 0 < i
      → key rank a (fixed_heap_parent i) < key rank a i
      → UpInv rank n (exchange a i (fixed_heap_parent i) null) (fixed_heap_parent i)
  exchange-UpInv n a i v positive below =
      let p = fixed_heap_parent i in
      let at =
        get_or-exchange a i p null (omega (arith, v.fits, v.inside))
          (omega (arith, v.fits, v.inside)) in
      record {
        fits = omega (arith, v.fits, length-exchange a i p null);
        inside = omega (arith, v.inside);
        edges = λ c q r s.
            ground (arith, at c, at (fixed_heap_parent c), v.edges c, v.edges p, v.bridged c);
        bridged = λ c q r s t.
            ground (arith, at c, at (fixed_heap_parent p), v.edges c, v.edges p, v.edges i);
      }

  sift_up-Sifted :
      (k n : ℕ) (a : List Ptr) (i : ℕ)
      → i < k
      → UpInv rank n a i
      → Ends (Sifted rank n a) (sift_up compare k a i)
  unfolding sift_up
  sift_up-Sifted zero n a i f v = absurd (omega arith)
  sift_up-Sifted (suc k) n a i f v =
      let p = fixed_heap_parent i in
      let hi : i < length a = omega (arith, v.fits, v.inside) in
      let hp : p < length a = omega (arith, hi) in
      rw (load-done a p hp, load-done a i hi, swap-done a i p hi hp)
        (Ends-if (ltb 0 i)
          (λ up.
            Ends-if (is_neg (compare (item a p) (item a i)))
              (λ below. Sifted-exchange rank v.inside (omega (arith, v.inside)) v.fits (
                sift_up-Sifted k n (exchange a i p null) p (ground arith) (
                  exchange-UpInv n a i v (ground arith)
                    (ground (arith, sign.neg (item a p) (item a i))))))
              (λ settled. ends (
                Sifted-refl rank
                  λ c q r. ground (arith, v.edges c, sign.neg (item a p) (item a i)))))
          (λ root. ends (Sifted-refl rank λ c q r. v.edges c q r (ground arith))))

  -- __fixed_heap_insert puts the key behind the `n` items of a heap and makes a heap of them all.
  pub heap_insert-Sifted :
      (n : ℕ) (a : List Ptr) (v : Ptr)
      → n < length a
      → IsHeap rank n a
      → Ends (Sifted rank (n + 1) (set a n v)) (heap_insert compare a v n)
  unfolding heap_insert
  heap_insert-Sifted n a v h order =
      let at = λ (c : ℕ). get_or-set a n c v null h in
      rw (store-done a n v h) (
        sift_up-Sifted (n + 1) (n + 1) (set a n v) n (omega arith) (record {
          fits = omega (arith, length-set a n v);
          inside = omega arith;
          edges = λ c p q r. ground (arith, at c, at (fixed_heap_parent c), order c);
          bridged = λ c p q r s. ground arith;
        }))
