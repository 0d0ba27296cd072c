-- ===== src/FixedHeap/Down.antt =====
-- __fixed_heap_heapify moves an item down until no child ranks higher.
use mathlib.Core.Logic.{◌⊎◌}
use trading_base.Base.{
  ℕ, zero, suc, ◌+◌, ◌-◌, ◌≤◌, ◌<◌, ◌≡◌, ◌≢◌, List, arith, length, ltb, ◌==◌, ==_iff, sym, Ends,
  ends, Ends-if, if◌then◌else◌, done,
}
use trading_base.Base.Arrays.{exchange, length-exchange, get_or-exchange}
use trading_base.FixedHeap.{
  Ptr, null, Compare, fixed_heap_parent, fixed_heap_left, fixed_heap_right, sift_down, larger,
  heapify,
}
use trading_base.FixedHeap.Order.{
  Ranks, item, key, IsHeap, IsBridged, Sifted, Sifted-refl, Sifted-exchange, load-done, swap-done,
}

-- Only the edges below `i` may be out of order.
pub record DownInv (rank : Ptr → ℕ) (n : ℕ) (a : List Ptr) (i : ℕ) : Type 0 where
  pub fits : n ≤ length a
  pub edges :
      (c : ℕ)
      → 0 < c
      → c < n
      → fixed_heap_parent c ≢ i
      → key rank a c ≤ key rank a (fixed_heap_parent c)
  pub bridged : IsBridged rank n a i

-- The item that the loop picks: `i` or a child of `i`, and the greatest of these.
record IsGreatest (rank : Ptr → ℕ) (n : ℕ) (a : List Ptr) (i m : ℕ) : Type 0 where
  inside : m < n
  place : (m ≡ i) ⊎ ((m ≡ fixed_heap_left i) ⊎ (m ≡ fixed_heap_right i))
  self : key rank a i ≤ key rank a m
  children : (c : ℕ) → 0 < c → c < n → fixed_heap_parent c ≡ i → key rank a c ≤ key rank a m

module _ {compare : Compare} {rank : Ptr → ℕ} (sign : Ranks compare rank) where
  -- The test picks the one of `c` and `m` that ranks higher, `m` where `c` is past the end.
  pub larger-done :
      (n : ℕ) (a : List Ptr) (c m : ℕ)
      → n ≤ length a
      → m < n
      → larger compare a n c m
        ≡ done (if ltb c n then (if ltb (key rank a m) (key rank a c) then c else m) else m)
  unfolding larger
  larger-done n a c m fits hm = ground (
    arith,
    λ (h : c < length a). load-done a c h,
    load-done a m (omega arith),
    sign.positive (item a c) (item a m),
  )

  -- The index that the loop calls `largest`.
  abbrev pub greatest : ℕ → List Ptr → ℕ → ℕ → ℕ
  greatest n a c m = if ltb c n then (if ltb (key rank a m) (key rank a c) then c else m) else m

  greatest-IsGreatest :
      (n : ℕ) (a : List Ptr) (i : ℕ)
      → i < n
      → IsGreatest rank n a i
          (greatest n a (fixed_heap_right i) (greatest n a (fixed_heap_left i) i))
  greatest-IsGreatest n a i hi = record {
    inside = ground arith;
    place = ground arith;
    self = ground arith;
    children = λ c p q r. ground (arith, child c p r);
  }
    where
      child :
          (c : ℕ)
          → 0 < c
          → fixed_heap_parent c ≡ i
          → (c ≡ fixed_heap_left i) ⊎ (c ≡ fixed_heap_right i)
      child c p r = omega arith

  exchange-DownInv :
      (n : ℕ) (a : List Ptr) (i m : ℕ)
      → i < n
      → DownInv rank n a i
      → IsGreatest rank n a i m
      → m ≢ i
      → DownInv rank n (exchange a i m null) m
  exchange-DownInv n a i m hi v g ne =
      let at =
        get_or-exchange a i m null (omega (arith, v.fits)) (omega (arith, v.fits, g.inside)) in
      record {
        fits = omega (arith, v.fits, length-exchange a i m null);
        edges = λ c p q r. ground (
          arith,
          at c,
          at (fixed_heap_parent c),
          v.edges c,
          v.bridged m,
          g.children c,
          g.self,
          g.place,
        );
        bridged = λ c p q r t. ground (arith, at c, at (fixed_heap_parent m), v.edges c, g.place);
      }

  settled-IsHeap :
      (n : ℕ) (a : List Ptr) (i m : ℕ)
      → DownInv rank n a i
      → IsGreatest rank n a i m
      → m ≡ i
      → IsHeap rank n a
  settled-IsHeap n a i m v g stop = λ c p q. ground (arith, v.edges c, g.children c)

  greatest_lower :
      (n : ℕ) (a : List Ptr) (i m : ℕ) → IsGreatest rank n a i m → m ≢ i → n - m < n - i
  greatest_lower n a i m g ne = ground (arith, g.inside, g.place)

  sift_down-Sifted :
      (k n : ℕ) (a : List Ptr) (i : ℕ)
      → n - i < k
      → i < n
      → DownInv rank n a i
      → Ends (Sifted rank n a) (sift_down compare k n a i)
  unfolding sift_down
  sift_down-Sifted zero n a i f hi v = absurd (omega arith)
  sift_down-Sifted (suc k) n a i f hi v =
      let l = greatest n a (fixed_heap_left i) i in
      let m = greatest n a (fixed_heap_right i) l in
      let g = greatest-IsGreatest n a i hi in
      let hl : l < n = ground arith in
      let below : m < length a = omega (arith, g.inside, v.fits) in
      rw
        (
          larger-done n a (fixed_heap_left i) i v.fits hi,
          larger-done n a (fixed_heap_right i) l v.fits hl,
          swap-done a i m (omega (arith, v.fits)) below,
        )
        (Ends-if (m == i)
          (λ stop. ends (Sifted-refl rank (settled-IsHeap n a i m v g ((==_iff m i).0 stop))))
          (λ go.
            let ne : m ≢ i = λ e. cc (sym go, (==_iff m i).1 e) in
            Sifted-exchange rank hi g.inside v.fits (
              sift_down-Sifted k n (exchange a i m null) m
                (omega (arith, greatest_lower n a i m g ne)) g.inside
                (exchange-DownInv n a i m hi v g ne))))

  -- From a heap that is out of order only below `idx`, __fixed_heap_heapify makes a heap of the
  -- same items, and the loop ends.
  pub heapify-Sifted :
      (n : ℕ) (a : List Ptr) (idx : ℕ)
      → idx < n
      → DownInv rank n a idx
      → Ends (Sifted rank n a) (heapify compare a n idx)
  unfolding heapify
  heapify-Sifted n a idx h v = sift_down-Sifted (n + 1) n a idx (omega arith) h v
