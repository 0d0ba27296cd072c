-- ===== src/FixedHeap/Remove.antt =====
-- fixed_heap_remove_item.
use mathlib.Core.List.Perm
use trading_base.Base.{
  ℕ, zero, suc, ◌+◌, ◌-◌, ◌≤◌, ◌<◌, ◌≡◌, ◌≢◌, refl, List, ◌∷◌, Perm, none, some, arith, length,
  take, set, done, Ends, ends, Ends-bind, Ends-mono, Ends-if, Run, ◌>>=◌, ltb, ◌==◌, false, true,
  length-set, Bool-cases, inl, inr, length-take,
}
use native.Mathlib.Numerals.{add-one}
use trading_base.Base.Arrays.{get_or-set, exchange, length-exchange, exchange-perm, take-exchange}
use trading_base.ResultCode.{a_ok, a_e_notfound}
use trading_base.FixedHeap.{
  Ptr, null, Compare, FixedHeap, fixed_heap_remove_item, cells, find_item, heapify, sift_down,
  fixed_heap_parent, fixed_heap_left, fixed_heap_right,
}
use trading_base.FixedHeap.Order.{
  Ranks, item, key, IsHeap, Sifted, Sifted-refl, IsValid, load-done, store-done, swap-done,
  root_greatest,
}
use trading_base.FixedHeap.Down.{heapify-Sifted, larger-done, greatest}
use trading_base.FixedHeap.Slot.{IsMoved, moved-DownInv, moved-perm}

-- `x` is not among the cells from `i` to before `j`.
abbrev pub IsAbsent : List Ptr → Ptr → ℕ → ℕ → Type 0
IsAbsent a x i j = (c : ℕ) → i ≤ c → c < j → item a c ≢ x

find_item_absent :
    (k : ℕ) (a : List Ptr) (x : Ptr) (i : ℕ)
    → i + k ≤ length a
    → IsAbsent a x i (i + k)
    → (compare : Compare) → find_item compare k a x i ≡ done none
unfolding find_item
find_item_absent zero a x i fits out compare = refl
find_item_absent (suc k) a x i fits out compare =
    rw (load-done a i (omega arith), miss)
      (find_item_absent k a x (i + 1) (omega arith) (λ c p q. out c (omega arith) (omega arith))
        compare)
  where
    miss : (item a i == x) ≡ false
    miss = ground (arith, out i)

find_item_present :
    (k : ℕ) (a : List Ptr) (x : Ptr) (i j : ℕ)
    → i + k ≤ length a
    → i ≤ j
    → j < i + k
    → item a j ≡ x
    → IsAbsent a x i j
    → (compare : Compare) → find_item compare k a x i ≡ done (some j)
unfolding find_item
find_item_present zero a x i j fits p q e out compare = absurd (omega arith)
find_item_present (suc k) a x i j fits p q e out compare = elim (Bool-cases (i == j)) [
  | inl here ↦ rw (load-done a i (omega arith), hit here) (ground arith)
  | inr there ↦
      rw (load-done a i (omega arith), miss there)
        (find_item_present k a x (i + 1) j (omega arith) (ground arith) (omega arith) e
          (λ c r s. out c (omega arith) s) compare)
]
  where
    hit : (i == j) ≡ true → (item a i == x) ≡ true
    hit same = ground arith

    miss : (i == j) ≡ false → (item a i == x) ≡ false
    miss other = ground (arith, out i)

-- The heap's items stand in an array of `capacity` cells, in any order.
pub record HasArray (h : FixedHeap) (a : List Ptr) : Type 0 where
  pub buffer : h.heap ≡ some a
  pub size : length a ≡ h.capacity
  pub bounded : h.entries ≤ h.capacity

-- The array after the search: the last item in the slot of the one that is removed.
abbrev pub moved : ℕ → List Ptr → ℕ → List Ptr
moved n a j = set a j (item a n)

moved-IsMoved : (n : ℕ) (a : List Ptr) (j : ℕ) → j < length a → IsMoved n a j (moved n a j)
moved-IsMoved n a j fits = λ c h. get_or-set a j c (item a n) null fits

-- What fixed_heap_remove_item leaves, whatever the order of the heap.
pub record Removed (h : FixedHeap) (a : List Ptr) (x : Ptr) (h' : FixedHeap) (b : List Ptr)
    : Type 0 where
  pub buffer : h'.heap ≡ some b
  pub size : length b ≡ length a
  pub others : Perm (x ∷ take h'.entries b) (take h.entries a)
  pub fewer : h'.entries + 1 ≡ h.entries
  pub room : h'.capacity ≡ h.capacity

module _ {compare : Compare} {rank : Ptr → ℕ} (sign : Ranks compare rank) where
  -- The items stay the same, in an array of the same size.
  abbrev Keeps : ℕ → List Ptr → List Ptr → Type 0
  Keeps n a b = Perm (take n b) (take n a) × (length b ≡ length a)

  exchange-Keeps :
      (n : ℕ) (a : List Ptr) (i m : ℕ) {r : Run (List Ptr)}
      → i < n
      → m < n
      → n ≤ length a
      → Ends (Keeps n (exchange a i m null)) r
      → Ends (Keeps n a) r
  exchange-Keeps n a i m hi hm fits run =
      let size = length-take n a fits in
      let swapped = exchange-perm (take n a) i m null (omega arith) (omega arith) in
      Ends-mono run λ b (same, long). (
        Perm.trans same (rw (take-exchange n a i m null hi hm) swapped),
        omega (arith, length-exchange a i m null),
      )

  -- The loop ends and loses no item, also where the order is broken.
  sift_down-Keeps :
      (k n : ℕ) (a : List Ptr) (i : ℕ)
      → n - i < k
      → i < n
      → n ≤ length a
      → Ends (Keeps n a) (sift_down compare k n a i)
  unfolding sift_down
  sift_down-Keeps zero n a i f hi fits = absurd (omega arith)
  sift_down-Keeps (suc k) n a i f hi fits =
      let l = greatest sign n a (fixed_heap_left i) i in
      let m = greatest sign n a (fixed_heap_right i) l in
      let hl : l < n = ground arith in
      let hm : m < n = ground arith in
      rw
        (
          larger-done sign n a (fixed_heap_left i) i fits hi,
          larger-done sign n a (fixed_heap_right i) l fits hl,
          swap-done a i m (omega arith) (omega arith),
        )
        (Ends-if (m == i) (λ stop. ends (Perm.refl _, refl))
          (λ go. exchange-Keeps n a i m hi hm fits (
            sift_down-Keeps k n (exchange a i m null) m (ground arith) hm
              (omega (arith, length-exchange a i m null)))))

  -- Past the last item __fixed_heap_heapify changes nothing.
  heapify_past : (n : ℕ) (a : List Ptr) (i : ℕ) → n ≤ i → heapify compare a n i ≡ done a
  unfolding heapify
  heapify_past n a i h = rw (add-one n) (at_once n)
    where
      at_once : (k : ℕ) → sift_down compare (suc k) n a i ≡ done a
      at_once k = ground arith

  -- An item that no child outranks stays where it is.
  heapify_stays :
      (n : ℕ) (b : List Ptr) (i : ℕ)
      → i < n
      → n ≤ length b
      → ((c : ℕ) → 0 < c → c < n → fixed_heap_parent c ≡ i → key rank b c ≤ key rank b i)
      → heapify compare b n i ≡ done b
  unfolding heapify
  heapify_stays n b i hi fits top = rw (add-one n) (at_once n)
    where
      right : greatest sign n b (fixed_heap_right i) i ≡ i
      right = ground (arith, top (fixed_heap_right i))

      left : greatest sign n b (fixed_heap_left i) i ≡ i
      left = ground (arith, top (fixed_heap_left i))

      at_once : (k : ℕ) → sift_down compare (suc k) n b i ≡ done b
      at_once k =
          rw
            (
              larger-done sign n b (fixed_heap_left i) i fits hi,
              left,
              larger-done sign n b (fixed_heap_right i) i fits hi,
              right,
            )
            (ground arith)

  heapify-Keeps :
      (n : ℕ) (a : List Ptr) (i : ℕ) → n ≤ length a → Ends (Keeps n a) (heapify compare a n i)
  unfolding heapify
  heapify-Keeps n a i fits = elim (Bool-cases (ltb i n)) [
    | inl inside ↦ sift_down-Keeps (n + 1) n a i (omega arith) (ground arith) fits
    | inr past ↦ rw (heapify_past n a i (ground arith)) (ends (Perm.refl _, refl))
  ]

  module _ (h : FixedHeap) (a : List Ptr) (x : Ptr) (j : ℕ) (stored : HasArray h a)
      (inside : j < h.entries) (hit : item a j ≡ x) (first : IsAbsent a x 0 j) where
    abbrev last : ℕ
    last = h.entries - 1

    fits : last < length a
    fits = omega (arith, stored.size, stored.bounded)

    -- The search finds the first slot with the item, and the last item moves there.
    remove_reduces : fixed_heap_remove_item compare h x ≡ (
        heapify compare (moved last a j) last j >>= λ c.
        done (a_ok, record h { heap = some c; entries = last }))
    unfolding fixed_heap_remove_item
    remove_reduces = rw (
      stored_cells,
      find_item_present h.entries a x 0 j (omega (arith, stored.size, stored.bounded)) (omega arith)
          (omega arith) hit first compare,
      stored_cells,
      lt,
      load-done a last fits,
      store-done a j (item a last) (omega (arith, fits)),
    )
      where
        stored_cells : cells h ≡ a
        stored_cells = rw (stored.buffer, cells)

        lt : ltb j h.entries ≡ true
        lt = ground arith

    remove_Removed :
        {P : List Ptr → Type 0}
        → ((b : List Ptr) → P b → Keeps last (moved last a j) b)
        → Ends P (heapify compare (moved last a j) last j)
        → Ends
            (λ (r, h'). (r ≡ a_ok) × ((b : List Ptr) × Removed h a x h' b × P b))
            (fixed_heap_remove_item compare h x)
    remove_Removed keeps run =
        let full : h.entries ≡ suc last = omega arith in
        rw remove_reduces (
          Ends-bind run λ b p. ends (
            refl,
            (
              b,
              record {
                buffer = refl;
                size = omega (arith, (keeps b p).1, length-set a j (item a last));
                others =
                    rw (← full, hit) at
                      (Perm.trans (Perm.cons _ (keeps b p).0)
                        (moved-perm last a j (omega arith) fits));
                fewer = omega arith;
                room = refl;
              },
              p,
            ),
          ))

    -- fixed_heap_remove_item of an item that is present ends with A_OK and takes exactly one copy of
    -- it away, whether or not the heap is in order.
    pub fixed_heap_remove_item-Removed :
        Ends
          (λ (r, h'). (r ≡ a_ok) × ((b : List Ptr) × Removed h a x h' b))
          (fixed_heap_remove_item compare h x)
    fixed_heap_remove_item-Removed =
        let size = length-set a j (item a last) in
        Ends-mono
          (remove_Removed (λ b k. k)
            (heapify-Keeps last (moved last a j) j (omega (arith, fits, size))))
          λ (r, h') (fine, (b, removed, kept)). (fine, (b, removed))

    module _ (order : IsHeap rank h.entries a) where
      moved-fits : last ≤ length (moved last a j)
      moved-fits = omega (arith, fits, length-set a j (item a last))

      moved-order : IsHeap rank (suc last) a
      moved-order = λ c p q. order c p (omega arith)

      sifted :
          key rank a last ≤ key rank a (fixed_heap_parent j)
          → Ends (Sifted rank last (moved last a j)) (heapify compare (moved last a j) last j)
      sifted low = elim (Bool-cases (ltb j last)) [
        | inl before ↦ heapify-Sifted sign last (moved last a j) j (ground arith) (
            moved-DownInv sign last a j (moved last a j) moved-order (λ _. low)
              (moved-IsMoved last a j (omega (arith, fits))) moved-fits)
        | inr final ↦ rw (heapify_past last (moved last a j) j (ground arith)) (
            ends (
              Sifted-refl rank λ c p q. ground (
                arith,
                moved-IsMoved last a j (omega (arith, fits)) c,
                moved-IsMoved last a j (omega (arith, fits)) (fixed_heap_parent c),
                order c,
              )))
      ]

      -- On a valid heap, where the last item does not outrank the parent of the first slot with the
      -- item, the heap is valid again.
      pub fixed_heap_remove_item-IsValid :
          key rank a last ≤ key rank a (fixed_heap_parent j)
          → Ends
              (λ (r, h'). (r ≡ a_ok) × ((b : List Ptr) × Removed h a x h' b × IsValid rank h' b))
              (fixed_heap_remove_item compare h x)
      fixed_heap_remove_item-IsValid low =
          Ends-mono (remove_Removed (λ b s. (s.same, s.size)) (sifted low))
            λ (r, h') (fine, (b, removed, s)). (
              fine,
              (
                b,
                removed,
                record {
                  buffer = removed.buffer;
                  size = omega (arith, removed.size, removed.room, stored.size);
                  bounded = omega (arith, removed.fewer, removed.room, stored.bounded);
                  order = λ c p q. s.heap c p (omega (arith, removed.fewer));
                },
              ),
            )

      -- A last item that outranks the parent of the slot is another than that of the slot.
      high_inside : key rank a (fixed_heap_parent j) < key rank a last → (0 < j) × (j < last)
      high_inside high =
          ground (arith, order last, root_greatest rank h.entries a last order (omega arith))

      -- A replacement that outranks the parent of its slot stays in the slot: the loop only looks
      -- down. The heap is then out of order there.
      pub fixed_heap_remove_item_misorders :
          key rank a (fixed_heap_parent j) < key rank a last
          → Ends
              (λ (r, h').
                (r ≡ a_ok)
                × ((b : List Ptr) × Removed h a x h' b
                    × (j < h'.entries)
                    × (key rank b (fixed_heap_parent j) < key rank b j)))
              (fixed_heap_remove_item compare h x)
      fixed_heap_remove_item_misorders high =
          let (up, before) = high_inside high in
          let at = moved-IsMoved last a j (omega (arith, fits)) in
          let stays =
            heapify_stays last (moved last a j) j before moved-fits
              (λ c p q r. ground (arith, at c, at j, order c, order j)) in
          Ends-mono
            (remove_Removed {P = λ b. b ≡ moved last a j} (λ b e. rw e (Perm.refl _, refl))
              (rw stays (ends refl)))
            λ (r, h') (fine, (b, removed, e)). (
              fine,
              (
                b,
                removed,
                omega (arith, removed.fewer),
                rw e (ground (arith, at j, at (fixed_heap_parent j))),
              ),
            )

-- An item that is not among the heap's items is answered by A_E_NOTFOUND, and nothing changes.
pub fixed_heap_remove_item_absent :
    (compare : Compare) (h : FixedHeap) (a : List Ptr) (x : Ptr)
    → HasArray h a
    → IsAbsent a x 0 h.entries
    → fixed_heap_remove_item compare h x ≡ done (a_e_notfound, h)
unfolding fixed_heap_remove_item
fixed_heap_remove_item_absent compare h a x stored out = rw (
  stored_cells,
  find_item_absent h.entries a x 0 (omega (arith, stored.size, stored.bounded)) out' compare,
)
  where
    stored_cells : cells h ≡ a
    stored_cells = rw (stored.buffer, cells)

    out' : IsAbsent a x 0 (0 + h.entries)
    out' c p q = out c p (omega arith)
