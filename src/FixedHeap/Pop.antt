-- ===== src/FixedHeap/Pop.antt =====
-- fixed_heap_pop and fixed_heap_peek_head.
use mathlib.Core.List.Perm
use trading_base.Base.{
  ℕ, suc, ◌+◌, ◌-◌, ◌≤◌, ◌<◌, ◌≡◌, ◌⊎◌, refl, List, ◌∷◌, Perm, none, some, arith, length, take, set,
  done, Ends, ends, Ends-bind, ◌==◌, false, length-set,
}
use trading_base.Base.Arrays.{take-set_ge, get_or-set}
use trading_base.ResultCode.{AResult, a_ok, a_e_badargs, a_e_empty}
use trading_base.FixedHeap.{
  Ptr, null, Compare, FixedHeap, fixed_heap_pop, fixed_heap_peek_head, heapify,
}
use trading_base.FixedHeap.Order.{
  Ranks, item, Sifted, IsValid, root_greatest, load-done, store-done,
}
use trading_base.FixedHeap.Slot.{IsMoved, moved-DownInv, moved-perm, heapify_root}

-- What fixed_heap_pop leaves: a valid heap of the other items, below the one that it gave out.
pub record Popped (rank : Ptr → ℕ) (h : FixedHeap) (a : List Ptr) (h' : FixedHeap) : Type 0 where
  pub array : List Ptr
  pub valid : IsValid rank h' array
  pub others : Perm (item a 0 ∷ take h'.entries array) (take h.entries a)
  pub fewer : h'.entries + 1 ≡ h.entries
  pub room : h'.capacity ≡ h.capacity

-- `x` is the item that fixed_heap_peek_head and fixed_heap_pop give out, and none ranks higher.
abbrev pub IsTop : (Ptr → ℕ) → FixedHeap → List Ptr → Ptr → Type 0
IsTop rank h a x = (x ≡ item a 0) × ((i : ℕ) → i < h.entries → rank (item a i) ≤ rank x)

module _ {compare : Compare} {rank : Ptr → ℕ} (sign : Ranks compare rank) where
  -- The array that is sifted: the last item at the root, NULL behind the rest.
  abbrev cut : ℕ → List Ptr → List Ptr
  cut n a = set (set a 0 (item a n)) n null

  cut-IsMoved : (n : ℕ) (a : List Ptr) → n < length a → IsMoved n a 0 (cut n a)
  cut-IsMoved n a fits = λ c h. ground (
    arith,
    get_or-set (set a 0 (item a n)) n c null null (omega (arith, length-set a 0 (item a n))),
    get_or-set a 0 c (item a n) null (omega arith),
  )

  cut-perm :
      (n : ℕ) (a : List Ptr) → n < length a → Perm (item a 0 ∷ take n (cut n a)) (take (suc n) a)
  cut-perm n a fits =
      rw (take-set_ge n (set a 0 (item a n)) n null (omega arith))
        (moved-perm n a 0 (omega arith) fits)

  pop_sift :
      (n : ℕ) (h : FixedHeap) (a : List Ptr)
      → IsValid rank h a
      → h.entries ≡ suc n
      → Ends (Sifted rank n (cut n a)) (heapify compare (cut n a) n 0)
  pop_sift n h a v size =
      let fits : n < length a = omega (arith, v.size, v.bounded) in
      heapify_root sign n (cut n a) (
        moved-DownInv sign n a 0 (cut n a) (λ c p q. v.order c p (omega arith))
          (λ p. absurd (omega arith)) (cut-IsMoved n a fits)
          (omega (arith, length-set (set a 0 (item a n)) n null, length-set a 0 (item a n))))

  -- On a valid heap with an item, fixed_heap_pop ends with A_OK, gives out an item that no other
  -- outranks, and leaves a valid heap of exactly the other items.
  pub fixed_heap_pop-Popped :
      (h : FixedHeap) (a : List Ptr)
      → IsValid rank h a
      → 0 < h.entries
      → Ends
          (λ (r, out, h').
            (r ≡ a_ok) × ((x : Ptr) × (out ≡ some x) × IsTop rank h a x) × Popped rank h a h')
          (fixed_heap_pop compare h)
  unfolding fixed_heap_pop
  fixed_heap_pop-Popped h a v some_left =
      let n = h.entries - 1 in
      let size : h.entries ≡ suc n = omega arith in
      let fits : n < length a = omega (arith, v.size, v.bounded) in
      let full = length-set a 0 (item a n) in
      rw
        (
          v.buffer,
          not_empty,
          load-done a 0 (omega arith),
          load-done a n fits,
          store-done a 0 (item a n) (omega arith),
          store-done (set a 0 (item a n)) n null (omega (arith, full)),
        )
        (Ends-bind (pop_sift n h a v size) λ d s. ends (
          refl,
          (item a 0, refl, (refl, λ i p. root_greatest rank h.entries a i v.order p)),
          record {
            array = d;
            valid = record {
              buffer = refl;
              size = omega (arith, s.size, full, length-set (set a 0 (item a n)) n null, v.size);
              bounded = omega (arith, v.bounded);
              order = s.heap;
            };
            others = rw (← size) at (Perm.trans (Perm.cons _ s.same) (cut-perm n a fits));
            fewer = omega arith;
            room = refl;
          },
        ))
    where
      not_empty : (h.entries == 0) ≡ false
      not_empty = ground arith

  -- fixed_heap_peek_head gives out the item that fixed_heap_pop would, and none outranks it.
  pub fixed_heap_peek_head-IsTop :
      (h : FixedHeap) (a : List Ptr)
      → IsValid rank h a
      → 0 < h.entries
      → (fixed_heap_peek_head h ≡ done (a_ok, some (item a 0))) × IsTop rank h a (item a 0)
  unfolding fixed_heap_peek_head
  fixed_heap_peek_head-IsTop h a v left = (
    rw (v.buffer, not_empty, load-done a 0 (omega (arith, v.size, v.bounded))),
    (refl, λ i p. root_greatest rank h.entries a i v.order p),
  )
    where
      not_empty : (h.entries == 0) ≡ false
      not_empty = ground arith

  -- Without an item fixed_heap_pop and fixed_heap_peek_head end with A_E_EMPTY, without an array
  -- with A_E_BADARGS. They give out nothing and change nothing.
  pub fixed_heap_pop_refuses :
      (h : FixedHeap)
      → (h.heap ≡ none) ⊎ (h.entries ≡ 0)
      → let r : AResult = elim h.heap [ none ↦ a_e_badargs | some a ↦ a_e_empty ] in
        (fixed_heap_pop compare h ≡ done (r, none, h)) × (fixed_heap_peek_head h ≡ done (r, none))
  unfolding fixed_heap_pop fixed_heap_peek_head
  fixed_heap_pop_refuses h why = ground arith
