-- ===== src/FixedHeap/Push.antt =====
-- fixed_heap_push.
use mathlib.Core.List.Perm
use trading_base.Base.{
  ℕ, suc, false, ◌⊎◌, ◌+◌, ◌≤◌, ◌<◌, ◌≡◌, refl, List, [], ◌∷◌, ◌++◌, Perm, none, some, arith,
  length, take, set, get_or, done, Ends, ends, Ends-bind, leb, concat-perm, length-set,
}
use trading_base.Base.Arrays.{take-set_ge, take-suc, get_or-set}
use trading_base.ResultCode.{a_ok, a_e_badargs, a_e_nospc}
use trading_base.FixedHeap.{Ptr, null, Compare, FixedHeap, fixed_heap_push}
use trading_base.FixedHeap.Order.{Ranks, IsValid}
use trading_base.FixedHeap.Up.{heap_insert-Sifted}

-- A valid heap of exactly `items`, with room for `capacity`.
pub record Holds (rank : Ptr → ℕ) (items : List Ptr) (capacity : ℕ) (h : FixedHeap) : Type 0 where
  pub array : List Ptr
  pub valid : IsValid rank h array
  pub same : Perm (take h.entries array) items
  pub room : h.capacity ≡ capacity

write_next-perm :
    (n : ℕ) (a : List Ptr) (v : Ptr) → n < length a → Perm (take (n + 1) (set a n v)) (v ∷ take n a)
write_next-perm n a v h =
    let size = length-set a n v in
    let shape : take (n + 1) (set a n v) ≡ take n a ++ v ∷ [] =
      rw (one, take-suc n (set a n v) null (omega arith), take-set_ge n a n v (omega arith), last)
        refl in
    rw shape (concat-perm (take n a) v)
  where
    one : n + 1 ≡ suc n
    one = omega arith

    last : get_or (set a n v) n null ≡ v
    last = ground (arith, get_or-set a n n v null h)

module _ {compare : Compare} {rank : Ptr → ℕ} (sign : Ranks compare rank) where
  -- On a valid heap with room, fixed_heap_push ends with A_OK, and the heap is valid again and holds
  -- the new item besides the old ones.
  pub fixed_heap_push-Holds :
      (h : FixedHeap) (a : List Ptr) (v : Ptr)
      → IsValid rank h a
      → h.entries < h.capacity
      → Ends
          (λ (r, h'). (r ≡ a_ok) × Holds rank (v ∷ take h.entries a) h.capacity h')
          (fixed_heap_push compare h v)
  unfolding fixed_heap_push
  fixed_heap_push-Holds h a v valid room =
      rw (valid.buffer, not_full)
        (Ends-bind (heap_insert-Sifted sign h.entries a v (omega (arith, valid.size)) valid.order)
          λ b s. ends (
            refl,
            record {
              array = b;
              valid = record {
                buffer = refl;
                size = omega (arith, s.size, length-set a h.entries v, valid.size);
                bounded = omega arith;
                order = s.heap;
              };
              same = Perm.trans s.same (write_next-perm h.entries a v (omega (arith, valid.size)));
              room = refl;
            },
          ))
    where
      not_full : leb h.capacity h.entries ≡ false
      not_full = ground arith

  -- On a full heap fixed_heap_push ends with A_E_NOSPC, on one without an array with A_E_BADARGS,
  -- and neither changes the heap.
  pub fixed_heap_push_refuses :
      (h : FixedHeap) (v : Ptr)
      → (h.heap ≡ none) ⊎ (h.capacity ≤ h.entries)
      → fixed_heap_push compare h v
        ≡ done (elim h.heap [ none ↦ a_e_badargs | some a ↦ a_e_nospc ], h)
  unfolding fixed_heap_push
  fixed_heap_push_refuses h v why = ground arith
