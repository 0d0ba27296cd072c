-- ===== src/FixedHeap/Slot.antt =====
-- The last item of the heap is moved into the slot of another, as fixed_heap_pop and
-- fixed_heap_remove_item do, and sifted down from there.
use mathlib.Core.List.Perm
use trading_base.Base.{
  ℕ, zero, suc, ◌≤◌, ◌<◌, ◌≡◌, List, ◌∷◌, Perm, arith, length, take, set, Ends, ends, ◌==◌,
  if◌then◌else◌, concat-perm, length-take, inl, inr, Bool-cases, ==_iff,
}
use trading_base.Base.Arrays.{take-set_ge, take-set, take-suc, set-perm, get_or-take}
use trading_base.FixedHeap.{Ptr, null, Compare, heapify, fixed_heap_parent}
use trading_base.FixedHeap.Order.{Ranks, item, key, IsHeap, Sifted, Sifted-refl}
use trading_base.FixedHeap.Down.{DownInv, heapify-Sifted}

moved_inside-perm :
    (n : ℕ) (a : List Ptr) (i : ℕ)
    → i < n
    → n < length a
    → Perm (item a i ∷ take n (set a i (item a n))) (take (suc n) a)
moved_inside-perm n a i h fits =
    let size = length-take n a (omega arith) in
    let traded = set-perm (take n a) i (item a n) null (omega arith) in
    rw (take-set n a i (item a n), take-suc n a null fits)
      (Perm.trans (rw (get_or-take n a i null h) at traded)
        (Perm.symm (concat-perm (take n a) (item a n))))

-- The item of the slot and the first `n` cells after the move are the first `n + 1` cells before.
pub moved-perm :
    (n : ℕ) (a : List Ptr) (i : ℕ)
    → i ≤ n
    → n < length a
    → Perm (item a i ∷ take n (set a i (item a n))) (take (suc n) a)
moved-perm n a i h fits = elim (Bool-cases (i == n)) [
  | inl last ↦
      let e : i ≡ n = (==_iff i n).0 last in
      rw (e, take-set_ge n a n (item a n) (omega arith), take-suc n a null fits)
        (Perm.symm (concat-perm (take n a) (item a n)))
  | inr inside ↦ moved_inside-perm n a i (ground arith) fits
]

-- The array `b` is `a` with the item at `n` moved into the slot `i`.
abbrev pub IsMoved : ℕ → List Ptr → ℕ → List Ptr → Type 0
IsMoved n a i b = (c : ℕ) → c < n → item b c ≡ (if i == c then item a n else item a c)

module _ {compare : Compare} {rank : Ptr → ℕ} (sign : Ranks compare rank) where
  pub moved-DownInv :
      (n : ℕ) (a : List Ptr) (i : ℕ) (b : List Ptr)
      → IsHeap rank (suc n) a
      → (0 < i → key rank a n ≤ key rank a (fixed_heap_parent i))
      → IsMoved n a i b
      → n ≤ length b
      → DownInv rank n b i
  moved-DownInv n a i b order low at fits = record {
    fits = fits;
    edges = λ c p q r. ground (arith, at c, at (fixed_heap_parent c), order c, low);
    bridged = λ c p q r s. ground (arith, at c, at (fixed_heap_parent i), order c, order i);
  }

  -- Sifting from the root ends in every case, also with no item left.
  pub heapify_root :
      (n : ℕ) (a : List Ptr) → DownInv rank n a 0 → Ends (Sifted rank n a) (heapify compare a n 0)
  unfolding heapify
  heapify_root zero a v = ends (Sifted-refl rank λ c p q. absurd (omega arith))
  heapify_root (suc n) a v = heapify-Sifted sign (suc n) a 0 (omega arith) v
