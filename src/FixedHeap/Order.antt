-- ===== src/FixedHeap/Order.antt =====
-- The heap order, and what the memory accesses of the heap functions do in range.
use mathlib.Core.Path.{◌≡◌}
use mathlib.Core.List.Perm
use trading_base.Base.{
  ℕ, zero, suc, ◌≤◌, ◌<◌, List, Perm, arith, length, get_or, set, take, ltb, done, some, Run, Ends,
  Ends-mono, length-set, length-take,
}
use trading_base.Base.Int.{is_neg, is_pos}
use trading_base.Base.Arrays.{
  get_elem?-get_or, exchange, exchange-perm, take-exchange, length-exchange,
}
use trading_base.FixedHeap.{Ptr, null, Compare, FixedHeap, fixed_heap_parent, load, store, swap}

-- What the documentation of fixed_heap_compare_func_t asks of a callback: its sign is that of the
-- difference of the ranks of the two items.
pub record Ranks (compare : Compare) (rank : Ptr → ℕ) : Type 0 where
  pub neg : (x y : Ptr) → is_neg (compare x y) ≡ ltb (rank x) (rank y)
  pub positive : (x y : Ptr) → is_pos (compare x y) ≡ ltb (rank y) (rank x)

-- The pointer in a cell.
abbrev pub item : List Ptr → ℕ → Ptr
item a i = get_or a i null

pub load-done : (a : List Ptr) (i : ℕ) → i < length a → load a i ≡ done (item a i)
unfolding load
load-done a i h = rw (get_elem?-get_or a i null h)

pub store-done : (a : List Ptr) (i : ℕ) (v : Ptr) → i < length a → store a i v ≡ done (set a i v)
unfolding store
store-done a i v h = ground arith

pub swap-done :
    (a : List Ptr) (i j : ℕ) → i < length a → j < length a → swap a i j ≡ done (exchange a i j null)
unfolding swap exchange
swap-done a i j hi hj = rw (
  load-done a i hi,
  load-done a j hj,
  store-done a i (item a j) hi,
  store-done (set a i (item a j)) j (item a i) (rw length-set hj),
)

module _ (rank : Ptr → ℕ) where
  abbrev pub key : List Ptr → ℕ → ℕ
  key a i = rank (item a i)

  -- Among the first `n` cells, no item ranks above its parent.
  abbrev pub IsHeap : ℕ → List Ptr → Type 0
  IsHeap n a = (c : ℕ) → 0 < c → c < n → key a c ≤ key a (fixed_heap_parent c)

  -- The order also holds past `i`, from the parent of `i` to the children of `i`.
  abbrev pub IsBridged : ℕ → List Ptr → ℕ → Type 0
  IsBridged n a i =
      (c : ℕ)
      → 0 < c
      → c < n
      → fixed_heap_parent c ≡ i
      → 0 < i
      → key a c ≤ key a (fixed_heap_parent i)

  root_greatest_below :
      (k n : ℕ) (a : List Ptr) (i : ℕ) → IsHeap n a → i < k → i < n → key a i ≤ key a 0
  root_greatest_below zero n a i h f p = absurd (omega arith)
  root_greatest_below (suc k) n a i h f p =
      ground (arith, h i, root_greatest_below k n a (fixed_heap_parent i) h)

  pub root_greatest : (n : ℕ) (a : List Ptr) (i : ℕ) → IsHeap n a → i < n → key a i ≤ key a 0
  root_greatest n a i h p = root_greatest_below (suc i) n a i h (omega arith) p

  -- `b` is a heap of the first `n` items of `a`, in an array of the same size.
  pub record Sifted (n : ℕ) (a b : List Ptr) : Type 0 where
    pub heap : IsHeap n b
    pub same : Perm (take n b) (take n a)
    pub size : length b ≡ length a

  pub Sifted-refl : {n : ℕ} {a : List Ptr} → IsHeap n a → Sifted n a a
  Sifted-refl {a} h = record { heap = h; same = Perm.refl _; size = ap_refl a }
    where
      ap_refl : (a : List Ptr) → length a ≡ length a
      ap_refl a = omega arith

  pub Sifted-exchange :
      {n i j : ℕ} {a : List Ptr} {r : Run (List Ptr)}
      → i < n
      → j < n
      → n ≤ length a
      → Ends (Sifted n (exchange a i j null)) r
      → Ends (Sifted n a) r
  Sifted-exchange {n} {i} {j} {a} hi hj fits run =
      let size = length-take n a fits in
      let swapped = exchange-perm (take n a) i j null (omega arith) (omega arith) in
      Ends-mono run λ b s. record {
        heap = s.heap;
        same = Perm.trans s.same (rw (take-exchange n a i j null hi hj) swapped);
        size = omega (arith, s.size, length-exchange a i j null);
      }

-- The heap holds its first `entries` items in order, in an array of `capacity` cells.
pub record IsValid (rank : Ptr → ℕ) (h : FixedHeap) (a : List Ptr) : Type 0 where
  pub buffer : h.heap ≡ some a
  pub size : length a ≡ h.capacity
  pub bounded : h.entries ≤ h.capacity
  pub order : IsHeap rank h.entries a
