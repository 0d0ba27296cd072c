-- ===== src/FixedHeap/Storage.antt =====
-- fixed_heap_new, fixed_heap_resize and fixed_heap_delete.
use mathlib.Core.List.Perm
use trading_base.Base.{
  ℕ, ◌*◌, ◌/◌, ◌%◌, ◌^◌, ◌≤◌, ◌<◌, ◌≡◌, ◌⊎◌, inl, inr, refl, List, [], Option, none, some, arith,
  length, take, replicate, length-replicate, Option-cases, ◌==◌, false,
}
use trading_base.Base.Arrays.{take_ext}
use trading_base.ResultCode.{a_ok, a_e_badargs, a_e_nomem}
use trading_base.FixedHeap.{
  Ptr, null, FixedHeap, fixed_heap_new, fixed_heap_resize, cleared, fixed_heap_parent,
}
use trading_base.FixedHeap.Order.{item, IsValid}
use trading_base.FixedHeap.Push.{Holds}

-- calloc(n, sizeof(void *)) fails or returns `n` zeroed cells.
abbrev pub IsCalloc : (ℕ → Option (List Ptr)) → Type 0
IsCalloc calloc = (n : ℕ) (a : List Ptr) → calloc n ≡ some a → a ≡ replicate n null

-- realloc(p, bytes) fails or returns an array of so many bytes, with the old cells as far as both
-- arrays go.
pub record IsRealloc (realloc : List Ptr → ℕ → Option (List Ptr)) : Type 0 where
  pub size : (a : List Ptr) (n : ℕ) (b : List Ptr) → realloc a n ≡ some b → length b ≡ n / 8
  pub kept :
      (a : List Ptr) (n : ℕ) (b : List Ptr)
      → realloc a n ≡ some b
      → (i : ℕ) → i < length a
      → i < length b
      → item b i ≡ item a i

-- fixed_heap_new makes an empty heap of the capacity asked for, or answers A_E_NOMEM and leaves the
-- structure zeroed.
pub fixed_heap_new-Holds :
    (rank : Ptr → ℕ) (calloc : ℕ → Option (List Ptr)) (h : FixedHeap) (max_items : ℕ)
    → IsCalloc calloc
    → 0 < max_items
    → let (r, h') = fixed_heap_new calloc h max_items in
      ((r ≡ a_ok) × Holds rank [] max_items h') ⊎ ((r ≡ a_e_nomem) × (h' ≡ cleared))
unfolding fixed_heap_new
fixed_heap_new-Holds rank calloc h max_items law positive = elim (Option-cases (calloc max_items)) [
  | inl failed ↦ rw (not_zero, failed) (inr (refl, refl))
  | inr (a, got) ↦
      rw (not_zero, got)
        (inl (
          refl,
          record {
            array = a;
            valid = record {
              buffer = refl;
              size = rw (law max_items a got) (length-replicate max_items null);
              bounded = omega arith;
              order = λ c p q. absurd (omega arith);
            };
            same = Perm.refl [];
            room = refl;
          },
        ))
]
  where
    not_zero : (max_items == 0) ≡ false
    not_zero = ground arith

module _ (realloc : List Ptr → ℕ → Option (List Ptr)) (law : IsRealloc realloc) where
  -- The byte count of the call of realloc, as a size_t.
  abbrev bytes : ℕ → ℕ
  bytes new_max_items = (8 * new_max_items) % 2 ^ 64

  resize-nomem :
      (h : FixedHeap) (a : List Ptr) (new_max_items : ℕ)
      → h.heap ≡ some a
      → h.entries ≤ new_max_items
      → realloc a (bytes new_max_items) ≡ none
      → fixed_heap_resize realloc h new_max_items ≡ (a_e_nomem, h)
  unfolding fixed_heap_resize
  resize-nomem h a n buffer enough failed = ground arith

  resize-ok :
      (h : FixedHeap) (a b : List Ptr) (new_max_items : ℕ)
      → h.heap ≡ some a
      → h.entries ≤ new_max_items
      → realloc a (bytes new_max_items) ≡ some b
      → fixed_heap_resize realloc h new_max_items
        ≡ (a_ok, record h { heap = some b; capacity = new_max_items })
  unfolding fixed_heap_resize
  resize-ok h a b n buffer enough got = ground arith

  module _ (rank : Ptr → ℕ) (h : FixedHeap) (a : List Ptr) (new_max_items : ℕ) where
    resized-Holds :
        (b : List Ptr)
        → IsValid rank h a
        → h.entries ≤ new_max_items
        → new_max_items < 2 ^ 61
        → realloc a (bytes new_max_items) ≡ some b
        → Holds rank
            (take h.entries a)
            new_max_items
            (record h { heap = some b; capacity = new_max_items })
    resized-Holds b v enough small got =
        let size = law.size a (bytes new_max_items) b got in
        let kept = law.kept a (bytes new_max_items) b got in
        let long : length b ≡ new_max_items = omega arith in
        record {
          array = b;
          valid = record {
            buffer = refl;
            size = long;
            bounded = enough;
            order = λ c p q.
                ground (arith, v.order c, v.size, v.bounded, kept c, kept (fixed_heap_parent c));
          };
          same =
              rw
                (take_ext h.entries b a null (omega arith) (omega (arith, v.size, v.bounded))
                  λ i p. kept i (omega (arith, v.size, v.bounded)) (omega arith))
                (Perm.refl _);
          room = refl;
        }

    -- fixed_heap_resize to at least the number of entries, and below 2^61 cells, keeps the items in
    -- a valid heap of the new capacity, or answers A_E_NOMEM and changes nothing.
    pub fixed_heap_resize-Holds :
        IsValid rank h a
        → h.entries ≤ new_max_items
        → new_max_items < 2 ^ 61
        → let (r, h') = fixed_heap_resize realloc h new_max_items in
          ((r ≡ a_ok) × Holds rank (take h.entries a) new_max_items h')
          ⊎ ((r ≡ a_e_nomem) × (h' ≡ h))
    fixed_heap_resize-Holds v enough small = elim (Option-cases (realloc a (bytes new_max_items))) [
      | inl failed ↦ rw (resize-nomem h a new_max_items v.buffer enough failed) (inr (refl, refl))
      | inr (b, got) ↦
          rw (resize-ok h a b new_max_items v.buffer enough got)
            (inl (refl, resized-Holds b v enough small got))
    ]

    -- From 2^61 cells on the byte count wraps: where realloc gives an array, fixed_heap_resize answers
    -- A_OK, and the capacity is larger than the array.
    pub fixed_heap_resize_overflows :
        (b : List Ptr)
        → h.heap ≡ some a
        → h.entries ≤ new_max_items
        → 2 ^ 61 ≤ new_max_items
        → realloc a ((8 * new_max_items) % 2 ^ 64) ≡ some b
        → let (r, h') = fixed_heap_resize realloc h new_max_items in
          (r ≡ a_ok) × (h'.heap ≡ some b) × (length b < h'.capacity)
    fixed_heap_resize_overflows b buffer enough huge got =
        rw (resize-ok h a b new_max_items buffer enough got)
          (refl, refl, omega (arith, law.size a (bytes new_max_items) b got))

-- fixed_heap_resize below the number of entries, and of a heap without an array, answers
-- A_E_BADARGS and changes nothing.
pub fixed_heap_resize_refuses :
    (realloc : List Ptr → ℕ → Option (List Ptr)) (h : FixedHeap) (new_max_items : ℕ)
    → (h.heap ≡ none) ⊎ (new_max_items < h.entries)
    → fixed_heap_resize realloc h new_max_items ≡ (a_e_badargs, h)
unfolding fixed_heap_resize
fixed_heap_resize_refuses realloc h n why = ground arith
