-- ===== src/FixedHeap.antt =====
-- tsl/fixed_heap.h and tsl/fixed_heap.c: a bounded binary max-heap of pointers in an array.
-- A pointer is a number and NULL is 0. The comparison callback is a parameter. An access outside
-- the array is a fault, and the loops run on fuel. The debug build is meant, in which
-- TSL_ASSERT_ARG_DEBUG checks its argument; the struct pointers themselves are not NULL.
-- An array index is below 2^61, so `(idx << 1) + 2` does not wrap.
pub mod Order
pub mod Up
pub mod Down
pub mod Push
pub mod Slot
pub mod Pop
pub mod Remove
pub mod Storage
mod Tests
use trading_base.Base.{
  ℕ, zero, suc, ◌+◌, ◌-◌, ◌*◌, ◌/◌, ◌%◌, ◌^◌, Bool, true, false, Option, none, some, List, [],
  length, get_elem?, set, ltb, leb, ◌==◌, if◌then◌else◌, Run, done, fault, stalled, ◌>>=◌, or_fault,
}
use trading_base.Base.Int.{ℤ, is_neg, is_pos}
use trading_base.ResultCode.{
  AResult, a_ok, a_e_badargs, a_e_nomem, a_e_nospc, a_e_empty, a_e_notfound,
}

abbrev pub Ptr : Type 0
Ptr = ℕ

abbrev pub null : Ptr
null = 0

-- `heap` is `none` for the NULL pointer. The field `compare` is set once by fixed_heap_new, and is
-- the parameter of the functions below.
pub record FixedHeap : Type 0 where
  pub heap : Option (List Ptr)
  pub capacity : ℕ
  pub entries : ℕ

abbrev pub fixed_heap_parent : ℕ → ℕ
fixed_heap_parent idx = (idx - 1) / 2

abbrev pub fixed_heap_left : ℕ → ℕ
fixed_heap_left idx = idx * 2 + 1

abbrev pub fixed_heap_right : ℕ → ℕ
fixed_heap_right idx = idx * 2 + 2

-- `heap->heap[i]`
pub load : List Ptr → ℕ → Run Ptr
load a i = or_fault (get_elem? a i)

-- `heap->heap[i] = v`
pub store : List Ptr → ℕ → Ptr → Run (List Ptr)
store a i v = if ltb i (length a) then done (set a i v) else fault

pub swap : List Ptr → ℕ → ℕ → Run (List Ptr)
unfolding load store
swap a i j = do temp ← load a i; other ← load a j; b ← store a i other; store b j temp

abbrev pub Compare : Type 0
Compare = Ptr → Ptr → ℤ

-- A NULL array is read as one with no cell.
pub cells : FixedHeap → List Ptr
cells h = elim h.heap [ none ↦ [] | some a ↦ a ]

module _ (compare : Compare) where
  -- The loop of __fixed_heap_insert.
  pub sift_up : ℕ → List Ptr → ℕ → Run (List Ptr)
  sift_up zero a i = stalled
  sift_up (suc k) a i =
      let rise = swap a i (fixed_heap_parent i) >>= λ b. sift_up k b (fixed_heap_parent i) in
      let step : Run (List Ptr) = do
        above ← load a (fixed_heap_parent i)
        x ← load a i
        if is_neg (compare above x) then rise else done a
      in if ltb 0 i then step else done a

  pub heap_insert : List Ptr → Ptr → ℕ → Run (List Ptr)
  unfolding load store swap sift_up
  heap_insert a key idx = do b ← store a idx key; sift_up (idx + 1) b idx

  -- `if (c < heap->entries && compare(heap[c], heap[largest]) > 0) largest = c;`
  pub larger : List Ptr → ℕ → ℕ → ℕ → Run ℕ
  larger a entries c largest =
      if ltb c entries
      then (do x ← load a c; y ← load a largest; done (if is_pos (compare x y) then c else largest))
      else done largest

  -- The loop of __fixed_heap_heapify.
  pub sift_down : ℕ → ℕ → List Ptr → ℕ → Run (List Ptr)
  sift_down zero entries a i = stalled
  sift_down (suc k) entries a i = do
    l ← larger a entries (fixed_heap_left i) i
    largest ← larger a entries (fixed_heap_right i) l
    let sink = swap a i largest >>= λ b. sift_down k entries b largest
    if largest == i then done a else sink

  pub heapify : List Ptr → ℕ → ℕ → Run (List Ptr)
  unfolding load store swap sift_down larger
  heapify a entries idx = sift_down (entries + 1) entries a idx

  unfoldable pub fixed_heap_push : FixedHeap → Ptr → Run (AResult × FixedHeap)
  unfolding heap_insert
  fixed_heap_push h item = elim h.heap [
    | none ↦ done (a_e_badargs, h)
    | some a ↦ if leb h.capacity h.entries then done (a_e_nospc, h) else (do
      b ← heap_insert a item h.entries
      done (a_ok, record h { heap = some b; entries = h.entries + 1 }))
  ]

  -- The middle part is `*item`, `none` where the call does not write it.
  unfoldable pub fixed_heap_pop : FixedHeap → Run (AResult × Option Ptr × FixedHeap)
  unfolding heapify
  fixed_heap_pop h = elim h.heap [
    | none ↦ done (a_e_badargs, none, h)
    | some a ↦ if h.entries == 0 then done (a_e_empty, none, h) else (do
      item ← load a 0
      let entries = h.entries - 1
      last ← load a entries
      b ← store a 0 last
      c ← store b entries null
      d ← heapify c entries 0
      done (a_ok, some item, record h { heap = some d; entries = entries }))
  ]

  -- The search loop of fixed_heap_remove_item, `none` for an offset of -1.
  pub find_item : ℕ → List Ptr → Ptr → ℕ → Run (Option ℕ)
  find_item zero a item i = done none
  find_item (suc k) a item i = do
    x ← load a i
    let rest = find_item k a item (i + 1)
    if x == item then done (some i) else rest

  -- The end of fixed_heap_remove_item, with the offset found.
  pub remove_at : FixedHeap → List Ptr → ℕ → Run (AResult × FixedHeap)
  unfolding heapify
  remove_at h a offs =
      let entries = h.entries - 1 in
      if ltb offs h.entries
      then (do
        last ← load a entries
        b ← store a offs last
        c ← heapify b entries offs
        done (a_ok, record h { heap = some c; entries = entries }))
      else done (a_ok, record h { entries = entries })

  unfoldable pub fixed_heap_remove_item : FixedHeap → Ptr → Run (AResult × FixedHeap)
  unfolding cells remove_at find_item
  fixed_heap_remove_item h item = do
    found ← find_item h.entries (cells h) item 0
    elim found [ none ↦ done (a_e_notfound, h) | some offs ↦ remove_at h (cells h) offs ]

unfoldable pub fixed_heap_peek_head : FixedHeap → Run (AResult × Option Ptr)
unfolding load
fixed_heap_peek_head h = elim h.heap [
  | none ↦ done (a_e_badargs, none)
  | some a ↦
      if h.entries == 0
      then done (a_e_empty, none)
      else (do item ← load a 0; done (a_ok, some item))
]

abbrev pub cleared : FixedHeap
cleared = record { heap = none; capacity = 0; entries = 0 }

-- `calloc n` is the zeroed array that calloc(n, sizeof(void *)) returns, if it does.
unfoldable pub fixed_heap_new :
    (calloc : ℕ → Option (List Ptr)) → FixedHeap → ℕ → AResult × FixedHeap
fixed_heap_new calloc h max_items =
    if max_items == 0 then (a_e_badargs, h) else elim (calloc max_items) [
      | none ↦ (a_e_nomem, cleared)
      | some a ↦ (a_ok, record { heap = some a; capacity = max_items; entries = 0 })
    ]

-- `realloc a bytes` is the array that realloc(heap->heap, bytes) returns, if it does.
unfoldable pub fixed_heap_resize :
    (realloc : List Ptr → ℕ → Option (List Ptr)) → FixedHeap → ℕ → AResult × FixedHeap
fixed_heap_resize realloc h new_max_items =
    if leb h.entries new_max_items
    then elim h.heap [
      | none ↦ (a_e_badargs, h)
      | some a ↦ elim (realloc a ((8 * new_max_items) % 2 ^ 64)) [
        | none ↦ (a_e_nomem, h)
        | some b ↦ (a_ok, record h { heap = some b; capacity = new_max_items })
      ]
    ]
    else (a_e_badargs, h)

unfoldable pub fixed_heap_delete : FixedHeap → AResult × FixedHeap
fixed_heap_delete h = (a_ok, cleared)
