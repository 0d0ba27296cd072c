-- ===== src/Allocator/Start.antt =====
-- A slab just after __helper_slab_init of tsl/alloc/allocator.c.
use trading_base.Base.{
  ℕ, zero, suc, ◌+◌, ◌-◌, ◌/◌, ◌%◌, ◌^◌, ◌<◌, ◌≤◌, ◌≡◌, ◌≢◌, refl, sym, ap, subst, ◌∙◌, arith,
}
use native.Mathlib.Nat.{div-mul-le_self, lt-div-mul-add, div-le_self}
use trading_base.LinkedList.{Ptr}
use trading_base.Allocator.{next_link, Slabs, round_cache_line, slab_init}
use trading_base.Allocator.Free.{
  from, Fits, Chain, fresh, from-Distinct, from-AllIn, length-from, Fits-times,
}
use trading_base.Allocator.Slab.{IsSlab, own_field}

-- The number of items of a slab.
abbrev pub item_count : ℕ → ℕ → ℕ → ℕ
item_count line size bytes = (bytes - round_cache_line line 40) / size

count_fits :
    (line size bytes : ℕ)
    → round_cache_line line 40 + size ≤ bytes
    → bytes < 2 ^ 32
    → (bytes + 2 ^ 64 - round_cache_line line 40) % 2 ^ 64 / size % 2 ^ 32
      ≡ item_count line size bytes
count_fits line size bytes fits few =
    let room : (bytes + 2 ^ 64 - round_cache_line line 40) % 2 ^ 64
        ≡ bytes - round_cache_line line 40 =
      omega (arith, fits, few) in
    let less : item_count line size bytes ≤ bytes - round_cache_line line 40 =
      div-le_self (bytes - round_cache_line line 40) size in
    ap (λ y. y / size % 2 ^ 32) room ∙ omega (arith, less, few)

some_fit :
    (n size first limit : ℕ)
    → Fits n size first limit
    → first + size ≤ limit
    → (k : ℕ) × (n ≡ suc k) × Fits (suc k) size first limit
some_fit zero size first limit fits room = absurd (omega (arith, fits, room))
some_fit (suc k) size first limit fits room = (k, refl, fits)

-- The items of a room of that many bytes.
items_fit : (size room first : ℕ) → 0 < size → Fits (room / size) size first (first + room)
items_fit size room first some_ =
    let most = div-mul-le_self room size in
    let next = lt-div-mul-add {a = room} {b = size} some_ in
    Fits-times (room / size) size first (first + room) (omega (arith, most)) (omega (arith, next))

first_chain :
    (next : Ptr → Ptr) (n size first limit : ℕ)
    → first ≢ 0
    → next first ≡ next_link
    → Fits n size first limit
    → first + size ≤ limit
    → Chain next size limit first (from n size first)
first_chain next n size first limit live mark fits room =
    let behind = some_fit n size first limit fits room in
    subst (λ j. Chain next size limit first (from j size first)) (sym behind.1)
      (fresh behind.0 live mark behind.2.1 refl)

-- For a page of less than 2 ^ 32 bytes below the mark that has room for struct slab, rounded up to a cache line, and for an item,
-- __helper_slab_init makes a slab whose free items are one behind the other from the first cache line
-- after the struct, as many as there is room for.
pub slab_init-IsSlab :
    (line : ℕ) (m : Slabs) (slab size bytes : ℕ)
    → 0 < slab
    → 0 < size
    → round_cache_line line 40 + size ≤ bytes
    → bytes < 2 ^ 32
    → slab + bytes < next_link
    → IsSlab
        (slab_init line m slab size bytes)
        size
        (slab + round_cache_line line 40)
        slab
        (from (item_count line size bytes) size (slab + round_cache_line line 40))
unfolding slab_init
slab_init-IsSlab line m slab size bytes live some_ fits few mark =
    let first = slab + round_cache_line line 40 in
    let n = item_count line size bytes in
    let limit : first + (bytes - round_cache_line line 40) ≡ slab + bytes % 2 ^ 32 =
      omega (arith, fits, few) in
    let own = own_field slab (bytes % 2 ^ 32) (m.slab_size slab) in
    let end_ : first + (bytes - round_cache_line line 40)
        ≡ slab + (slab_init line m slab size bytes).slab_size slab =
      limit ∙ ap (λ z. slab + z) (sym own) in
    let all : Fits n size first (slab + (slab_init line m slab size bytes).slab_size slab) =
      subst (Fits n size first) end_
        (items_fit size (bytes - round_cache_line line 40) first some_) in
    let made = slab_init line m slab size bytes in
    let less : n ≤ bytes - round_cache_line line 40 =
      div-le_self (bytes - round_cache_line line 40) size in
    let count = count_fits line size bytes fits few in
    record {
      chain =
          subst (λ p. Chain made.next size (slab + made.slab_size slab) p (from n size first))
            (sym (own_field slab first (m.free_items slab)))
            (first_chain made.next n size first (slab + made.slab_size slab) (omega (arith, live))
              (own_field first next_link (m.next first)) all (omega (arith, end_, fits)));
      distinct = from-Distinct n size first some_;
      within = from-AllIn n size first first (slab + made.slab_size slab) (omega arith) all;
      counted = own_field slab _ (m.free_item_count slab) ∙ count ∙ sym (length-from n size first);
      few = omega (arith, length-from n size first, less, few);
      after_start = omega (arith, live);
      before_mark = omega (arith, own, few, mark);
    }
