-- ===== src/Allocator.antt =====
-- tsl/alloc.h, tsl/alloc/alloc_priv.h and tsl/alloc/allocator.c: slabs of items in pages. A slab is named by the address of
-- its page, which is that of its list entry, and a class of pages by the head of its list of available pages. 0 is NULL.
-- The spinlock of a class is held in each use of its list. malloc, mmap and the length of a cache line are parameters.
pub mod Free
pub mod Slab
pub mod Start
pub mod Exhausted
mod Tests
use Prim.Native.Nat.{bit_and}
use trading_base.Base.{
  ℕ, zero, suc, ◌+◌, ◌-◌, ◌*◌, ◌/◌, ◌%◌, ◌^◌, Bool, true, false, ◌==◌, ◌||◌, not, leb,
  if◌then◌else◌, Option, none, some, Run, done, fault, stalled, ◌>>=◌,
}
use trading_base.ResultCode.{AResult, a_ok, a_e_nomem, a_e_badargs, a_e_busy, failed}
use trading_base.LinkedList.{Ptr, Links, list_init, list_append, list_prepend, list_del, list_empty}

-- ALLOC_SLAB_NEXT_LINK: the next item stands behind this one.
abbrev pub next_link : Ptr
next_link = 18374388447360185845

-- ROUND_16, on 64-bit words
abbrev pub round_16 : ℕ → ℕ
round_16 x = (x + 15) % 2 ^ 64 / 16 * 16

-- ROUND_CACHE_LINE
abbrev pub round_cache_line : ℕ → ℕ → ℕ
round_cache_line line x = (x + (line - 1)) / line * line

-- The links of every list entry, the fields of every struct slab, and `next` of every struct slab_item.
pub record Slabs : Type 0 where
  pub links : Links
  pub free_items : Ptr → Ptr
  pub flags : Ptr → ℕ
  pub max_items : Ptr → ℕ
  pub free_item_count : Ptr → ℕ
  pub slab_size : Ptr → ℕ
  pub next : Ptr → Ptr

-- `avail_slabs` is the address of the list's head.
pub record SlabClass : Type 0 where
  pub avail_slabs : Ptr
  pub slab_bytes : ℕ
  pub nr_slabs : ℕ
  pub slab_base_ptr : Ptr
  pub free_slabs : ℕ

-- `slabs` is the address of the list's head; `alloc_state` is the class.
pub record Allocator : Type 0 where
  pub slabs : Ptr
  pub item_size : ℕ
  pub max_items : ℕ
  pub free_mask : ℕ
  pub alloc_state : SlabClass
  pub flags : ℕ
  pub slabs_taken : ℕ

abbrev pub set_item : Slabs → Ptr → Ptr → Slabs
set_item m item v = record m { next = λ p. if p == item then v else m.next p }

abbrev pub set_free : Slabs → Ptr → Ptr → ℕ → Slabs
set_free m slab items count = record m {
  free_items = λ p. if p == slab then items else m.free_items p;
  free_item_count = λ p. if p == slab then count else m.free_item_count p;
}

-- The loop of __allocator_subsystem_init_page_class over the pages.
unfoldable pub init_pages : ℕ → Slabs → Ptr → Ptr → ℕ → Slabs
init_pages zero m avail_slabs page bytes = m
init_pages (suc count) m avail_slabs page bytes =
    init_pages count (record m { links = list_append (list_init m.links page) avail_slabs page })
      avail_slabs (page + bytes) bytes

-- __allocator_subsystem_init_page_class; `pages` is what mmap gives, none for MAP_FAILED, where the program panics.
unfoldable pub init_page_class :
    Slabs → SlabClass → ℕ → ℕ → Option Ptr → Run (AResult × Slabs × SlabClass)
init_page_class m class count bytes pages =
    if count == 0 then done (a_ok, m, class) else (elim pages [
      | none ↦ fault
      | some p ↦ done (
        a_ok,
        init_pages count m class.avail_slabs p bytes,
        record class {
          slab_bytes = bytes;
          nr_slabs = count;
          slab_base_ptr = p;
          free_slabs = count;
        },
      )
    ])

-- __allocator_release_page
unfoldable pub release_page : Slabs → SlabClass → Ptr → AResult × Slabs
release_page m class ptr =
    if ptr == 0
    then (a_e_badargs, m)
    else (a_ok, record m { links = list_append m.links class.avail_slabs ptr })

-- __allocator_acquire_page; the page is none where `*ptr` is not written.
unfoldable pub acquire_page : Slabs → SlabClass → AResult × Option Ptr × Slabs
acquire_page m class =
    if list_empty m.links class.avail_slabs == 0
    then (let item = m.links.next class.avail_slabs in
        (a_ok, some item, record m { links = list_del m.links item }))
    else (a_e_nomem, none, m)

-- __helper_slab_init; struct slab has 40 bytes, and its counts have 32 bits.
unfoldable pub slab_init : ℕ → Slabs → Ptr → ℕ → ℕ → Slabs
slab_init line m slab obj_size slab_size =
    let first_obj_offset = round_cache_line line 40 in
    let item_count = (slab_size + 2 ^ 64 - first_obj_offset) % 2 ^ 64 / obj_size in
    let first = slab + first_obj_offset in
    record (set_free (set_item m first next_link) slab first (item_count % 2 ^ 32)) {
      links = list_init m.links slab;
      flags = λ p. if p == slab then 0 else m.flags p;
      max_items = λ p. if p == slab then item_count % 2 ^ 32 else m.max_items p;
      slab_size = λ p. if p == slab then slab_size % 2 ^ 32 else m.slab_size p;
    }

-- __helper_allocator_new_init, for the memory of malloc: its flags and slabs_taken are not set.
unfoldable pub allocator_new_init : Slabs → Allocator → Slabs × Allocator
allocator_new_init m raw = (
  record m { links = list_init m.links raw.slabs },
  record raw { item_size = 0; max_items = 0; free_mask = 0 },
)

-- __helper_add_slab
unfoldable pub add_slab : Slabs → Allocator → Ptr → Slabs × Allocator
add_slab m alloc slab = (
  record m { links = list_prepend m.links alloc.slabs slab },
  record alloc { max_items = (alloc.max_items + m.free_item_count slab) % 2 ^ 64 },
)

-- One page for an allocator: the result, and whether the page is there.
unfoldable pub take_page : ℕ → Slabs → Allocator → SlabClass → AResult × Slabs × Allocator
take_page line m alloc class = elim (acquire_page m class).1 [
  | none ↦ ((acquire_page m class).0, (acquire_page m class).2, alloc)
  | some page ↦
      let m = slab_init line (acquire_page m class).2 page alloc.item_size class.slab_bytes in
      ((acquire_page m class).0, (add_slab m alloc page).0, (add_slab m alloc page).1)
]

-- The loop of allocator_new over the pages, which ends at the first that is not there.
unfoldable pub take_pages : ℕ → ℕ → Slabs → Allocator → SlabClass → AResult × Slabs × Allocator
take_pages line zero m alloc class = (a_ok, m, alloc)
take_pages line (suc n) m alloc class =
    let page = take_page line m alloc class in
    let rest = take_pages line n page.1 page.2 class in if failed page.0 then page else rest

-- `class` is the one that the flags choose; `raw` is what malloc gives; `alloc` is the
-- caller's pointer before the call, and the last part the one after it.
unfoldable pub allocator_new :
    ℕ
    → Slabs
    → SlabClass
    → ℕ
    → ℕ
    → Option Allocator
    → Option Allocator
    → AResult × Slabs × Option Allocator
allocator_new line m class item_size item_count raw alloc =
    let real_size = round_16 item_size in
    let items_per_slab = class.slab_bytes / real_size in
    if (item_size == 0) || (item_count == 0)
    then (a_e_badargs, m, alloc)
    else (if items_per_slab == 0 then (a_e_nomem, m, none) else (elim raw [
      | none ↦ (a_e_nomem, m, none)
      | some raw ↦
          let m = (allocator_new_init m raw).0 in
          let new_alloc = record (allocator_new_init m raw).1 {
            item_size = real_size;
            free_mask = 2 ^ 64 - 1 - (class.slab_bytes + 2 ^ 64 - 1) % 2 ^ 64;
            alloc_state = class;
          } in
          let num_pages = (item_count + items_per_slab + 2 ^ 64 - 1) % 2 ^ 64 / items_per_slab in
          let taken = take_pages line num_pages m new_alloc class in
          (taken.0, taken.1, if failed taken.0 then none else some taken.2)
    ]))

-- __helper_allocator_grow
unfoldable pub allocator_grow : ℕ → Slabs → Allocator → AResult × Slabs × Allocator
allocator_grow line m alloc =
    let page = take_page line m alloc alloc.alloc_state in
    if failed page.0
    then page
    else (page.0, page.1, record page.2 { slabs_taken = (page.2.slabs_taken + 1) % 2 ^ 32 })

-- __helper_allocator_shrink
unfoldable pub allocator_shrink : Slabs → Allocator → Ptr → AResult × Slabs
allocator_shrink m alloc slab =
    if m.free_item_count slab == m.max_items slab
    then release_page (record m { links = list_del m.links slab }) alloc.alloc_state slab
    else (a_e_badargs, m)

-- The part of allocator_alloc that fills in the item behind one that was never used.
unfoldable pub fill_item : Slabs → ℕ → Ptr → Ptr → Slabs
fill_item m item_size first item =
    let next = item + item_size in
    let fits = leb (next + item_size) (first + m.slab_size first) in
    let m' = if fits then set_item m next next_link else m in
    if m.next item == next_link then set_item m' item (if fits then next else 0) else m

-- The part of allocator_alloc that unlinks an item.
unfoldable pub unlink_item : Slabs → Ptr → Ptr → Slabs
unlink_item m first item =
    set_free (set_item m item 0) first (m.next item)
      ((m.free_item_count first + 2 ^ 32 - 1) % 2 ^ 32)

-- The part of allocator_alloc that takes an item out of the slab `first`; none where free_items is NULL.
unfoldable pub take_item : Slabs → ℕ → Ptr → Option Ptr × Slabs
take_item m item_size first = if m.free_items first == 0 then (none, m) else (
  some (m.free_items first),
  unlink_item (fill_item m item_size first (m.free_items first)) first (m.free_items first),
)

-- The part of allocator_alloc from the second test of `first` on; the last part is `*item_ptr`.
unfoldable pub alloc_first : Slabs → Allocator → Ptr → AResult × Slabs × Ptr
alloc_first m alloc first =
    if m.free_item_count first == 0
    then (a_e_nomem, m, 0)
    else (elim (take_item m alloc.item_size first).0 [
      | none ↦ (a_e_nomem, m, 0)
      | some item ↦
          let m = (take_item m alloc.item_size first).1 in
          (
            a_ok,
            if m.free_item_count first == 0
                then record m { links = list_append (list_del m.links first) alloc.slabs first }
                else m,
            item,
          )
    ])

-- The memory of struct allocator, read as a struct slab at the list's head, with 64-bit pointers and the low byte
-- first: item_size lies where free_items does,
-- the halves of max_items where flags and max_items do, and those of free_mask where free_item_count and slab_size do.
unfoldable pub with_head : Slabs → Allocator → Slabs
with_head m alloc = record m {
  free_items = λ p. if p == alloc.slabs then alloc.item_size else m.free_items p;
  flags = λ p. if p == alloc.slabs then alloc.max_items % 2 ^ 32 else m.flags p;
  max_items = λ p. if p == alloc.slabs then alloc.max_items / 2 ^ 32 else m.max_items p;
  free_item_count = λ p. if p == alloc.slabs then alloc.free_mask % 2 ^ 32 else m.free_item_count p;
  slab_size = λ p. if p == alloc.slabs then alloc.free_mask / 2 ^ 32 else m.slab_size p;
}

-- The same memory, read as a struct allocator again.
unfoldable pub from_head : Slabs → Allocator → Allocator
from_head m alloc = record alloc {
  item_size = m.free_items alloc.slabs;
  max_items = m.flags alloc.slabs + 2 ^ 32 * m.max_items alloc.slabs;
  free_mask = m.free_item_count alloc.slabs + 2 ^ 32 * m.slab_size alloc.slabs;
}

-- The part of allocator_alloc from the second look at `first`, which is the list's head where the list is still empty.
unfoldable pub alloc_again : Slabs → Allocator → AResult × Slabs × Allocator × Ptr
alloc_again m alloc =
    let got = alloc_first (with_head m alloc) alloc (m.links.next alloc.slabs) in
    (got.0, got.1, from_head got.1 alloc, got.2)

unfoldable pub allocator_alloc : ℕ → Slabs → Allocator → AResult × Slabs × Allocator × Ptr
allocator_alloc line m alloc =
    let growable = bit_and alloc.flags 1 == 0 in
    let first = m.links.next alloc.slabs in
    if not (list_empty m.links alloc.slabs == 0) || (m.free_item_count first == 0)
    then (if growable
        then (let grown = allocator_grow line m alloc in alloc_again grown.1 grown.2)
        else (a_e_nomem, m, alloc, 0))
    else alloc_again m alloc

-- The part of allocator_free that puts an item back into its slab.
unfoldable pub return_item : Slabs → Ptr → Ptr → Slabs
return_item m slab item =
    set_free (set_item m item (m.free_items slab)) slab item ((m.free_item_count slab + 1) % 2 ^ 32)

-- For an item that is not NULL.
unfoldable pub allocator_free : Slabs → Allocator → Ptr → AResult × Slabs
allocator_free m alloc item =
    let slab = bit_and item alloc.free_mask in
    let m = return_item m slab item in
    if m.free_item_count slab == m.max_items slab
    then (if m.links.next alloc.slabs == m.links.prev alloc.slabs
        then (a_ok, m)
        else allocator_shrink m alloc slab)
    else (a_ok, record m { links = list_prepend (list_del m.links slab) alloc.slabs slab })

-- The loop of allocator_delete over the slabs from `slab` on.
unfoldable pub delete_slabs : ℕ → Slabs → Allocator → Ptr → Run (AResult × Slabs × Allocator)
delete_slabs zero m alloc slab = stalled
delete_slabs (suc fuel) m alloc slab =
    let tmp = m.links.next slab in
    let m' = (release_page (record m { links = list_del m.links slab }) alloc.alloc_state slab).1 in
    let alloc' = record alloc {
      max_items = (alloc.max_items + 2 ^ 64 - m.max_items slab) % 2 ^ 64;
    } in
    let rest = delete_slabs fuel m' alloc' tmp in
    if slab == alloc.slabs
    then done (a_ok, m, alloc)
    else (if m.max_items slab == m.free_item_count slab then rest else done (a_e_busy, m, alloc))

-- The last part is `*alloc`: none when the allocator is gone.
unfoldable pub allocator_delete : ℕ → Slabs → Allocator → Run (AResult × Slabs × Option Allocator)
allocator_delete fuel m alloc = do
  (r, m, alloc) ← delete_slabs fuel m alloc (m.links.next alloc.slabs)
  done (
      if failed r
      then (r, m, some alloc)
      else (if list_empty m.links alloc.slabs == 0
          then (a_e_busy, m, some alloc)
          else (a_ok, m, none)))

unfoldable pub allocator_squeeze : Allocator → AResult × Allocator
allocator_squeeze alloc = (a_ok, alloc)
