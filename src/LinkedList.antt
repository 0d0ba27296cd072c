-- ===== src/LinkedList.antt =====
-- tsl/list.h: a circular doubly linked list that is embedded in other structures. The memory of all
-- struct list_entry is two functions of the address, and a write changes one of them at one address.
-- The pointers that are passed are addresses of list entries.
pub mod Rings
pub mod Insert
pub mod Delete
pub mod Splice
pub mod Walk
mod Tests
use trading_base.Base.{ℕ, zero, suc, ◌==◌, if◌then◌else◌, Run, done, stalled}

abbrev pub Ptr : Type 0
Ptr = ℕ

-- The fields `prev` and `next` of every struct list_entry.
pub record Links : Type 0 where
  pub prev : Ptr → Ptr
  pub next : Ptr → Ptr

-- LIST_POISON_NEXT and LIST_POISON_PREV
abbrev pub list_poison_next : Ptr
list_poison_next = 3250700737

abbrev pub list_poison_prev : Ptr
list_poison_prev = 2172748161

-- `p->next = v` and `p->prev = v`
abbrev pub set_next : Links → Ptr → Ptr → Links
set_next m p v = record m { next = λ q. if q == p then v else m.next q }

abbrev pub set_prev : Links → Ptr → Ptr → Links
set_prev m p v = record m { prev = λ q. if q == p then v else m.prev q }

unfoldable pub list_init : Links → Ptr → Links
list_init m new = set_next (set_prev m new new) new new

-- __list_add
unfoldable pub list_add : Links → Ptr → Ptr → Ptr → Links
list_add m new prev next =
    let m = set_next m prev new in
    let m = set_prev m new prev in let m = set_prev m next new in set_next m new next

unfoldable pub list_insert_at : Links → Ptr → Ptr → Links
list_insert_at m pos new = list_add m new pos (m.next pos)

unfoldable pub list_append : Links → Ptr → Ptr → Links
list_append m head new = list_add m new (m.prev head) head

unfoldable pub list_prepend : Links → Ptr → Ptr → Links
list_prepend m head new = list_add m new head (m.next head)

-- __list_del
unfoldable pub list_unlink : Links → Ptr → Ptr → Links
list_unlink m prev next = set_prev (set_next m prev next) next prev

unfoldable pub list_del : Links → Ptr → Links
list_del m del =
    let m = list_unlink m (m.prev del) (m.next del) in
    let m = set_next m del list_poison_next in set_prev m del list_poison_prev

-- __list_splice
unfoldable pub list_join : Links → Ptr → Ptr → Ptr → Ptr → Ptr → Links
list_join m target_head first_prev first_next second_prev second_next =
    let m = set_next m first_prev second_next in
    let m = set_prev m second_next first_prev in
    let m = set_next m second_prev target_head in
    let m = set_prev m first_next target_head in
    let m = set_prev m target_head second_prev in set_next m target_head first_next

unfoldable pub list_splice : Links → Ptr → Ptr → Ptr → Links
list_splice m target first second =
    list_join m target (m.prev first) (m.next first) (m.prev second) (m.next second)

unfoldable pub list_empty : Links → Ptr → ℕ
list_empty m head = if m.next head == head then 1 else 0

unfoldable pub list_is_last : Links → Ptr → Ptr → ℕ
list_is_last m head item = if m.next item == head then 1 else 0

-- list_for_each, with a body that leaves the links alone, from the iterator on.
unfoldable pub each_from : {S : Type 0} → ℕ → Links → Ptr → (Ptr → S → S) → Ptr → S → Run S
each_from zero m head body iterator s = stalled
each_from (suc fuel) m head body iterator s =
    let more = each_from fuel m head body (m.next iterator) (body iterator s) in
    if iterator == head then done s else more

unfoldable pub list_for_each : {S : Type 0} → ℕ → Links → Ptr → (Ptr → S → S) → S → Run S
unfolding each_from
list_for_each fuel m head body s = each_from fuel m head body (m.next head) s

-- list_for_each_safe, with a body that may change the links: the next item is read before it.
unfoldable pub each_safe_from : ℕ → Ptr → (Ptr → Links → Links) → Ptr → Ptr → Links → Run Links
each_safe_from zero head body iter temp m = stalled
each_safe_from (suc fuel) head body iter temp m =
    let changed = body iter m in
    let more = each_safe_from fuel head body temp (changed.next temp) changed in
    if iter == head then done m else more

unfoldable pub list_for_each_safe : ℕ → Ptr → (Ptr → Links → Links) → Links → Run Links
unfolding each_safe_from
list_for_each_safe fuel head body m =
    each_safe_from fuel head body (m.next head) (m.next (m.next head)) m
