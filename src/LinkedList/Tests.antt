-- ===== src/LinkedList/Tests.antt =====
-- The linked list on small lists.
use trading_base.Base.{ℕ, ◌+◌, ◌≡◌, refl, List, [], ◌∷◌, ◌==◌, if◌then◌else◌, arith, Ends}
use trading_base.LinkedList.{
  Ptr, Links, list_append, list_prepend, list_insert_at, list_del, list_splice, list_for_each_safe,
  list_poison_next, list_poison_prev,
}
use trading_base.LinkedList.Rings.{IsRing}
use trading_base.LinkedList.Insert.{list_inserts-IsRing}
use trading_base.LinkedList.Delete.{list_del-IsRing, list_del-list_append}
use trading_base.LinkedList.Splice.{list_splice-IsRing, list_splice_empty}
use trading_base.LinkedList.Walk.{delete_item, list_for_each_safe-IsRing}

-- The head 1 with the items 2 and 3, the head 4 with the item 5, and the empty head 6.
abbrev links : Links
links = record {
  prev = λ p.
      if p == 1
      then 3
      else if p == 2
      then 1
      else if p == 3
      then 2
      else if p == 4
      then 5
      else if p == 5
      then 4
      else p;
  next = λ p.
      if p == 1
      then 2
      else if p == 2
      then 3
      else if p == 3
      then 1
      else if p == 4
      then 5
      else if p == 5
      then 4
      else p;
}

abbrev items : List Ptr
items = 2 ∷ 3 ∷ []

items-IsRing : IsRing links 1 items
items-IsRing = record {
  linked = (refl, refl, (refl, refl, (refl, refl)));
  once = λ p. ground arith;
}

item-IsRing : IsRing links 4 (5 ∷ [])
item-IsRing = record { linked = (refl, refl, (refl, refl)); once = λ p. ground arith }

empty-IsRing : IsRing links 6 []
empty-IsRing = record { linked = (refl, refl); once = λ p. ground arith }

list_inserts-IsRing_example :
    IsRing (list_insert_at links 2 7) 1 (2 ∷ 7 ∷ 3 ∷ [])
    × IsRing (list_append links 1 7) 1 (2 ∷ 3 ∷ 7 ∷ [])
    × IsRing (list_prepend links 1 7) 1 (7 ∷ 2 ∷ 3 ∷ [])
list_inserts-IsRing_example = list_inserts-IsRing links 1 (2 ∷ []) (3 ∷ []) 7 items-IsRing refl

list_del-IsRing_example :
    IsRing (list_del links 2) 1 (3 ∷ [])
    × ((list_del links 2).next 2 ≡ list_poison_next)
    × ((list_del links 2).prev 2 ≡ list_poison_prev)
list_del-IsRing_example = list_del-IsRing links 1 [] 2 (3 ∷ []) items-IsRing

list_del-list_append_example :
    ((list_del (list_append links 1 7) 7).next 3 ≡ links.next 3)
    × ((list_del (list_append links 1 7) 7).prev 3 ≡ links.prev 3)
list_del-list_append_example =
    list_del-list_append links 1 items 7 items-IsRing refl 3 (ground arith)

list_splice-IsRing_example : IsRing (list_splice links 1 1 4) 1 (2 ∷ 3 ∷ 5 ∷ [])
list_splice-IsRing_example =
    list_splice-IsRing links 1 1 4 2 5 (3 ∷ []) [] items-IsRing item-IsRing (λ p. ground arith)

list_splice_empty_example : IsRing (list_splice links 1 1 6) 1 (2 ∷ 3 ∷ 6 ∷ [])
list_splice_empty_example =
    list_splice_empty links 1 1 6 2 (3 ∷ []) items-IsRing empty-IsRing (λ p. ground arith)

-- Adds the addresses up.
abbrev add_up : Ptr → ℕ → ℕ
add_up p s = p + s

list_for_each_safe-IsRing_example :
    Ends (λ u. IsRing u 1 []) (list_for_each_safe 3 1 delete_item links)
list_for_each_safe-IsRing_example =
    list_for_each_safe-IsRing 3 links 1 items (omega arith) items-IsRing
