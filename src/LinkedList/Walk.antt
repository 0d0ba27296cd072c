-- ===== src/LinkedList/Walk.antt =====
-- list_empty, list_is_last, list_for_each and list_for_each_safe.
use trading_base.Base.{
  ℕ, zero, suc, ◌<◌, ◌≡◌, refl, ◌∙◌, List, [], ◌∷◌, ◌++◌, ◌==◌, if◌then◌else◌, arith, length, done,
  true, false, Ends, ends,
}
use trading_base.LinkedList.{
  Ptr, Links, list_empty, list_is_last, list_del, each_from, list_for_each, each_safe_from,
  list_for_each_safe,
}
use trading_base.LinkedList.Rings.{
  Linked, one, count, count-append, IsRing, end, start, Linked-start,
}
use trading_base.LinkedList.Insert.{Linked-after}
use trading_base.LinkedList.Delete.{list_del-IsRing}

-- 1 for no items, and 0 for some.
abbrev pub no_items : List Ptr → ℕ
no_items [] = 1
no_items (x ∷ xs) = 0

leads_back :
    (m : Links) (head p : Ptr) (ys : List Ptr)
    → m.next p ≡ start ys head
    → count head ys ≡ 0
    → (if m.next p == head then 1 else 0) ≡ no_items ys
leads_back m head p [] e out = ground arith
leads_back m head p (y ∷ ys) e out = ground arith

-- In a list with the items `xs` and then `ys`: list_empty answers 1 if there is no item and 0 otherwise, and
-- list_is_last at the last one of `xs` answers 1 if `ys` has no item and 0 otherwise.
pub list_tests-no_items :
    (m : Links) (head : Ptr) (xs ys : List Ptr)
    → IsRing m head (xs ++ ys)
    → (list_empty m head ≡ no_items (xs ++ ys)) × (list_is_last m head (end head xs) ≡ no_items ys)
unfolding list_empty list_is_last
list_tests-no_items m head xs ys h =
    let self : one head head ≡ 1 = ground arith in
    (
      leads_back m head head (xs ++ ys) (Linked-start m head (xs ++ ys) head h.linked)
          (omega (arith, self, h.once head)),
      leads_back m head (end head xs) ys (Linked-after m head xs ys head h.linked)
          (omega (arith, self, h.once head, count-append head xs ys)),
    )

-- The body on each of the items, in order.
abbrev pub fold : {S : Type 0} → (Ptr → S → S) → List Ptr → S → S
fold f [] s = s
fold f (x ∷ xs) s = fold f xs (f x s)

each_from-fold :
    {S : Type 0} (fuel : ℕ) (m : Links) (head : Ptr) (body : Ptr → S → S) (xs : List Ptr)
    (a q : Ptr) (s : S)
    → q ≡ start xs head
    → length xs < fuel
    → Linked m a xs head
    → count head xs ≡ 0
    → each_from fuel m head body q s ≡ done (fold body xs s)
unfolding each_from
each_from-fold zero m head body xs a q s at enough h out = absurd (omega arith)
each_from-fold (suc fuel) m head body [] a q s at enough h out =
    let here : (q == head) ≡ true = ground arith in rw here refl
each_from-fold (suc fuel) m head body (x ∷ xs) a q s at enough h out =
    let there : (q == head) ≡ false = ground arith in
    rw there (
      rw at (
        each_from-fold fuel m head body xs x (m.next x) (body x s) (Linked-start m x xs head h.2)
          (omega arith) h.2 (omega (arith, out))))

-- list_for_each over a list, with a body that leaves the links alone and with fuel for more rounds than
-- there are items: the loop ends, and the body has run once on each item, in the order of the list.
pub list_for_each-fold :
    {S : Type 0} (fuel : ℕ) (m : Links) (head : Ptr) (body : Ptr → S → S) (xs : List Ptr) (s : S)
    → length xs < fuel
    → IsRing m head xs
    → list_for_each fuel m head body s ≡ done (fold body xs s)
unfolding list_for_each
list_for_each-fold fuel m head body xs s enough h =
    each_from-fold fuel m head body xs head (m.next head) s (Linked-start m head xs head h.linked)
      enough h.linked (ground (arith, h.once head))

-- The body that deletes the item.
abbrev pub delete_item : Ptr → Links → Links
delete_item item m = list_del m item

each_safe_from-IsRing :
    (fuel : ℕ) (m : Links) (head : Ptr) (xs : List Ptr) (q next : Ptr)
    → q ≡ start xs head
    → next ≡ m.next q
    → length xs < fuel
    → IsRing m head xs
    → Ends (λ u. IsRing u head []) (each_safe_from fuel head delete_item q next m)
unfolding each_safe_from
each_safe_from-IsRing zero m head xs q next at ahead enough h = absurd (omega arith)
each_safe_from-IsRing (suc fuel) m head [] q next at ahead enough h =
    let here : (q == head) ≡ true = ground arith in rw here (ends h)
each_safe_from-IsRing (suc fuel) m head (x ∷ xs) q next at ahead enough h =
    let there : (q == head) ≡ false = ground (arith, h.once x) in
    let onward : next ≡ start xs head = ahead ∙ rw at (Linked-start m x xs head h.linked.2) in
    rw there (
      rw at (
        each_safe_from-IsRing fuel (list_del m x) head xs next ((list_del m x).next next) onward
          refl (omega arith) (list_del-IsRing m head [] x xs h).0))

-- list_for_each_safe over a list, with a body that deletes the item and with fuel for more rounds than
-- there are items: the loop ends, and the list is empty.
pub list_for_each_safe-IsRing :
    (fuel : ℕ) (m : Links) (head : Ptr) (xs : List Ptr)
    → length xs < fuel
    → IsRing m head xs
    → Ends (λ u. IsRing u head []) (list_for_each_safe fuel head delete_item m)
unfolding list_for_each_safe
list_for_each_safe-IsRing fuel m head xs enough h =
    each_safe_from-IsRing fuel m head xs (m.next head) (m.next (m.next head))
      (Linked-start m head xs head h.linked) refl enough h
