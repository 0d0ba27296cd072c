-- ===== src/LinkedList/Splice.antt =====
-- list_splice.
use trading_base.Base.{
  ◌+◌, ◌≤◌, ◌<◌, ◌≡◌, ◌≢◌, ◌∙◌, List, [], ◌∷◌, ◌++◌, ◌==◌, if◌then◌else◌, arith,
}
use trading_base.LinkedList.{Ptr, Links, list_join, list_splice}
use trading_base.LinkedList.Rings.{
  Linked, one, count, count-append, IsRing, end, Linked-end, Linked-join, count-end,
}
use trading_base.LinkedList.Insert.{off}

module _ (m : Links) (t fp fn sp sn : Ptr) where
  list_join-next :
      (q : Ptr)
      → (list_join m t fp fn sp sn).next q
        ≡ (if q == t then fn else if q == sp then t else if q == fp then sn else m.next q)
  unfolding list_join
  list_join-next q = ground arith

  list_join-prev :
      (q : Ptr)
      → (list_join m t fp fn sp sn).prev q
        ≡ (if q == t then sp else if q == fn then t else if q == sn then fp else m.prev q)
  unfolding list_join
  list_join-prev q = ground arith

-- The inner links stay, and the last one leads elsewhere.
led :
    (m u : Links) (x : Ptr) (xs : List Ptr) (b c : Ptr)
    → ((q : Ptr) → 0 < one q x + count q xs → q ≢ end x xs → u.next q ≡ m.next q)
    → ((q : Ptr) → 0 < count q xs → u.prev q ≡ m.prev q)
    → ((q : Ptr) → one q x + count q xs ≤ 1)
    → u.next (end x xs) ≡ c
    → u.prev c ≡ end x xs
    → Linked m x xs b
    → Linked u x xs c
led m u x [] b c fn fp once n p h = (n, p)
led m u x (z ∷ zs) b c fn fp once n p h =
    let nx : x ≢ end z zs = λ e. ground (arith, once x, count-end z zs) in
    (
      fn x (ground arith) nx ∙ h.0,
      fp z (ground arith) ∙ h.1,
      led m u z zs b c (λ q o. fn q (omega arith)) (λ q o. fp q (omega arith))
          (λ q. omega (arith, once q)) n p h.2,
    )

module _ (m : Links) (t x y b c : Ptr) (xs ys : List Ptr)
    (once : (p : Ptr) → one p t + one p x + count p xs + one p y + count p ys ≤ 1) where
  abbrev joined : Links
  joined = list_join m t (end x xs) x (end y ys) y

  at_next :
      (q : Ptr)
      → joined.next q
        ≡ (if q == t then x else if q == end y ys then t else if q == end x xs then y else m.next q)
  at_next = list_join-next m t (end x xs) x (end y ys) y

  at_prev :
      (q : Ptr)
      → joined.prev q
        ≡ (if q == t then end y ys else if q == x then t else if q == y then end x xs else m.prev q)
  at_prev = list_join-prev m t (end x xs) x (end y ys) y

  last_first : (end x xs ≢ t) × (end x xs ≢ end y ys)
  last_first = (
    off (end x xs) t _ (count-end x xs) (omega (arith, once (end x xs))),
    λ e.
        let o : 0 < one (end x xs) y + count (end x xs) ys = rw e (count-end y ys) in
        omega (arith, o, count-end x xs, once (end x xs)),
  )

  last_second : end y ys ≢ t
  last_second = off (end y ys) t _ (count-end y ys) (omega (arith, once (end y ys)))

  tops : (x ≢ t) × (y ≢ t) × (y ≢ x)
  tops = (λ e. ground (arith, once x), λ e. ground (arith, once y), λ e. ground (arith, once y))

  first_part : Linked m x xs b → Linked joined x xs y
  first_part =
      led m joined x xs b y
        (λ q o nq.
          let s : q ≢ end y ys = λ e.
            let o' : 0 < one q y + count q ys = rw e (count-end y ys) in
            omega (arith, o, o', once q) in
          let nt : q ≢ t = off q t _ o (omega (arith, once q)) in at_next q ∙ ground arith)
        (λ q o.
          let nt : q ≢ t = off q t _ o (omega (arith, once q)) in
          let nx : q ≢ x = off q x _ o (omega (arith, once q)) in
          let ny : q ≢ y = off q y _ o (omega (arith, once q)) in at_prev q ∙ ground arith)
        (λ q. omega (arith, once q))
        (let (lt, ls) = last_first in at_next (end x xs) ∙ ground arith)
        (let (xt, yt, yx) = tops in at_prev y ∙ ground arith)

  second_part : Linked m y ys c → Linked joined y ys t
  second_part =
      led m joined y ys c t
        (λ q o nq.
          let s : q ≢ end x xs = λ e.
            let o' : 0 < one q x + count q xs = rw e (count-end x xs) in
            omega (arith, o, o', once q) in
          let nt : q ≢ t = off q t _ o (omega (arith, once q)) in at_next q ∙ ground arith)
        (λ q o.
          let nt : q ≢ t = off q t _ o (omega (arith, once q)) in
          let nx : q ≢ x = off q x _ o (omega (arith, once q)) in
          let ny : q ≢ y = off q y _ o (omega (arith, once q)) in at_prev q ∙ ground arith)
        (λ q. omega (arith, once q)) (let lt = last_second in at_next (end y ys) ∙ ground arith)
        (at_prev t ∙ ground arith)

  joined-IsRing : Linked m x xs b → Linked m y ys c → IsRing joined t (x ∷ xs ++ y ∷ ys)
  joined-IsRing h g =
      let (xt, yt, yx) = tops in
      let (lt, ls) = last_first in
      record {
        linked =
            Linked-join joined t (x ∷ xs) y ys t
              (at_next t ∙ ground arith, at_prev x ∙ ground arith, first_part h)
              (at_next (end x xs) ∙ ground arith, at_prev y ∙ ground arith, second_part g);
        once = λ p. omega (arith, once p, count-append p (x ∷ xs) (y ∷ ys));
      }

-- list_splice of two lists with items onto a head that is not one of these items (either of the two
-- heads, or a new one): the links spell the list of the items of the first and then those of the second.
pub list_splice-IsRing :
    (m : Links) (target first second x y : Ptr) (xs ys : List Ptr)
    → IsRing m first (x ∷ xs)
    → IsRing m second (y ∷ ys)
    → ((p : Ptr) → one p target + one p x + count p xs + one p y + count p ys ≤ 1)
    → IsRing (list_splice m target first second) target ((x ∷ xs) ++ (y ∷ ys))
unfolding list_splice
list_splice-IsRing m target first second x y xs ys h g once =
    rw
      (
        Linked-end m first (x ∷ xs) first h.linked,
        h.linked.0,
        Linked-end m second (y ∷ ys) second g.linked,
        g.linked.0,
      )
      (joined-IsRing m target x y first second xs ys once h.linked.2 g.linked.2)

-- list_splice of a list with items and an empty list, onto a head that is neither an item nor the head
-- of the empty list: that head ends up in the resulting list, as if it were an item behind the others.
pub list_splice_empty :
    (m : Links) (target first second x : Ptr) (xs : List Ptr)
    → IsRing m first (x ∷ xs)
    → IsRing m second []
    → ((p : Ptr) → one p target + one p x + count p xs + one p second ≤ 1)
    → IsRing (list_splice m target first second) target ((x ∷ xs) ++ (second ∷ []))
unfolding list_splice
list_splice_empty m target first second x xs h g once =
    rw (Linked-end m first (x ∷ xs) first h.linked, h.linked.0, g.linked.0, g.linked.1)
      (joined-IsRing m target x second first second xs [] (λ p. omega (arith, once p)) h.linked.2
        g.linked)
