-- ===== src/LinkedList/Delete.antt =====
-- list_del.
use trading_base.Base.{
  ◌+◌, ◌≤◌, ◌<◌, ◌≡◌, ◌≢◌, ◌∙◌, List, [], ◌∷◌, ◌++◌, ◌==◌, if◌then◌else◌, arith,
}
use trading_base.LinkedList.{
  Ptr, Links, list_add, list_append, list_del, list_unlink, list_poison_next, list_poison_prev,
}
use trading_base.LinkedList.Rings.{
  Linked, one, count, count-append, IsRing, end, start, Linked-end, Linked-last, Linked-at,
  count-end, count-start, Linked-same,
}
use trading_base.LinkedList.Insert.{list_add-Adds, off}

module _ (m : Links) (x p n : Ptr) (hp : m.prev x ≡ p) (hn : m.next x ≡ n) where
  list_del-next :
      (q : Ptr)
      → (list_del m x).next q
        ≡ (if q == x then list_poison_next else if q == p then n else m.next q)
  unfolding list_del list_unlink
  list_del-next q = ground arith

  list_del-prev :
      (q : Ptr)
      → (list_del m x).prev q
        ≡ (if q == x then list_poison_prev else if q == n then p else m.prev q)
  unfolding list_del list_unlink
  list_del-prev q = ground arith

-- A link from `p` to `n`, past the entry `x`.
record Drops (m u : Links) (x p n : Ptr) : Type 0 where
  pub next_p : u.next p ≡ n
  pub prev_n : u.prev n ≡ p
  pub next_same : (q : Ptr) → q ≢ p → q ≢ x → u.next q ≡ m.next q
  pub prev_same : (q : Ptr) → q ≢ n → q ≢ x → u.prev q ≡ m.prev q

list_del-Drops :
    (m : Links) (x p n : Ptr)
    → m.prev x ≡ p
    → m.next x ≡ n
    → x ≢ p
    → x ≢ n
    → Drops m (list_del m x) x p n
list_del-Drops m x p n hp hn np nn = record {
  next_p = list_del-next m x p n hp hn p ∙ ground arith;
  prev_n = list_del-prev m x p n hp hn n ∙ ground arith;
  next_same = λ q a b. list_del-next m x p n hp hn q ∙ ground arith;
  prev_same = λ q a b. list_del-prev m x p n hp hn q ∙ ground arith;
}

Drops-Linked :
    (m u : Links) (a : Ptr) (xs : List Ptr) (x : Ptr) (ys : List Ptr) (b : Ptr)
    → Drops m u x (end a xs) (start ys b)
    → ((p : Ptr) → one p a + count p xs + one p x + count p ys ≤ 1)
    → ((p : Ptr) → one p b + count p xs + one p x + count p ys ≤ 1)
    → Linked m a (xs ++ x ∷ ys) b
    → Linked u a (xs ++ ys) b
Drops-Linked m u a [] x [] b w d e h = (w.next_p, w.prev_n)
Drops-Linked m u a [] x (y ∷ ys) b w d e h = (
  w.next_p,
  w.prev_n,
  Linked-same m u y ys b
      (λ q o. w.next_same q (off q a _ o (omega (arith, d q))) (off q x _ o (omega (arith, d q))))
      (λ q o. w.prev_same q (off q y _ o (omega (arith, e q))) (off q x _ o (omega (arith, e q))))
      h.2.2,
)
Drops-Linked m u a (z ∷ xs) x ys b w d e h =
    let na : a ≢ end z xs = λ q. ground (arith, d a, count-end z xs) in
    let nz : z ≢ start ys b = λ q. ground (arith, e z, count-start ys b) in
    (
      w.next_same a na (λ q. ground (arith, d a)) ∙ h.0,
      w.prev_same z nz (λ q. ground (arith, d z)) ∙ h.1,
      Drops-Linked m u z xs x ys b w (λ p. omega (arith, d p)) (λ p. omega (arith, e p)) h.2,
    )

-- list_del of an item of a list: the links spell the list of the other items in the same order, and the
-- links of the item are poisoned.
pub list_del-IsRing :
    (m : Links) (head : Ptr) (xs : List Ptr) (x : Ptr) (ys : List Ptr)
    → IsRing m head (xs ++ x ∷ ys)
    → IsRing (list_del m x) head (xs ++ ys)
      × ((list_del m x).next x ≡ list_poison_next)
      × ((list_del m x).prev x ≡ list_poison_prev)
list_del-IsRing m head xs x ys h =
    let parts : (p : Ptr) → one p head + count p xs + one p x + count p ys ≤ 1 =
      λ p. omega (arith, h.once p, count-append p xs (x ∷ ys)) in
    let (hp, hn) = Linked-at m head xs x ys head h.linked in
    let self : one x x ≡ 1 = ground arith in
    let np : x ≢ end head xs = λ e.
      let o : 0 < one x head + count x xs = rw e (count-end head xs) in
      omega (arith, o, parts x, self) in
    let nn : x ≢ start ys head = λ e.
      let o : 0 < count x ys + one x head = rw e (count-start ys head) in
      omega (arith, o, parts x, self) in
    (
      record {
        linked =
            Drops-Linked m _ head xs x ys head
              (list_del-Drops m x (end head xs) (start ys head) hp hn np nn) parts parts h.linked;
        once = λ p. omega (arith, parts p, count-append p xs ys);
      },
      list_del-next m x (end head xs) (start ys head) hp hn x ∙ ground arith,
      list_del-prev m x (end head xs) (start ys head) hp hn x ∙ ground arith,
    )

module _ (m : Links) (new p n : Ptr) (hn : m.next p ≡ n) (hp : m.prev n ≡ p) (np : new ≢ p)
    (nn : new ≢ n) (q : Ptr) (nq : q ≢ new) where
  restored-next : (list_del (list_add m new p n) new).next q ≡ m.next q
  restored-next =
      let w = list_add-Adds m new p n np nn in
      list_del-next (list_add m new p n) new p n w.prev_new w.next_new q
      ∙ ground (arith, w.next_same q)

  restored-prev : (list_del (list_add m new p n) new).prev q ≡ m.prev q
  restored-prev =
      let w = list_add-Adds m new p n np nn in
      list_del-prev (list_add m new p n) new p n w.prev_new w.next_new q
      ∙ ground (arith, w.prev_same q)

-- list_append of an entry that is not in a list, and list_del of it: all other entries have the links
-- that they had.
pub list_del-list_append :
    (m : Links) (head : Ptr) (xs : List Ptr) (new : Ptr)
    → IsRing m head xs
    → one new head + count new xs ≡ 0
    → (q : Ptr) → q ≢ new
    → ((list_del (list_append m head new) new).next q ≡ m.next q)
      × ((list_del (list_append m head new) new).prev q ≡ m.prev q)
unfolding list_append
list_del-list_append m head xs new h out q nq =
    let last : m.prev head ≡ end head xs = Linked-end m head xs head h.linked in
    let back : m.next (end head xs) ≡ head = Linked-last m head xs head h.linked in
    let np : new ≢ end head xs = λ e.
      let o : 0 < one new head + count new xs = rw e (count-end head xs) in omega (arith, o, out) in
    let nn : new ≢ head = λ e. ground (arith, out) in
    rw last (
      restored-next m new (end head xs) head back last np nn q nq,
      restored-prev m new (end head xs) head back last np nn q nq,
    )

-- list_del leaves the links of all entries alone that are not in the list.
pub list_del-apart :
    (m : Links) (head : Ptr) (xs : List Ptr) (x : Ptr) (ys : List Ptr)
    → IsRing m head (xs ++ x ∷ ys)
    → (q : Ptr) → one q head + count q (xs ++ x ∷ ys) ≡ 0
    → ((list_del m x).next q ≡ m.next q) × ((list_del m x).prev q ≡ m.prev q)
list_del-apart m head xs x ys h q far =
    let (hp, hn) = Linked-at m head xs x ys head h.linked in
    let parts = count-append q xs (x ∷ ys) in
    let qx : q ≢ x = λ e. ground (arith, parts, far) in
    let qp : q ≢ end head xs = λ e.
      let o : 0 < one q head + count q xs = rw e (count-end head xs) in
      omega (arith, o, far, parts) in
    let qn : q ≢ start ys head = λ e.
      let o : 0 < count q ys + one q head = rw e (count-start ys head) in
      omega (arith, o, far, parts) in
    (
      list_del-next m x (end head xs) (start ys head) hp hn q ∙ ground arith,
      list_del-prev m x (end head xs) (start ys head) hp hn q ∙ ground arith,
    )
