-- ===== src/LinkedList/Insert.antt =====
-- __list_add, list_append, list_prepend and list_insert_at.
use trading_base.Base.{
  ℕ, ◌+◌, ◌≤◌, ◌<◌, ◌≡◌, ◌≢◌, ◌∙◌, List, [], ◌∷◌, ◌++◌, ◌==◌, if◌then◌else◌, arith,
}
use mathlib.Core.List.{append-nil}
use trading_base.LinkedList.{Ptr, Links, list_add, list_append, list_prepend, list_insert_at}
use trading_base.LinkedList.Rings.{
  Linked, one, count, count-append, IsRing, end, start, Linked-end, Linked-start, count-end,
  count-start, Linked-same,
}

-- What __list_add writes, when the new entry differs from both.
module _ (m : Links) (new p n : Ptr) (np : new ≢ p) (nn : new ≢ n) where
  list_add-next :
      (q : Ptr)
      → (list_add m new p n).next q ≡ (if q == new then n else if q == p then new else m.next q)
  unfolding list_add
  list_add-next q = ground arith

  list_add-prev :
      (q : Ptr)
      → (list_add m new p n).prev q ≡ (if q == n then new else if q == new then p else m.prev q)
  unfolding list_add
  list_add-prev q = ground arith

-- A link to a new entry after `p` and before `n`.
pub record Adds (m u : Links) (new p n : Ptr) : Type 0 where
  pub next_p : u.next p ≡ new
  pub next_new : u.next new ≡ n
  pub prev_n : u.prev n ≡ new
  pub prev_new : u.prev new ≡ p
  pub next_same : (q : Ptr) → q ≢ p → q ≢ new → u.next q ≡ m.next q
  pub prev_same : (q : Ptr) → q ≢ n → q ≢ new → u.prev q ≡ m.prev q

pub list_add-Adds :
    (m : Links) (new p n : Ptr) → new ≢ p → new ≢ n → Adds m (list_add m new p n) new p n
list_add-Adds m new p n np nn = record {
  next_p = list_add-next m new p n np nn p ∙ ground arith;
  next_new = list_add-next m new p n np nn new ∙ ground arith;
  prev_n = list_add-prev m new p n np nn n ∙ ground arith;
  prev_new = list_add-prev m new p n np nn new ∙ ground arith;
  next_same = λ q a b. list_add-next m new p n np nn q ∙ ground arith;
  prev_same = λ q a b. list_add-prev m new p n np nn q ∙ ground arith;
}

pub off : (p q i : ℕ) → 0 < i → one p q + i ≤ 1 → p ≢ q
off p q i o h e = ground arith

Adds-Linked :
    (m u : Links) (a : Ptr) (xs ys : List Ptr) (b new : Ptr)
    → Adds m u new (end a xs) (start ys b)
    → ((p : Ptr) → one p a + count p xs + count p ys + one p new ≤ 1)
    → ((p : Ptr) → one p b + count p xs + count p ys + one p new ≤ 1)
    → Linked m a (xs ++ ys) b
    → Linked u a (xs ++ new ∷ ys) b
Adds-Linked m u a [] [] b new w d e h = (w.next_p, w.prev_new, (w.next_new, w.prev_n))
Adds-Linked m u a [] (y ∷ ys) b new w d e h = (
  w.next_p,
  w.prev_new,
  (
    w.next_new,
    w.prev_n,
    Linked-same m u y ys b
        (λ q o.
          w.next_same q (off q a _ o (omega (arith, d q))) (off q new _ o (omega (arith, d q))))
        (λ q o.
          w.prev_same q (off q y _ o (omega (arith, e q))) (off q new _ o (omega (arith, e q))))
        h.2,
  ),
)
Adds-Linked m u a (x ∷ xs) ys b new w d e h =
    let na : a ≢ end x xs = λ q. ground (arith, d a, count-end x xs) in
    let nx : x ≢ start ys b = λ q. ground (arith, e x, count-start ys b) in
    (
      w.next_same a na (λ q. ground (arith, d a)) ∙ h.0,
      w.prev_same x nx (λ q. ground (arith, d x)) ∙ h.1,
      Adds-Linked m u x xs ys b new w (λ p. omega (arith, d p)) (λ p. omega (arith, e p)) h.2,
    )

fresh : (p new n : ℕ) → (p ≡ new → n ≡ 0) → n ≤ 1 → n + one p new ≤ 1
fresh p new n f h = ground arith

-- A new entry between two neighbours of a ring.
add-IsRing :
    (m : Links) (head : Ptr) (xs ys : List Ptr) (new : Ptr)
    → IsRing m head (xs ++ ys)
    → one new head + count new (xs ++ ys) ≡ 0
    → IsRing (list_add m new (end head xs) (start ys head)) head (xs ++ new ∷ ys)
add-IsRing m head xs ys new h out =
    let parts : (p : Ptr) → one p head + count p xs + count p ys + one p new ≤ 1 = λ p.
      fresh p new (one p head + count p xs + count p ys)
        (λ e. rw e (omega (arith, out, count-append new xs ys)))
        (omega (arith, h.once p, count-append p xs ys)) in
    let np : new ≢ end head xs = λ e.
      let pos : 0 < one new head + count new xs = rw e (count-end head xs) in
      omega (arith, pos, out, count-append new xs ys) in
    let nn : new ≢ start ys head = λ e.
      let pos : 0 < count new ys + one new head = rw e (count-start ys head) in
      omega (arith, pos, out, count-append new xs ys) in
    record {
      linked =
          Adds-Linked m _ head xs ys head new
            (list_add-Adds m new (end head xs) (start ys head) np nn) parts parts h.linked;
      once = λ p. omega (arith, parts p, count-append p xs (new ∷ ys));
    }

append-IsRing :
    (m : Links) (head : Ptr) (xs : List Ptr) (new : Ptr)
    → IsRing m head xs
    → one new head + count new xs ≡ 0
    → IsRing (list_append m head new) head (xs ++ new ∷ [])
unfolding list_append
append-IsRing m head xs new h out =
    rw (Linked-end m head xs head h.linked)
      (add-IsRing m head xs [] new (rw (append-nil xs) h) (rw (append-nil xs) out))

pub Linked-after :
    (m : Links) (a : Ptr) (xs ys : List Ptr) (b : Ptr)
    → Linked m a (xs ++ ys) b
    → m.next (end a xs) ≡ start ys b
Linked-after m a [] ys b h = Linked-start m a ys b h
Linked-after m a (x ∷ xs) ys b h = Linked-after m x xs ys b h.2

-- A list with the items `xs` and then `ys`, and an entry that is not in it. list_insert_at behind the
-- last one of `xs` (behind the head, if there is none) puts it between both, list_append puts it behind all
-- items and list_prepend before them; in each case the links spell the list of the same items in the same
-- order with the new one there.
pub list_inserts-IsRing :
    (m : Links) (head : Ptr) (xs ys : List Ptr) (new : Ptr)
    → IsRing m head (xs ++ ys)
    → one new head + count new (xs ++ ys) ≡ 0
    → IsRing (list_insert_at m (end head xs) new) head (xs ++ new ∷ ys)
      × IsRing (list_append m head new) head ((xs ++ ys) ++ new ∷ [])
      × IsRing (list_prepend m head new) head (new ∷ (xs ++ ys))
unfolding list_insert_at list_prepend
list_inserts-IsRing m head xs ys new h out = (
  rw (Linked-after m head xs ys head h.linked) (add-IsRing m head xs ys new h out),
  append-IsRing m head (xs ++ ys) new h out,
  rw (Linked-start m head (xs ++ ys) head h.linked) (add-IsRing m head [] (xs ++ ys) new h out),
)

-- list_append leaves the links of all entries alone that are neither in the list nor the new one.
pub list_append-apart :
    (m : Links) (head : Ptr) (xs : List Ptr) (new : Ptr)
    → IsRing m head xs
    → one new head + count new xs ≡ 0
    → (q : Ptr) → one q head + count q xs ≡ 0
    → q ≢ new
    → ((list_append m head new).next q ≡ m.next q) × ((list_append m head new).prev q ≡ m.prev q)
unfolding list_append
list_append-apart m head xs new h out q far nq =
    let np : new ≢ end head xs = λ e.
      let pos : 0 < one new head + count new xs = rw e (count-end head xs) in
      omega (arith, pos, out) in
    let qp : q ≢ end head xs = λ e.
      let pos : 0 < one q head + count q xs = rw e (count-end head xs) in omega (arith, pos, far) in
    let nn : new ≢ head = λ e. ground (arith, out) in
    let qn : q ≢ head = λ e. ground (arith, far) in
    let w = list_add-Adds m new (end head xs) head np nn in
    rw (Linked-end m head xs head h.linked) (w.next_same q qp nq, w.prev_same q qn nq)
