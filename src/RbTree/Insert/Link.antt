-- ===== src/RbTree/Insert/Link.antt =====
-- rb_tree_insert: the new node hangs below its parent.
use trading_base.Base.{
  Bool, true, false, ◌==◌, if◌then◌else◌, ◌≡◌, ◌≢◌, ◌≤◌, ◌<◌, ◌+◌, refl, Bool-cases, ◌⊎◌, inl, inr,
  List, [], ◌∷◌, ◌++◌, arith,
}
use trading_base.RbTree.{Ptr, null, red, Tree}
use trading_base.RbTree.Shape.{
  Shape, leaf, node, Frame, left_of, right_of, Context, above, Spells, occurs, occurs_in, SameAt,
  IsTree-same, IsContext-same, one,
}
use trading_base.RbTree.Writes.{put_left, put_right, put_parent}
use trading_base.RbTree.Insert.Down.{link, is_rightmost}
use trading_base.RbTree.Balance.{inorder}
use trading_base.RbTree.Sorted.{before, after, IsLast, IsLast-put, IsLast-end}
use trading_base.RbTree.Valid.{Spells-same}

-- The two writes change the new node and its parent only.
module _ (t : Tree) (p x a : Ptr) (nx : a ≢ x) (np : a ≢ p) where
  left_link-SameAt : SameAt t (put_parent (put_left t p x) x p) a
  unfolding put_parent put_left
  left_link-SameAt = record {
    left = ground arith;
    right = refl;
    parent = ground arith;
    color = refl;
  }

  right_link-SameAt : SameAt t (put_parent (put_right t p x) x p) a
  unfolding put_parent put_right
  right_link-SameAt = record {
    left = refl;
    right = ground arith;
    parent = ground arith;
    color = refl;
  }

-- The new node is the only one at its address.
new_once :
    (a x : Ptr) (k : Context)
    → occurs_in x k ≡ 0
    → occurs_in a k ≤ 1
    → one a x + 0 + 0 + occurs_in a k ≤ 1
new_once a x k out once = elim (Bool-cases (a == x)) [
  | inl e ↦ let same : a ≡ x = ground arith in rw (same, out) (ground arith)
  | inr e ↦ rw e (omega arith)
]

pub link-Spells :
    (t : Tree) (x : Ptr) (f : Frame) (k : Context)
    → Spells t leaf (f ∷ k)
    → x ≢ null
    → occurs_in x (f ∷ k) ≡ 0
    → t.left x ≡ null
    → t.right x ≡ null
    → t.color x ≡ red
    → Spells (put_parent (link t (f ∷ k) x) x (above (f ∷ k))) (node x red leaf leaf) (f ∷ k)
unfolding put_parent put_left put_right
link-Spells t x (left_of p c r) k h nx out hl hr hc =
    let (np, pl, pr, pp, pc, tr, rest) = h.context in
    let u = put_parent (put_left t p x) x p in
    let apart : x ≢ p = λ e. ground arith in
    let same : (a : Ptr) → 0 < occurs a r + occurs_in a k → SameAt t u a =
      λ a o. left_link-SameAt t p x a (λ e. ground arith) (λ e. ground (arith, h.linear a)) in
    record {
      tree = (nx, ground arith, hr, ground arith, hc, tt, tt);
      context = (
        np,
        ground arith,
        pr,
        ground arith,
        pc,
        IsTree-same t u p r (λ a o. same a (omega arith)) tr,
        IsContext-same t u p k refl (λ a o. same a (omega arith)) rest,
      );
      linear = λ a. new_once a x (left_of p c r ∷ k) out (omega (arith, h.linear a));
    }
link-Spells t x (right_of p c l) k h nx out hl hr hc =
    let (np, pl, pr, pp, pc, tl, rest) = h.context in
    let u = put_parent (put_right t p x) x p in
    let apart : x ≢ p = λ e. ground arith in
    let same : (a : Ptr) → 0 < occurs a l + occurs_in a k → SameAt t u a =
      λ a o. right_link-SameAt t p x a (λ e. ground arith) (λ e. ground (arith, h.linear a)) in
    record {
      tree = (nx, hl, ground arith, ground arith, hc, tt, tt);
      context = (
        np,
        pl,
        ground arith,
        ground arith,
        pc,
        IsTree-same t u p l (λ a o. same a (omega arith)) tl,
        IsContext-same t u p k refl (λ a o. same a (omega arith)) rest,
      );
      linear = λ a. new_once a x (right_of p c l ∷ k) out (omega (arith, h.linear a));
    }

-- The writes keep the keys, and the rightmost node unless the new node is set there.
abbrev pub crowned : Tree → Ptr → Bool → Tree
crowned u x rightmost = if rightmost then record u { rightmost = x } else u

pub crowned-Spells :
    (u : Tree) (x : Ptr) (b : Bool) (s : Shape) (k : Context)
    → Spells u s k
    → Spells (crowned u x b) s k
crowned-Spells u x true s k h =
    Spells-same (record u { rightmost = x }) refl
      (λ a o. record { left = refl; right = refl; parent = refl; color = refl }) h
crowned-Spells u x false s k h = h

pub crowned-rightmost :
    (u : Tree) (x : Ptr) (b : Bool) → (crowned u x b).rightmost ≡ (if b then x else u.rightmost)
crowned-rightmost u x true = refl
crowned-rightmost u x false = refl

pub linked-kept :
    (t : Tree) (k : Context) (x p : Ptr) (b : Bool)
    → ((a : Ptr) → (crowned (put_parent (link t k x) x p) x b).key a ≡ t.key a)
      × ((put_parent (link t k x) x p).rightmost ≡ t.rightmost)
unfolding put_parent put_left put_right
linked-kept t [] x p true = (λ a. refl, refl)
linked-kept t [] x p false = (λ a. refl, refl)
linked-kept t (left_of q c r ∷ k) x p true = (λ a. refl, refl)
linked-kept t (left_of q c r ∷ k) x p false = (λ a. refl, refl)
linked-kept t (right_of q c r ∷ k) x p true = (λ a. refl, refl)
linked-kept t (right_of q c r ∷ k) x p false = (λ a. refl, refl)

after_cases :
    (k : Context)
    → ((is_rightmost k ≡ true) × (after k ≡ []))
      ⊎ ((y : Ptr) × (ys : List Ptr) × (is_rightmost k ≡ false) × (after k ≡ y ∷ ys))
after_cases [] = inl (refl, refl)
after_cases (left_of p c r ∷ k) = inr (p, inorder r ++ after k, refl, refl)
after_cases (right_of p c l ∷ k) = after_cases k

-- The new node is last where the way down never turned left.
pub crowned-IsLast :
    (k : Context) (q x : Ptr)
    → IsLast q (before k ++ after k)
    → IsLast (if is_rightmost k then x else q) (before k ++ x ∷ after k)
crowned-IsLast k q x h = elim (after_cases k) [
  | inl (test, none_) ↦ rw (test, none_) (IsLast-end x (before k))
  | inr (y, ys, test, some_) ↦ rw (test, some_) (IsLast-put q x (before k) y ys (rw some_ at h))
]
