-- ===== src/RbTree/Neighbours/Previous.antt =====
-- The previous node, from left to right.
use trading_base.Base.{
  ℕ, zero, suc, ◌==◌, Ends, ends, Ends-if, Ends-mono, Ends-bind, ◌≡◌, ◌≢◌, ◌<◌, refl, sym, ◌∙◌, ap,
  List, [], ◌∷◌, ◌++◌, length, arith,
}
use mathlib.Core.List.{append-nil, append_assoc}
use trading_base.ResultCode.{a_ok}
use trading_base.RbTree.{Ptr, null, Tree, Color}
use trading_base.RbTree.Shape.{
  Shape, leaf, node, left_of, right_of, Context, top, above, IsTree, Spells,
}
use trading_base.RbTree.Occurs.{top_ne}
use trading_base.RbTree.Writes.{load-done}
use trading_base.RbTree.Balance.{inorder}
use trading_base.RbTree.Focus.{up_left}
use trading_base.RbTree.Sorted.{before}
use trading_base.RbTree.Valid.{size}
use trading_base.RbTree.Neighbours.{
  find_maximum, climb_from_left, find_predecessor, rb_tree_find_predecessor,
}

-- The last node, or NULL.
abbrev pub last : List Ptr → Ptr
last [] = null
last (x ∷ []) = x
last (x ∷ y ∷ ys) = last (y ∷ ys)

last-append : (xs : List Ptr) (y : Ptr) (ys : List Ptr) → last (xs ++ y ∷ ys) ≡ last (y ∷ ys)
last-append [] y ys = refl
last-append (x ∷ []) y ys = refl
last-append (x ∷ x' ∷ xs) y ys = last-append (x' ∷ xs) y ys

-- The last node of a subtree that is not empty is the last of all up to it.
last-inorder :
    (xs : List Ptr) (q : Ptr) (c : Color) (a b : Shape)
    → last (inorder (node q c a b)) ≡ last (xs ++ inorder (node q c a b))
last-inorder xs q c a b =
    last-append (inorder a) q (inorder b)
    ∙ sym (
        ap last (sym (append_assoc xs (inorder a) (q ∷ inorder b)))
        ∙ last-append (xs ++ inorder a) q (inorder b))

pub find_maximum-last :
    (fuel : ℕ) (t : Tree) (up p : Ptr) (c : Color) (l r : Shape)
    → size r < fuel
    → IsTree t up (node p c l r)
    → Ends (λ v. v ≡ last (inorder (node p c l r))) (find_maximum fuel t p)
unfolding find_maximum
find_maximum-last zero t up p c l r enough h = absurd (omega arith)
find_maximum-last (suc fuel) t up p c l leaf enough h =
    rw (load-done t.right p h.0, h.2) (ends (sym (last-append (inorder l) p [])))
find_maximum-last (suc fuel) t up p c l (node q cq a b) enough h =
    rw (load-done t.right p h.0, h.2)
      (Ends-if (q == null) (λ e. absurd (h.6.0 (ground arith)))
        λ _. Ends-mono (find_maximum-last fuel t p q cq a b (omega arith) h.6) (λ v e.
          e
          ∙ last-inorder (inorder l ++ p ∷ []) q cq a b
          ∙ ap last (append_assoc (inorder l) (p ∷ []) (inorder (node q cq a b)))))

climb_from_left-last :
    (fuel : ℕ) (t : Tree) (p : Ptr) (c : Color) (l r : Shape) (k : Context)
    → length k < fuel
    → Spells t (node p c l r) k
    → Ends (λ v. v ≡ last (before k)) (climb_from_left fuel t p (above k))
unfolding climb_from_left
climb_from_left-last zero t p c l r k enough h = absurd (omega arith)
climb_from_left-last (suc fuel) t p c l r [] enough h = ends refl
climb_from_left-last (suc fuel) t p c l r (right_of q cq s ∷ k) enough h =
    let apart : top s ≢ p = top_ne s p h.tree.0 (omega (arith, h.linear p)) in
    rw (h.context.1) (
      Ends-if (q == null) (λ e. absurd (h.context.0 (ground arith)))
        λ _.
          Ends-if (p == top s) (λ e. absurd (apart (ground arith)))
            (λ _. ends (
              sym (
                ap last (sym (append_assoc (before k) (inorder s) (q ∷ [])))
                ∙ last-append (before k ++ inorder s) q []))))
climb_from_left-last (suc fuel) t p c l r (left_of q cq s ∷ k) enough h =
    rw (h.context.1, h.context.3)
      (Ends-if (q == null) (λ e. absurd (h.context.0 (ground arith)))
        λ _.
          Ends-if (p == p)
            (λ _. climb_from_left-last fuel t q cq (node p c l r) s k (omega arith) (up_left h))
            (λ e. absurd (ground arith)))

pub find_predecessor-last :
    (fuel : ℕ) (t : Tree) (p : Ptr) (c : Color) (l r : Shape) (k : Context)
    → size l < fuel
    → length k < fuel
    → Spells t (node p c l r) k
    → Ends (λ v. v ≡ last (before k ++ inorder l)) (find_predecessor fuel t p)
unfolding find_predecessor
find_predecessor-last fuel t p c leaf r k enough deep h =
    rw (load-done t.left p h.tree.0, h.tree.1, h.tree.3, append-nil (before k))
      (climb_from_left-last fuel t p c leaf r k deep h)
find_predecessor-last fuel t p c (node q cq a b) r k enough deep h =
    rw (load-done t.left p h.tree.0, h.tree.1)
      (Ends-if (q == null) (λ e. absurd (h.tree.5.0 (ground arith)))
        λ _.
          Ends-mono (find_maximum-last fuel t p q cq a b (omega arith) h.tree.5)
            (λ v e. e ∙ last-inorder (before k) q cq a b))

-- rb_tree_find_predecessor at a node of a tree in memory, with fuel above the size of its
-- left subtree and above its depth: the run ends
-- with A_OK and the node that precedes it from left to right,
-- the last one of its left subtree or else the last one before its subtree, or with NULL.
pub rb_tree_find_predecessor-last :
    (fuel : ℕ) (t : Tree) (p : Ptr) (c : Color) (l r : Shape) (k : Context) (value : Ptr)
    → size l < fuel
    → length k < fuel
    → Spells t (node p c l r) k
    → Ends (λ v. v ≡ (a_ok, last (before k ++ inorder l))) (rb_tree_find_predecessor fuel t p value)
unfolding rb_tree_find_predecessor
rb_tree_find_predecessor-last fuel t p c l r k value enough deep h =
    Ends-if (p == null) (λ e. absurd (h.tree.0 (ground arith)))
      λ _.
        Ends-bind (find_predecessor-last fuel t p c l r k enough deep h)
          (λ v e. ends (ap (λ w. (a_ok, w)) e))
