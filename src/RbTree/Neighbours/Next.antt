-- ===== src/RbTree/Neighbours/Next.antt =====
-- The next node, from left to right.
use trading_base.Base.{
  ℕ, zero, suc, ◌==◌, Ends, ends, Ends-if, Ends-mono, Ends-bind, ◌≡◌, ◌≢◌, ◌<◌, refl, ◌∙◌, ap, List,
  [], ◌∷◌, ◌++◌, length, arith,
}
use trading_base.ResultCode.{a_ok}
use trading_base.RbTree.{Ptr, null, Tree, Color}
use trading_base.RbTree.Shape.{
  Shape, leaf, node, left_of, right_of, Context, top, above, IsTree, Spells,
}
use trading_base.RbTree.Occurs.{top_ne}
use trading_base.RbTree.Writes.{load-done}
use trading_base.RbTree.Balance.{inorder}
use trading_base.RbTree.Focus.{up_right}
use trading_base.RbTree.Sorted.{after}
use trading_base.RbTree.Valid.{size}
use trading_base.RbTree.Neighbours.{
  find_minimum, climb_from_right, find_successor, rb_tree_find_successor,
}

-- The first node, or NULL.
abbrev pub first : List Ptr → Ptr
first [] = null
first (x ∷ xs) = x

pub first-append :
    (xs : List Ptr) (y : Ptr) (ys zs : List Ptr)
    → first (xs ++ y ∷ ys) ≡ first ((xs ++ y ∷ ys) ++ zs)
first-append [] y ys zs = refl
first-append (x ∷ xs) y ys zs = refl

pub find_minimum-first :
    (fuel : ℕ) (t : Tree) (up p : Ptr) (c : Color) (l r : Shape)
    → size l < fuel
    → IsTree t up (node p c l r)
    → Ends (λ v. v ≡ first (inorder (node p c l r))) (find_minimum fuel t p)
unfolding find_minimum
find_minimum-first zero t up p c l r enough h = absurd (omega arith)
find_minimum-first (suc fuel) t up p c leaf r enough h =
    rw (load-done t.left p h.0, h.1) (ends refl)
find_minimum-first (suc fuel) t up p c (node q cq a b) r enough h =
    rw (load-done t.left p h.0, h.1)
      (Ends-if (q == null) (λ e. absurd (h.5.0 (ground arith)))
        λ _.
          Ends-mono (find_minimum-first fuel t p q cq a b (omega arith) h.5)
            (λ v e. e ∙ first-append (inorder a) q (inorder b) (p ∷ inorder r)))

climb_from_right-first :
    (fuel : ℕ) (t : Tree) (p : Ptr) (c : Color) (l r : Shape) (k : Context)
    → length k < fuel
    → Spells t (node p c l r) k
    → Ends (λ v. v ≡ first (after k)) (climb_from_right fuel t p (above k))
unfolding climb_from_right
climb_from_right-first zero t p c l r k enough h = absurd (omega arith)
climb_from_right-first (suc fuel) t p c l r [] enough h = ends refl
climb_from_right-first (suc fuel) t p c l r (left_of q cq s ∷ k) enough h =
    let apart : top s ≢ p = top_ne s p h.tree.0 (omega (arith, h.linear p)) in
    rw (h.context.2) (
      Ends-if (q == null) (λ e. absurd (h.context.0 (ground arith)))
        λ _. Ends-if (p == top s) (λ e. absurd (apart (ground arith))) (λ _. ends refl))
climb_from_right-first (suc fuel) t p c l r (right_of q cq s ∷ k) enough h =
    rw (h.context.2, h.context.3)
      (Ends-if (q == null) (λ e. absurd (h.context.0 (ground arith)))
        λ _.
          Ends-if (p == p)
            (λ _. climb_from_right-first fuel t q cq s (node p c l r) k (omega arith) (up_right h))
            (λ e. absurd (ground arith)))

pub find_successor-first :
    (fuel : ℕ) (t : Tree) (p : Ptr) (c : Color) (l r : Shape) (k : Context)
    → size r < fuel
    → length k < fuel
    → Spells t (node p c l r) k
    → Ends (λ v. v ≡ first (inorder r ++ after k)) (find_successor fuel t p)
unfolding find_successor
find_successor-first fuel t p c l leaf k enough deep h =
    rw (load-done t.right p h.tree.0, h.tree.2, h.tree.3)
      (climb_from_right-first fuel t p c l leaf k deep h)
find_successor-first fuel t p c l (node q cq a b) k enough deep h =
    rw (load-done t.right p h.tree.0, h.tree.2)
      (Ends-if (q == null) (λ e. absurd (h.tree.6.0 (ground arith)))
        λ _.
          Ends-mono (find_minimum-first fuel t p q cq a b (omega arith) h.tree.6)
            (λ v e. e ∙ first-append (inorder a) q (inorder b) (after k)))

-- rb_tree_find_successor at a node of a tree in memory, with fuel above the size of its
-- right subtree and above its depth: the run ends
-- with A_OK and the node that follows it from left to right,
-- the first one of its right subtree or else the first one after its subtree, or with NULL.
pub rb_tree_find_successor-first :
    (fuel : ℕ) (t : Tree) (p : Ptr) (c : Color) (l r : Shape) (k : Context) (value : Ptr)
    → size r < fuel
    → length k < fuel
    → Spells t (node p c l r) k
    → Ends (λ v. v ≡ (a_ok, first (inorder r ++ after k))) (rb_tree_find_successor fuel t p value)
unfolding rb_tree_find_successor
rb_tree_find_successor-first fuel t p c l r k value enough deep h =
    Ends-if (p == null) (λ e. absurd (h.tree.0 (ground arith)))
      λ _.
        Ends-bind (find_successor-first fuel t p c l r k enough deep h)
          (λ v e. ends (ap (λ w. (a_ok, w)) e))
