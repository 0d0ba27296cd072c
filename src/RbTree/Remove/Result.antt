-- ===== src/RbTree/Remove/Result.antt =====
-- rb_tree_remove as a whole.
use trading_base.Base.{ℕ, ◌<◌, ◌≡◌, ◌∙◌, List, ◌∷◌, ◌++◌, arith, length, Ends, Ends-if, ◌==◌}
use trading_base.RbTree.{Ptr, null, Color, Tree}
use trading_base.RbTree.Shape.{Shape, leaf, node, Context}
use trading_base.RbTree.Balance.{plug}
use trading_base.RbTree.Sorted.{Compare}
use trading_base.RbTree.Valid.{IsRbTree}
use trading_base.RbTree.Remove.{remove_given, rb_tree_remove}
use trading_base.RbTree.Remove.Lists.{occurs_inside}
use trading_base.RbTree.Remove.Zip.{located, leftmost}
use trading_base.RbTree.Remove.Place.{Removed, start-Spells}
use trading_base.RbTree.Remove.Alone.{remove_alone}
use trading_base.RbTree.Remove.Paired.{remove_paired}

module _ (compare : Compare) (t : Tree) (xs : List Ptr) (x : Ptr) (h : IsRbTree compare t xs)
    (fuel : ℕ) (enough : length xs < fuel) where
  by_children :
      (c : Color) (l r : Shape) (k : Context)
      → plug (node x c l r) k ≡ h.shape
      → Ends (Removed compare t xs x) (remove_given fuel t x)
  by_children c leaf r k at = remove_alone compare t xs x h c leaf r k at tt fuel enough
  by_children c (node p cp a b) leaf k at =
      remove_alone compare t xs x h c (node p cp a b) leaf k at tt fuel enough
  by_children c (node p cp a b) (node q cq e f) k at =
      let m = leftmost q cq e f in
      remove_paired compare t xs x h c (node p cp a b) (node q cq e f) k at m.y m.c m.r m.d m.at
        m.leftward ((start-Spells compare t xs x h c (node p cp a b) (node q cq e f) k at).tree.5.0)
        fuel enough

-- rb_tree_remove on a red-black tree with the nodes `xs` from left to right, of one of these nodes, with
-- fuel for more rounds than there are nodes: the run ends and returns A_OK; the memory holds a red-black
-- tree (linked, balanced, with a black root, sorted by the keys, with the right `rightmost`) of the same
-- nodes in the same order without the one removed, whose links are null; the keys stay.
pub rb_tree_remove-Removed :
    (compare : Compare) (t : Tree) (xs : List Ptr) (x : Ptr) (fuel : ℕ) (ys zs : List Ptr)
    → IsRbTree compare t xs
    → xs ≡ ys ++ x ∷ zs
    → length xs < fuel
    → Ends (Removed compare t xs x) (rb_tree_remove fuel t x)
unfolding rb_tree_remove
rb_tree_remove-Removed compare t xs x fuel ys zs h e enough =
    let p = located x h.shape (occurs_inside x h.shape ys zs (h.order ∙ e)) in
    let nx = (start-Spells compare t xs x h p.c p.l p.r p.k p.at).tree.0 in
    Ends-if (x == null) (λ e. absurd (nx (ground arith)))
      λ _. by_children compare t xs x h fuel enough p.c p.l p.r p.k p.at
