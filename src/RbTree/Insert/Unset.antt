-- ===== src/RbTree/Insert/Unset.antt =====
-- rb_tree_insert does not initialize the links of the node.
use trading_base.Base.{
  ℕ, ◌==◌, Ends, ends, Ends-if, ◌≡◌, ◌≢◌, refl, sym, ◌∙◌, ap, [], ◌∷◌, arith, length,
}
use trading_base.ResultCode.{AResult, a_ok}
use trading_base.RbTree.{Ptr, null, black, Tree}
use trading_base.RbTree.Shape.{Shape, leaf, node, top, IsTree}
use trading_base.RbTree.Writes.{put_key, set_key-done}
use trading_base.RbTree.Balance.{inorder}
use trading_base.RbTree.Focus.{put_color, set_color-done}
use trading_base.RbTree.Sorted.{Compare}
use trading_base.RbTree.Valid.{IsRbTree, size, length-inorder}
use trading_base.RbTree.Insert.{rb_tree_insert, insert_given, insert_first}

size-zero : (s : Shape) → size s ≡ 0 → top s ≡ null
size-zero leaf h = refl
size-zero (node p c l r) h = absurd (omega arith)

-- A tree of a single node has no left child in memory.
single-left :
    (t : Tree) (up x : Ptr) (s : Shape) → IsTree t up s → inorder s ≡ x ∷ [] → t.left (top s) ≡ null
single-left t up x leaf h e = absurd (omega (arith, ap length e))
single-left t up x (node p c l r) h e =
    h.1 ∙ size-zero l (omega (arith, ap length e, length-inorder (node p c l r)))

-- The run returns A_OK with `x` as the root, which keeps its old links: no red-black tree of one node.
pub record Misplaced (compare : Compare) (t : Tree) (x : Ptr) (r : AResult × Tree) : Type 0 where
  pub code : r.0 ≡ a_ok
  pub root : r.1.root ≡ x
  pub left : r.1.left x ≡ t.left x
  pub invalid : ¬ IsRbTree compare r.1 (x ∷ [])

misplaced :
    (compare : Compare) (t u : Tree) (x : Ptr)
    → u.root ≡ x
    → u.left x ≡ t.left x
    → t.left x ≢ null
    → Misplaced compare t x (a_ok, u)
misplaced compare t u x root left set = record {
  code = refl;
  root = root;
  left = left;
  invalid = λ h.
      let here : x ≡ top h.shape = sym root ∙ h.spells.context in
      set (sym left ∙ (ap u.left here ∙ single-left u null x h.shape h.spells.tree h.order));
}

insert_given_unset :
    (compare : Compare) (fuel : ℕ) (t : Tree) (key x : Ptr)
    → t.root ≡ null
    → x ≢ null
    → t.left x ≢ null
    → Ends (Misplaced compare t x) (insert_given compare fuel t key x)
unfolding insert_given insert_first put_key put_color
insert_given_unset compare fuel t key x empty nx set = rw (set_key-done t x key nx) (
    Ends-if (t.root == null)
      (λ _. rw (set_color-done (record (put_key t x key) { root = x; rightmost = x }) x black nx) (
        ends (
          misplaced compare t
            (put_color (record (put_key t x key) { root = x; rightmost = x }) x black) x refl refl
            set)))
      (λ e. absurd (ground arith)))

-- rb_tree_insert of a node whose `left` is not NULL into an empty tree, whatever the fuel, returns
-- A_OK, makes the node the root and leaves its `left` as it was, so that the memory does not hold
-- the red-black tree of this one node.
pub rb_tree_insert_unset :
    (compare : Compare) (fuel : ℕ) (t : Tree) (key x : Ptr)
    → t.root ≡ null
    → x ≢ null
    → t.left x ≢ null
    → Ends (Misplaced compare t x) (rb_tree_insert compare fuel t key x)
unfolding rb_tree_insert
rb_tree_insert_unset compare fuel t key x empty nx set =
    Ends-if (x == null) (λ e. absurd (nx (ground arith)))
      (λ _. insert_given_unset compare fuel t key x empty nx set)
