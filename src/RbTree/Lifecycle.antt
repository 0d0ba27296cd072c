-- ===== src/RbTree/Lifecycle.antt =====
-- tsl/rbtree.c: rb_tree_new_ex, rb_tree_destroy and rb_tree_empty. The comparison callback and its
-- state, which the first two also write, are parameters elsewhere and not part of `Tree`.
use trading_base.Base.{
  ℕ, ◌==◌, if◌then◌else◌, ◌≡◌, ◌≢◌, ◌↔◌, refl, sym, ◌∙◌, ap, List, [], length, arith,
}
use trading_base.ResultCode.{AResult, a_ok}
use trading_base.RbTree.{Ptr, null, Tree}
use trading_base.RbTree.Shape.{Shape, leaf, node, top}
use trading_base.RbTree.Occurs.{top-null}
use trading_base.RbTree.Balance.{inorder}
use trading_base.RbTree.Sorted.{Compare}
use trading_base.RbTree.Valid.{IsRbTree, length-inorder}

pub rb_tree_new_ex : Tree → AResult × Tree
rb_tree_new_ex t = (a_ok, record t { root = null })

-- The memset of struct rb_tree.
pub rb_tree_destroy : Tree → AResult × Tree
rb_tree_destroy t = (a_ok, record t { root = null; rightmost = null })

-- `!!(p == NULL)`
abbrev is_null : Ptr → ℕ
is_null p = if p == null then 1 else 0

pub rb_tree_empty : Tree → AResult × ℕ
rb_tree_empty t = (a_ok, is_null t.root)

leaf-inorder : (s : Shape) → inorder s ≡ [] → top s ≡ null
leaf-inorder leaf e = refl
leaf-inorder (node p c l r) e = absurd (omega (arith, ap length e, length-inorder (node p c l r)))

one_iff : (q : Ptr) → (is_null q ≡ 1) ↔ (q ≡ null)
one_iff q = ground arith

zero_iff : (q : Ptr) → (is_null q ≡ 0) ↔ (q ≢ null)
zero_iff q = ground arith

-- rb_tree_empty on a red-black tree with the nodes `xs` returns A_OK, and answers 1 exactly when
-- there is no node and 0 exactly when there is one.
pub rb_tree_empty_iff :
    (compare : Compare) (t : Tree) (xs : List Ptr)
    → IsRbTree compare t xs
    → ((rb_tree_empty t).0 ≡ a_ok)
      × ((xs ≡ []) ↔ ((rb_tree_empty t).1 ≡ 1))
      × ((xs ≢ []) ↔ ((rb_tree_empty t).1 ≡ 0))
unfolding rb_tree_empty
rb_tree_empty_iff compare t xs h =
    let answer_one : (is_null t.root ≡ 1) ↔ (t.root ≡ null) = one_iff t.root in
    let answer_zero : (is_null t.root ≡ 0) ↔ (t.root ≢ null) = zero_iff t.root in
    let none_ : xs ≡ [] → t.root ≡ null =
      λ e. h.spells.context ∙ leaf-inorder h.shape (h.order ∙ e) in
    let empty : t.root ≡ null → xs ≡ [] = λ e.
      sym h.order ∙ ap inorder (top-null t null h.shape h.spells.tree (sym h.spells.context ∙ e)) in
    (
      refl,
      (λ e. answer_one.1 (none_ e), λ a. empty (answer_one.0 a)),
      (λ ne. answer_zero.1 (λ e. ne (empty e)), λ a e. answer_zero.0 a (none_ e)),
    )

bare : (compare : Compare) (u : Tree) → u.root ≡ null → IsRbTree compare u []
bare compare u e = record {
  shape = leaf;
  height = 0;
  spells = record { tree = tt; context = e; linear = λ a. omega arith };
  black_root = tt;
  balanced = refl;
  order = refl;
  sorted = tt;
  rightmost = tt;
}

-- rb_tree_new_ex on any memory, and rb_tree_destroy on any tree, return A_OK and leave the red-black
-- tree with no node, for which rb_tree_empty answers 1.
pub cleared-IsRbTree :
    (compare : Compare) (t : Tree)
    → ((rb_tree_new_ex t).0 ≡ a_ok)
      × IsRbTree compare (rb_tree_new_ex t).1 []
      × (rb_tree_empty (rb_tree_new_ex t).1 ≡ (a_ok, 1))
      × ((rb_tree_destroy t).0 ≡ a_ok)
      × IsRbTree compare (rb_tree_destroy t).1 []
      × (rb_tree_empty (rb_tree_destroy t).1 ≡ (a_ok, 1))
unfolding rb_tree_new_ex rb_tree_destroy rb_tree_empty
cleared-IsRbTree compare t = (
  refl,
  bare compare (rb_tree_new_ex t).1 refl,
  refl,
  refl,
  bare compare (rb_tree_destroy t).1 refl,
  refl,
)
