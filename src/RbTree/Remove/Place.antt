-- ===== src/RbTree/Remove/Place.antt =====
-- rb_tree_remove: the node at its place in a red-black tree, and what is left without it.
use trading_base.Base.{
  ℕ, ◌+◌, ◌≤◌, ◌≡◌, ◌≢◌, refl, sym, ◌∙◌, ap, inl, List, [], ◌∷◌, ◌++◌, arith, length, Ends, ends,
  done,
}
use mathlib.Core.List.{append-nil, append_assoc}
use trading_base.ResultCode.{AResult, a_ok}
use trading_base.RbTree.{Ptr, null, Color, Tree}
use trading_base.RbTree.Shape.{Shape, node, Context, SameAt, Spells, occurs}
use trading_base.RbTree.Writes.{
  put_parent, put_left, put_right, set_parent-done, set_left-done, set_right-done,
}
use trading_base.RbTree.Balance.{inorder, plug}
use trading_base.RbTree.Rebalance.{Rebuilt}
use trading_base.RbTree.Sorted.{
  Compare, All, All-append, All-of, IsSorted-same, IsLast, before, after, inorder-between,
}
use trading_base.RbTree.Valid.{IsRbTree, size, length-inorder, size-plug, occurs-apart, Spells-same}
use trading_base.RbTree.Remove.{clear_links}
use trading_base.RbTree.Remove.Lists.{apart_parts, IsSorted-drop}
use trading_base.RbTree.Remove.Zip.{IsAt, IsAt-down, Spells-down}

-- `x` is out of the tree and the others are in it, in the same order.
pub data Removed (compare : Compare) (t : Tree) (xs : List Ptr) (x : Ptr)
    : AResult × Tree → Type 0 where
  removed :
      {u : Tree} (ys zs : List Ptr)
      → xs ≡ ys ++ x ∷ zs
      → IsRbTree compare u (ys ++ zs)
      → (u.left x ≡ null) × (u.right x ≡ null) × (u.parent x ≡ null)
      → ((a : Ptr) → u.key a ≡ t.key a)
      → Removed compare t xs x (a_ok, u)

cleared : Tree → Ptr → Tree
cleared v x = put_right (put_left (put_parent v x null) x null) x null

cleared-SameAt : (v : Tree) (x a : Ptr) → a ≢ x → SameAt v (cleared v x) a
unfolding cleared put_parent put_left put_right
cleared-SameAt v x a ne = record {
  left = ground arith;
  right = ground arith;
  parent = ground arith;
  color = refl;
}

cleared-kept :
    (v : Tree) (x : Ptr)
    → ((cleared v x).root ≡ v.root)
      × ((cleared v x).rightmost ≡ v.rightmost)
      × ((a : Ptr) → (cleared v x).key a ≡ v.key a)
      × ((cleared v x).left x ≡ null)
      × ((cleared v x).right x ≡ null)
      × ((cleared v x).parent x ≡ null)
unfolding cleared put_parent put_left put_right
cleared-kept v x = (refl, refl, λ a. refl, ground arith, ground arith, ground arith)

clear_links-done : (v : Tree) (x : Ptr) → x ≢ null → clear_links v x ≡ done (a_ok, cleared v x)
unfolding clear_links cleared
clear_links-done v x nx =
    rw
      (
        set_parent-done v x null nx,
        set_left-done (put_parent v x null) x null nx,
        set_right-done (put_left (put_parent v x null) x null) x null nx,
      )
      refl

module _ (compare : Compare) (t : Tree) (xs : List Ptr) (x : Ptr) (h : IsRbTree compare t xs)
    (c : Color) (l r : Shape) (k : Context) (at : plug (node x c l r) k ≡ h.shape) where
  pub start-Spells : Spells t (node x c l r) k
  start-Spells = rw (append-nil k) at (Spells-down t (node x c l r) k [] (rw at h.spells))

  pub start-IsAt : (n : ℕ) × IsAt (node x c l r) k n
  start-IsAt =
      rw (append-nil k) at
        (IsAt-down (node x c l r) k [] h.height (rw at (h.balanced, tt, inl h.black_root)))

  -- The nodes before and after it.
  abbrev pub lower : List Ptr
  lower = before k ++ inorder l

  abbrev pub upper : List Ptr
  upper = inorder r ++ after k

  pub parted : xs ≡ lower ++ x ∷ upper
  parted =
      sym h.order
      ∙ ap inorder (sym at)
      ∙ inorder-between (node x c l r) k
      ∙ rw
          (
            append_assoc (inorder l) (x ∷ inorder r) (after k),
            append_assoc (before k) (inorder l) (x ∷ upper),
          )
          refl

  pub joined : before k ++ ((inorder l ++ inorder r) ++ after k) ≡ lower ++ upper
  joined =
      rw (append_assoc (inorder l) (inorder r) (after k), append_assoc (before k) (inorder l) upper)
        refl

  pub depth_bound : length k + size (node x c l r) ≤ length xs
  depth_bound =
      omega
        (arith, size-plug (node x c l r) k, ap size at, length-inorder h.shape, ap length h.order)

  pub away : All (λ a. a ≢ x) lower × All (λ a. a ≢ x) upper
  away = apart_parts x h.shape lower upper (h.order ∙ parted) (omega (arith, h.spells.linear x))

  pub clear_links-Removed :
      (t' v : Tree)
      → x ≢ null
      → ((a : Ptr) → t'.key a ≡ t.key a)
      → IsLast t'.rightmost (lower ++ upper)
      → Rebuilt t' (lower ++ upper) v
      → Ends (Removed compare t xs x) (clear_links v x)
  clear_links-Removed t' v nx keys rightmost g =
      let kept = cleared-kept v x in
      let key_same : (a : Ptr) → (cleared v x).key a ≡ t.key a =
        λ a. kept.2 a ∙ g.became.keys a ∙ keys a in
      let out : occurs x g.shape ≡ 0 =
        occurs-apart x g.shape (rw g.order (All-append (λ a. a ≢ x) lower upper away.0 away.1)) in
      rw (clear_links-done v x nx) (
        ends (
          removed lower upper parted
            (record {
              shape = g.shape;
              height = g.height;
              spells =
                  Spells-same (cleared v x) kept.0
                    (λ a o. cleared-SameAt v x a (λ e. ground (arith, out))) g.became.spells;
              black_root = g.black_root;
              balanced = g.balanced;
              order = g.order;
              sorted =
                  IsSorted-same compare t.key (cleared v x).key (lower ++ upper)
                    (All-of (λ a. (cleared v x).key a ≡ t.key a) (lower ++ upper) key_same)
                    (IsSorted-drop compare t.key lower x upper (rw parted at h.sorted));
              rightmost = rw (kept.1, g.became.rightmost) rightmost;
            })
            (kept.3, kept.4, kept.5) key_same))
