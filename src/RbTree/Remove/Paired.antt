-- ===== src/RbTree/Remove/Paired.antt =====
-- rb_tree_remove at a node with two children: its successor is unlinked, and takes its place.
use trading_base.Base.{
  ℕ, suc, ◌+◌, ◌≤◌, ◌<◌, ◌≡◌, ◌≢◌, refl, sym, ◌∙◌, ap, List, ◌∷◌, ◌++◌, arith, length,
  length-append, Ends, ends, Ends-bind, Ends-mono, Bool, false, ◌==◌, ◌||◌, if◌then◌else◌, done,
}
use trading_base.RbTree.{Ptr, null, Color, is_red, Tree}
use trading_base.RbTree.Shape.{
  Shape, leaf, node, right_of, Context, top, above, IsTree, Spells, occurs, occurs_in,
}
use trading_base.RbTree.Writes.{load-done}
use trading_base.RbTree.Balance.{inorder, plug, occurs-plug}
use trading_base.RbTree.Focus.{Became, down_right, up_right}
use trading_base.RbTree.Rebalance.{Rebuilt}
use trading_base.RbTree.Sorted.{Compare, IsLast, before, after, inorder-between}
use trading_base.RbTree.Valid.{IsRbTree, size, size-plug}
use trading_base.RbTree.Neighbours.Next.{first, find_successor-first}
use trading_base.RbTree.Remove.{
  choose_victim, swap_node, finish_remove, remove_given, delete_rebalance,
}
use trading_base.RbTree.Remove.Cases.{Going, went_left}
use trading_base.RbTree.Remove.Lists.{IsLast-drop}
use trading_base.RbTree.Remove.Unlink.{unlink-Going}
use trading_base.RbTree.Remove.Swap.Spelled.{swap_node-Became}
use trading_base.RbTree.Remove.Finish.{settle-Rebuilt}
use trading_base.RbTree.Remove.Zip.{
  IsAt, IsAt-right, IsAt-down, plug-append, occurs_in-append, Spells-down, Spells-up, IsLeftward,
  inorder-leftward, Fits-renamed, went_left-renamed, above-renamed,
}
use trading_base.RbTree.Remove.Place.{
  Removed, start-Spells, start-IsAt, lower, upper, parted, joined, depth_bound, clear_links-Removed,
}

module _ (compare : Compare) (t : Tree) (xs : List Ptr) (x : Ptr) (h : IsRbTree compare t xs)
    (c : Color) (l r : Shape) (k : Context) (at : plug (node x c l r) k ≡ h.shape) (y : Ptr)
    (cy : Color) (br : Shape) (d : Context) (there : plug (node y cy leaf br) d ≡ r)
    (leftward : IsLeftward d) (two : top l ≢ null) (fuel : ℕ) (enough : length xs < fuel) where
  here : Spells t (node x c l r) k
  here = start-Spells compare t xs x h c l r k at

  abbrev path : Context
  path = d ++ (right_of x c l ∷ k)

  abbrev new_path : Context
  new_path = d ++ (right_of y c l ∷ k)

  victim-Spells : Spells t (node y cy leaf br) path
  victim-Spells =
      Spells-down t (node y cy leaf br) d (right_of x c l ∷ k) (rw there (down_right here))

  victim-IsAt : (n : ℕ) × IsAt (node y cy leaf br) path n
  victim-IsAt =
      let (n, a) = start-IsAt compare t xs x h c l r k at in
      let (m, b) = IsAt-right x c l r k n a in
      IsAt-down (node y cy leaf br) d (right_of x c l ∷ k) m (rw there b)

  -- The right subtree without its first node.
  order_right : inorder r ≡ y ∷ inorder (plug br d)
  order_right = ap inorder (sym there) ∙ inorder-leftward y (node y cy leaf br) br d leftward refl

  size_right : length d + suc (size br) ≤ size r
  size_right = omega (arith, size-plug (node y cy leaf br) d, ap size there)

  deep : length path < fuel
  deep = omega (
    arith,
    size_right,
    length-append d (right_of x c l ∷ k),
    depth_bound compare t xs x h c l r k at,
  )

  new_deep : length new_path < fuel
  new_deep =
      omega
        (arith, deep, length-append d (right_of x c l ∷ k), length-append d (right_of y c l ∷ k))

  right-ne-null : top r ≢ null
  right-ne-null = not_null r order_right here.tree.6
    where
      not_null : (s : Shape) → inorder s ≡ y ∷ inorder (plug br d) → IsTree t x s → top s ≢ null
      not_null leaf e h = absurd (cc e)
      not_null (node p cp a b) e h = h.0

  choose_victim-successor : Ends (λ p. p ≡ (t, y)) (choose_victim fuel t x)
  unfolding choose_victim
  choose_victim-successor =
      let nl = two in
      let nr = right-ne-null in
      let test : ((top l == null) || (top r == null)) ≡ false = ground arith in
      rw
        (
          load-done t.left x here.tree.0,
          load-done t.right x here.tree.0,
          here.tree.1,
          here.tree.2,
          test,
        )
        (Ends-bind
          (find_successor-first fuel t x c l r k
            (omega (arith, depth_bound compare t xs x h c l r k at))
            (omega (arith, depth_bound compare t xs x h c l r k at)) here)
          λ v e. ends (ap (λ w. (t, w)) (e ∙ ap (λ zs. first (zs ++ after k)) order_right)))

  -- The order is the old one without `x`.
  order_left :
      inorder (plug br new_path)
      ≡ lower compare t xs x h c l r k at ++ upper compare t xs x h c l r k at
  order_left =
      ap inorder (plug-append br d (right_of y c l ∷ k))
      ∙ inorder-between (node y c l (plug br d)) k
      ∙ ap (λ zs. before k ++ ((inorder l ++ zs) ++ after k)) (sym order_right)
      ∙ joined compare t xs x h c l r k at

  IsLast-left :
      IsLast t.rightmost (lower compare t xs x h c l r k at ++ upper compare t xs x h c l r k at)
  IsLast-left =
      let after_y = inorder (plug br d) ++ after k in
      let e : upper compare t xs x h c l r k at ≡ y ∷ after_y =
        ap (λ zs. zs ++ after k) order_right in
      rw e (
        IsLast-drop t.rightmost (lower compare t xs x h c l r k at) x y after_y
          (rw (parted compare t xs x h c l r k at, e) at h.rightmost))

  outside : occurs y (node x c l (plug br d)) + occurs_in y k ≡ 0
  outside =
      ground (
        arith,
        victim-Spells.linear y,
        occurs-plug y br d,
        occurs_in-append y d (right_of x c l ∷ k),
      )

  apart : y ≢ x
  apart e = ground (arith, outside)

  swapped_in : (u : Tree) → Spells u br path → Ends (Became u br new_path) (swap_node u x y)
  swapped_in u hu =
      Ends-mono
        (swap_node-Became u x y c l (plug br d) k victim-Spells.tree.0 outside
          (up_right (Spells-up u br d (right_of x c l ∷ k) hu)))
        λ v b. record {
          spells = Spells-down v br d (right_of y c l ∷ k) (down_right b.spells);
          keys = b.keys;
          rightmost = b.rightmost;
        }

  settled :
      (v : Tree)
      → Spells v br new_path
      → Ends (Rebuilt v (lower compare t xs x h c l r k at ++ upper compare t xs x h c l r k at)) (
          if is_red cy
          then done v
          else delete_rebalance fuel v (top br) (above new_path) (went_left new_path))
  settled v hv =
      let (n, (hb, hf, colors)) = victim-IsAt in
      rw (sym order_left) (
        settle-Rebuilt fuel v y cy leaf br new_path n hv hb (Fits-renamed x y c l k n d hf)
          new_deep)

  finish_paired :
      (u : Tree) (z zp : Ptr) (il : Bool)
      → Going t br path (u, z, zp, il)
      → u.color y ≡ cy
      → Ends (Removed compare t xs x) (finish_remove fuel x y (u, z, zp, il))
  unfolding finish_remove
  finish_paired u z zp il (b, ez, ezp, eil) color =
      let other : (y == x) ≡ false = (let ne = apart in ground arith) in
      rw (load-done u.color y victim-Spells.tree.0, color, other, ez, ezp, eil)
        (Ends-bind {P = λ (v, xp). Became u br new_path v × (xp ≡ above new_path)}
          (Ends-bind (swapped_in u b.spells)
            λ v b2. ends (b2, above-renamed x y c l k u br d b.spells))
          λ (v, xp) (b2, exp_).
            rw (exp_, went_left-renamed x y c l k d)
              (Ends-bind (settled v b2.spells) λ w g.
                clear_links-Removed compare t xs x h c l r k at v w here.tree.0
                  (λ a. b2.keys a ∙ b.keys a) (rw (b2.rightmost, b.rightmost) IsLast-left) g))

  pub remove_paired : Ends (Removed compare t xs x) (remove_given fuel t x)
  unfolding remove_given
  remove_paired = Ends-bind choose_victim-successor λ r e. rw e (
      Ends-bind (unlink-Going t y cy leaf br path tt victim-Spells)
        λ (u, z, zp, il) (g, color). finish_paired u z zp il g color)
