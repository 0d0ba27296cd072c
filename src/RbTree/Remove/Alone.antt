-- ===== src/RbTree/Remove/Alone.antt =====
-- rb_tree_remove at a node with at most one child.
use trading_base.Base.{
  ℕ, ◌<◌, ◌≡◌, refl, sym, ◌∙◌, ap, List, [], ◌++◌, arith, length, Ends, ends, Ends-bind, Ends-if,
  Bool, true, ◌==◌, ◌||◌,
}
use mathlib.Core.List.{append-nil}
use trading_base.RbTree.{Ptr, null, Color, Tree}
use trading_base.RbTree.Shape.{Shape, leaf, node, Context, top, Spells}
use trading_base.RbTree.Writes.{load-done}
use trading_base.RbTree.Balance.{inorder, plug}
use trading_base.RbTree.Sorted.{Compare, IsLast, before, after, inorder-between}
use trading_base.RbTree.Valid.{IsRbTree, Spells-same}
use trading_base.RbTree.Neighbours.Previous.{find_predecessor-last}
use trading_base.RbTree.Remove.{choose_victim, finish_remove, remove_given}
use trading_base.RbTree.Remove.Cases.{Going}
use trading_base.RbTree.Remove.Lists.{last-IsLast, last-none, IsLast-without}
use trading_base.RbTree.Remove.Unlink.{only, HasRoom, unlink-Going}
use trading_base.RbTree.Remove.Finish.{settle-Rebuilt, inorder-only}
use trading_base.RbTree.Remove.Place.{
  Removed, start-Spells, start-IsAt, lower, upper, parted, joined, depth_bound, away,
  clear_links-Removed,
}

room-null :
    (t : Tree) (up : Ptr) (l r : Shape) → HasRoom l r → ((top l == null) || (top r == null)) ≡ true
room-null t up leaf r h = refl
room-null t up (node p c a b) leaf h = ground arith
room-null t up (node p c a b) (node q d e f) h = absurd h

module _ (compare : Compare) (t : Tree) (xs : List Ptr) (x : Ptr) (h : IsRbTree compare t xs)
    (c : Color) (l r : Shape) (k : Context) (at : plug (node x c l r) k ≡ h.shape)
    (room : HasRoom l r) (fuel : ℕ) (enough : length xs < fuel) where
  abbrev rest : List Ptr
  rest = lower compare t xs x h c l r k at ++ upper compare t xs x h c l r k at

  here : Spells t (node x c l r) k
  here = start-Spells compare t xs x h c l r k at

  -- The node is chosen, and `rightmost` is right without it.
  abbrev Chosen : Tree × Ptr → Type 0
  Chosen (u, y) =
      (y ≡ x)
      × Spells u (node x c l r) k
      × ((a : Ptr) → u.key a ≡ t.key a)
      × IsLast u.rightmost rest

  Spells-rightmost : (p : Ptr) → Spells (record t { rightmost = p }) (node x c l r) k
  Spells-rightmost p =
      Spells-same (record t { rightmost = p }) refl
        (λ a o. record { left = refl; right = refl; parent = refl; color = refl }) here

  none_after : x ≡ t.rightmost → upper compare t xs x h c l r k at ≡ []
  none_after e =
      last-none x (lower compare t xs x h c l r k at) (upper compare t xs x h c l r k at)
        (rw (parted compare t xs x h c l r k at, sym e) at h.rightmost)
        (away compare t xs x h c l r k at).1

  choose_victim-Chosen : Ends Chosen (choose_victim fuel t x)
  unfolding choose_victim
  choose_victim-Chosen =
      rw
        (
          load-done t.left x here.tree.0,
          load-done t.right x here.tree.0,
          here.tree.1,
          here.tree.2,
          room-null t x l r room,
        )
        (Ends-if (x == t.rightmost)
          (λ e.
            Ends-bind
              (find_predecessor-last fuel t x c l r k
                (omega (arith, depth_bound compare t xs x h c l r k at))
                (omega (arith, depth_bound compare t xs x h c l r k at)) here)
              λ p ep. ends (
                refl,
                Spells-rightmost p,
                λ a. refl,
                rw (none_after (ground arith), append-nil (lower compare t xs x h c l r k at), ep)
                    (last-IsLast (lower compare t xs x h c l r k at)),
              ))
          (λ e. ends (
            refl,
            here,
            λ a. refl,
            IsLast-without t.rightmost x (lower compare t xs x h c l r k at)
                (upper compare t xs x h c l r k at) (λ q. ground arith)
                (rw (parted compare t xs x h c l r k at) at h.rightmost),
          )))

  order_left : inorder (plug (only l r) k) ≡ rest
  order_left =
      inorder-between (only l r) k
      ∙ ap (λ v. before k ++ (v ++ after k)) (inorder-only l r room)
      ∙ joined compare t xs x h c l r k at

  finish_alone :
      (u v : Tree) (z zp : Ptr) (il : Bool)
      → ((a : Ptr) → u.key a ≡ t.key a)
      → IsLast u.rightmost rest
      → Going u (only l r) k (v, z, zp, il)
      → v.color x ≡ c
      → Ends (Removed compare t xs x) (finish_remove fuel x x (v, z, zp, il))
  unfolding finish_remove
  finish_alone u v z zp il keys rightmost (b, ez, ezp, eil) color =
      let (n, (hb, hf, hv)) = start-IsAt compare t xs x h c l r k at in
      let self : (x == x) ≡ true = ground arith in
      rw (load-done v.color x here.tree.0, color, self, ez, ezp, eil)
        (Ends-bind
          (settle-Rebuilt fuel v x c l r k n b.spells hb hf
            (omega (arith, depth_bound compare t xs x h c l r k at)))
          λ w g.
            clear_links-Removed compare t xs x h c l r k at v w here.tree.0 (λ a. b.keys a ∙ keys a)
              (rw (b.rightmost) rightmost) (rw order_left at g))

  pub remove_alone : Ends (Removed compare t xs x) (remove_given fuel t x)
  unfolding remove_given
  remove_alone = Ends-bind choose_victim-Chosen λ (u, y) (ey, hu, keys, rightmost). rw ey (
      Ends-bind (unlink-Going u x c l r k room hu)
        λ (v, z, zp, il) (g, color). finish_alone u v z zp il keys rightmost g color)
