-- ===== src/RbTree/Remove/LeanRight.antt =====
-- __helper_rb_tree_delete_rebalance: a round with a black sibling, at a right child.
use trading_base.Base.{
  ℕ, suc, List, ap, ◌≡◌, refl, sym, ◌∙◌, ◌∷◌, arith, false, not, ◌&&◌, Ends, Ends-bind, Ends-mono,
  Ends-if,
}
use mathlib.Core.List.{append_assoc}
use trading_base.RbTree.{Ptr, Color, black, red, Tree}
use trading_base.RbTree.Shape.{Shape, leaf, node, Context, top, Spells}
use trading_base.RbTree.Balance.{IsBlack, IsBalanced, inorder, around}
use trading_base.RbTree.Steps.{is_red_top}
use trading_base.RbTree.Rounds.{inner_left}
use trading_base.RbTree.Focus.{down_left, Became-then}
use trading_base.RbTree.Remove.{black_at, lean_on}
use trading_base.RbTree.Remove.Cases.{
  move_up_right, borrow_right, finish_turn_right, borrow_none_right,
}
use trading_base.RbTree.Remove.Lean.{
  Takes, Round, mended, lean_on-at, black_at-top, whole, Spare, moved,
}

-- The focus `s` is the right child of `p`.
module _ (t : Tree) (xs : List Ptr) (p w : Ptr) (c : Color) (s : Shape) (k : Context) (n d : ℕ)
    (bs : IsBlack s) (hs : IsBalanced n s) (takes : Takes (suc n) c k) (deep : Spare c k d) where
  dark_right :
      (wl wr : Shape)
      → Spells t (node p c (node w black wl wr) s) k
      → IsBlack wl
      → IsBlack wr
      → IsBalanced n wl
      → IsBalanced n wr
      → around k (inorder (node p c (node w black wl wr) s)) ≡ xs
      → is_red_top wl ≡ false
      → is_red_top wr ≡ false
      → Ends (Round t xs d) (lean_on t w p false)
  dark_right wl wr h dl dr hl hr order el er =
      let (nw, at_l, at_r, _, _, tl, tr) = (down_left h).tree in
      rw
        (
          lean_on-at t w p (top wl) (top wr) false nw at_l at_r,
          black_at-top t w wl tl,
          black_at-top t w wr tr,
          el,
          er,
        )
        (Ends-mono (move_up_right t p w c black s wl wr k h)
          (λ m. moved t xs p c (node w red wl wr) s k n d (dl, dr, hl, hr) hs deep m takes order))

  far_right :
      (wr : Shape) (r : Ptr) (a b : Shape)
      → Spells t (node p c (node w black (node r red a b) wr) s) k
      → IsBalanced n wr
      → IsBalanced n (node r red a b)
      → around k (inorder (node p c (node w black (node r red a b) wr) s)) ≡ xs
      → Ends (Round t xs d) (lean_on t w p false)
  far_right wr r a b h hl hr order =
      let (nw, at_l, at_r, _, _, tl, tr) = (down_left h).tree in
      let bright = black_at-top t w (node r red a b) tl in
      rw (lean_on-at t w p r (top wr) false nw at_l at_r) (
        Ends-if (black_at t r && black_at t (top wr)) (λ e. absurd (ground (arith, bright)))
          λ _. rw (borrow_none_right t w p r (top wr) bright) (
            Ends-mono (finish_turn_right t p w r c black red s wr a b k h) λ (u, x, xp, il) (b1, e).
              mended (
                whole t xs w c (node r black a b) (node p black wr s) k (suc n) u x tt tt
                  (n, refl, hr.2, hr.3) (n, refl, hl, hs) takes
                  (ap (around k) (
                      sym
                        (append_assoc (inorder (node r red a b)) (w ∷ inorder wr) (p ∷ inorder s)))
                    ∙ order)
                  b1 e)))

  near_right :
      (v : Ptr) (a b o : Shape)
      → Spells t (node p c (node w black o (node v red a b)) s) k
      → IsBlack o
      → IsBalanced n (node v red a b)
      → IsBalanced n o
      → around k (inorder (node p c (node w black o (node v red a b)) s)) ≡ xs
      → is_red_top o ≡ false
      → Ends (Round t xs d) (lean_on t w p false)
  near_right v a b o h bo hv ho order eo =
      let (nw, at_l, at_r, _, _, tl, tr) = (down_left h).tree in
      let bright = black_at-top t w (node v red a b) tr in
      let dark = black_at-top t w o tl ∙ ap not eo in
      rw (lean_on-at t w p (top o) v false nw at_l at_r) (
        Ends-if (black_at t (top o) && black_at t v) (λ e. absurd (ground (arith, bright)))
          λ _.
            Ends-bind (borrow_right t p w v c black red s a b o k h (top o) dark)
              λ (u, w') (b1, e1). rw e1 (
                Ends-mono (finish_turn_right u p v w c black red s b o a k b1.spells)
                  λ (u', x, xp, il) (b2, e). mended (
                    whole t xs v c (node w black o a) (node p black b s) k (suc n) u' x tt tt
                      (n, refl, ho, hv.2) (n, refl, hv.3, hs) takes
                      (ap (around k)
                          (inner_left (inorder o) (inorder a) (inorder b) (inorder s) w v p)
                        ∙ order)
                      (Became-then b1 b2) e)))

  pub lean_right :
      (wl wr : Shape)
      → Spells t (node p c (node w black wl wr) s) k
      → IsBalanced n wl
      → IsBalanced n wr
      → around k (inorder (node p c (node w black wl wr) s)) ≡ xs
      → Ends (Round t xs d) (lean_on t w p false)
  lean_right (node r red a b) wr h hl hr order = far_right wr r a b h hr hl order
  lean_right leaf (node v red a b) h hl hr order = near_right v a b leaf h tt hr hl order refl
  lean_right (node q black f g) (node v red a b) h hl hr order =
      near_right v a b (node q black f g) h tt hr hl order refl
  lean_right leaf leaf h hl hr order = dark_right leaf leaf h tt tt hl hr order refl refl
  lean_right leaf (node q black f g) h hl hr order =
      dark_right leaf (node q black f g) h tt tt hl hr order refl refl
  lean_right (node v black a b) leaf h hl hr order =
      dark_right (node v black a b) leaf h tt tt hl hr order refl refl
  lean_right (node v black a b) (node q black f g) h hl hr order =
      dark_right (node v black a b) (node q black f g) h tt tt hl hr order refl refl
