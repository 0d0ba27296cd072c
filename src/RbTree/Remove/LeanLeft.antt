-- ===== src/RbTree/Remove/LeanLeft.antt =====
-- __helper_rb_tree_delete_rebalance: a round with a black sibling, at a left child.
use trading_base.Base.{
  ℕ, suc, List, ap, ◌≡◌, refl, ◌∙◌, ◌∷◌, arith, true, false, not, ◌&&◌, Ends, Ends-bind, Ends-mono,
  Ends-if,
}
use mathlib.Core.List.{append_assoc}
use trading_base.RbTree.{Ptr, Color, black, red, Tree}
use trading_base.RbTree.Shape.{Shape, leaf, node, Context, top, Spells}
use trading_base.RbTree.Balance.{IsBlack, IsBalanced, inorder, around}
use trading_base.RbTree.Steps.{is_red_top}
use trading_base.RbTree.Rounds.{inner_right}
use trading_base.RbTree.Focus.{down_right, Became-then}
use trading_base.RbTree.Remove.{black_at, lean_on}
use trading_base.RbTree.Remove.Cases.{move_up_left, borrow_left, finish_turn_left, borrow_none_left}
use trading_base.RbTree.Remove.Lean.{
  Takes, Round, mended, lean_on-at, black_at-top, whole, Spare, moved,
}

-- The focus `s` is the left child of `p`.
module _ (t : Tree) (xs : List Ptr) (p w : Ptr) (c : Color) (s : Shape) (k : Context) (n d : ℕ)
    (bs : IsBlack s) (hs : IsBalanced n s) (takes : Takes (suc n) c k) (deep : Spare c k d) where
  dark_left :
      (wl wr : Shape)
      → Spells t (node p c s (node w black wl wr)) k
      → IsBlack wl
      → IsBlack wr
      → IsBalanced n wl
      → IsBalanced n wr
      → around k (inorder (node p c s (node w black wl wr))) ≡ xs
      → is_red_top wl ≡ false
      → is_red_top wr ≡ false
      → Ends (Round t xs d) (lean_on t w p true)
  dark_left wl wr h dl dr hl hr order el er =
      let (nw, at_l, at_r, _, _, tl, tr) = (down_right h).tree in
      rw
        (
          lean_on-at t w p (top wl) (top wr) true nw at_l at_r,
          black_at-top t w wl tl,
          black_at-top t w wr tr,
          el,
          er,
        )
        (Ends-mono (move_up_left t p w c black s wl wr k h)
          (λ m. moved t xs p c s (node w red wl wr) k n d hs (dl, dr, hl, hr) deep m takes order))

  far_left :
      (wl : Shape) (r : Ptr) (a b : Shape)
      → Spells t (node p c s (node w black wl (node r red a b))) k
      → IsBalanced n wl
      → IsBalanced n (node r red a b)
      → around k (inorder (node p c s (node w black wl (node r red a b)))) ≡ xs
      → Ends (Round t xs d) (lean_on t w p true)
  far_left wl r a b h hl hr order =
      let (nw, at_l, at_r, _, _, tl, tr) = (down_right h).tree in
      let bright = black_at-top t w (node r red a b) tr in
      rw (lean_on-at t w p (top wl) r true nw at_l at_r) (
        Ends-if (black_at t (top wl) && black_at t r) (λ e. absurd (ground (arith, bright)))
          λ _. rw (borrow_none_left t w p (top wl) r bright) (
            Ends-mono (finish_turn_left t p w r c black red s wl a b k h) λ (u, x, xp, il) (b1, e).
              mended (
                whole t xs w c (node p black s wl) (node r black a b) k (suc n) u x tt tt
                  (n, refl, hs, hl) (n, refl, hr.2, hr.3) takes
                  (ap (around k)
                      (append_assoc (inorder s) (p ∷ inorder wl) (w ∷ inorder (node r red a b)))
                    ∙ order)
                  b1 e)))

  near_left :
      (v : Ptr) (a b o : Shape)
      → Spells t (node p c s (node w black (node v red a b) o)) k
      → IsBlack o
      → IsBalanced n (node v red a b)
      → IsBalanced n o
      → around k (inorder (node p c s (node w black (node v red a b) o))) ≡ xs
      → is_red_top o ≡ false
      → Ends (Round t xs d) (lean_on t w p true)
  near_left v a b o h bo hv ho order eo =
      let (nw, at_l, at_r, _, _, tl, tr) = (down_right h).tree in
      let bright = black_at-top t w (node v red a b) tl in
      let dark = black_at-top t w o tr ∙ ap not eo in
      rw (lean_on-at t w p v (top o) true nw at_l at_r) (
        Ends-if (black_at t v && black_at t (top o)) (λ e. absurd (ground (arith, bright)))
          λ _.
            Ends-bind (borrow_left t p w v c black red s a b o k h (top o) dark) λ (u, w') (b1, e1).
              rw e1 (
                Ends-mono (finish_turn_left u p v w c black red s a b o k b1.spells)
                  λ (u', x, xp, il) (b2, e). mended (
                    whole t xs v c (node p black s a) (node w black b o) k (suc n) u' x tt tt
                      (n, refl, hs, hv.2) (n, refl, hv.3, ho) takes
                      (ap (around k)
                          (inner_right (inorder o) (inorder a) (inorder b) (inorder s) w v p)
                        ∙ order)
                      (Became-then b1 b2) e)))

  pub lean_left :
      (wl wr : Shape)
      → Spells t (node p c s (node w black wl wr)) k
      → IsBalanced n wl
      → IsBalanced n wr
      → around k (inorder (node p c s (node w black wl wr))) ≡ xs
      → Ends (Round t xs d) (lean_on t w p true)
  lean_left wl (node r red a b) h hl hr order = far_left wl r a b h hl hr order
  lean_left (node v red a b) leaf h hl hr order = near_left v a b leaf h tt hl hr order refl
  lean_left (node v red a b) (node q black f g) h hl hr order =
      near_left v a b (node q black f g) h tt hl hr order refl
  lean_left leaf leaf h hl hr order = dark_left leaf leaf h tt tt hl hr order refl refl
  lean_left leaf (node q black f g) h hl hr order =
      dark_left leaf (node q black f g) h tt tt hl hr order refl refl
  lean_left (node v black a b) leaf h hl hr order =
      dark_left (node v black a b) leaf h tt tt hl hr order refl refl
  lean_left (node v black a b) (node q black f g) h hl hr order =
      dark_left (node v black a b) (node q black f g) h tt tt hl hr order refl refl
