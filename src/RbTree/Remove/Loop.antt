-- ===== src/RbTree/Remove/Loop.antt =====
-- __helper_rb_tree_delete_rebalance: the loop ends, at a red-black tree of the same nodes in the same
-- order.
use trading_base.Base.{
  ℕ, suc, ◌<◌, List, length, ap, ◌≡◌, sym, ◌∙◌, ◌∷◌, arith, true, false, Bool, Ends, Ends-bind,
  Ends-mono,
}
use mathlib.Core.List.{append_assoc}
use trading_base.RbTree.{Ptr, Color, black, red, Tree}
use trading_base.RbTree.Shape.{Shape, leaf, node, left_of, right_of, Context, Spells}
use trading_base.RbTree.Writes.{load-done}
use trading_base.RbTree.Balance.{IsBlack, IsBalanced, Fits, inorder, around}
use trading_base.RbTree.Steps.{red_at-top}
use trading_base.RbTree.Focus.{down_left, down_right, Became, Became-then}
use trading_base.RbTree.Remove.{sibling, delete_step}
use trading_base.RbTree.Remove.Cases.{turn_sibling_left, turn_sibling_right}
use trading_base.RbTree.Remove.Lean.{Round, lacking, mended}
use trading_base.RbTree.Remove.LeanLeft.{lean_left}
use trading_base.RbTree.Remove.LeanRight.{lean_right}

kids :
    (n : ℕ) (w : Ptr) (l r : Shape)
    → IsBalanced (suc n) (node w black l r)
    → IsBalanced n l × IsBalanced n r
kids n w l r (m, e, hl, hr) = let same : n ≡ m = omega arith in (rw same hl, rw same hr)

-- What a round after case 1 knows about the memory before it.
pub Round-then :
    {t u : Tree} {s : Shape} {k : Context} {xs : List Ptr} {d : ℕ} {r : Tree × Ptr × Ptr × Bool}
    → Became t s k u
    → Round u xs d r
    → Round t xs d r
Round-then b (lacking f) = lacking (record {
  s = f.s;
  k = f.k;
  n = f.n;
  at = (Became-then b f.at.0, f.at.1, f.at.2, f.at.3);
  loose = f.loose;
  fits = f.fits;
  order = f.order;
  depth = f.depth;
})
Round-then b (mended f) = mended (record {
  shape = f.shape;
  height = f.height;
  became = Became-then b f.became;
  black_root = f.black_root;
  balanced = f.balanced;
  order = f.order;
  at_root = f.at_root;
})

module _ (t : Tree) (xs : List Ptr) (p : Ptr) (s : Shape) (k : Context) (n d : ℕ) (bs : IsBlack s)
    (hs : IsBalanced n s) (deep : length k < d) where
  pub step_left :
      (c : Color) (o : Shape)
      → Spells t (node p c s o) k
      → Fits (suc n) (left_of p c o ∷ k)
      → around k (inorder (node p c s o)) ≡ xs
      → Ends (Round t xs d) (delete_step t p true)
  unfolding delete_step sibling
  step_left black leaf h f order = absurd (omega (arith, f.0))
  step_left red leaf h f order = absurd (omega (arith, f.2))
  step_left black (node w black wl wr) h f order =
      let (hl, hr) = kids n w wl wr f.0 in
      rw (load-done t.right p h.tree.0, h.tree.2, red_at-top t p (node w black wl wr) h.tree.6)
        (lean_left t xs p w black s k n d bs hs f.1 deep wl wr h hl hr order)
  step_left red (node w black wl wr) h f order =
      let (hl, hr) = kids n w wl wr f.2 in
      rw (load-done t.right p h.tree.0, h.tree.2, red_at-top t p (node w black wl wr) h.tree.6)
        (lean_left t xs p w red s k n d bs hs (f.1, f.3) (omega (arith, deep)) wl wr h hl hr order)
  step_left red (node w red wl wr) h f order = absurd f.0
  step_left black (node w red leaf wr) h f order = absurd (omega (arith, f.0.2))
  step_left black (node w red (node v red a b) wr) h f order = absurd f.0.0
  step_left black (node w red (node v black a b) wr) h f order =
      let (ha, hb) = kids n v a b f.0.2 in
      rw
        (
          load-done t.right p h.tree.0,
          h.tree.2,
          red_at-top t p (node w red (node v black a b) wr) h.tree.6,
        )
        (Ends-bind (turn_sibling_left t p w s (node v black a b) wr k h) λ (u, w') (b1, e). rw e (
          Ends-mono
            (lean_left u xs p v red s (left_of w black wr ∷ k) n d bs hs (tt, (f.0.3, f.1))
              (omega (arith, deep)) a b (down_left b1.spells) ha hb
              (ap (around k)
                  (append_assoc (inorder s) (p ∷ inorder (node v black a b)) (w ∷ inorder wr))
                ∙ order))
            (λ r m. Round-then b1 m)))

  pub step_right :
      (c : Color) (o : Shape)
      → Spells t (node p c o s) k
      → Fits (suc n) (right_of p c o ∷ k)
      → around k (inorder (node p c o s)) ≡ xs
      → Ends (Round t xs d) (delete_step t p false)
  unfolding delete_step sibling
  step_right black leaf h f order = absurd (omega (arith, f.0))
  step_right red leaf h f order = absurd (omega (arith, f.2))
  step_right black (node w black wl wr) h f order =
      let (hl, hr) = kids n w wl wr f.0 in
      rw (load-done t.left p h.tree.0, h.tree.1, red_at-top t p (node w black wl wr) h.tree.5)
        (lean_right t xs p w black s k n d bs hs f.1 deep wl wr h hl hr order)
  step_right red (node w black wl wr) h f order =
      let (hl, hr) = kids n w wl wr f.2 in
      rw (load-done t.left p h.tree.0, h.tree.1, red_at-top t p (node w black wl wr) h.tree.5)
        (lean_right t xs p w red s k n d bs hs (f.1, f.3) (omega (arith, deep)) wl wr h hl hr order)
  step_right red (node w red wl wr) h f order = absurd f.0
  step_right black (node w red wl leaf) h f order = absurd (omega (arith, f.0.3))
  step_right black (node w red wl (node v red a b)) h f order = absurd f.0.1
  step_right black (node w red wl (node v black a b)) h f order =
      let (ha, hb) = kids n v a b f.0.3 in
      rw
        (
          load-done t.left p h.tree.0,
          h.tree.1,
          red_at-top t p (node w red wl (node v black a b)) h.tree.5,
        )
        (Ends-bind (turn_sibling_right t p w s wl (node v black a b) k h) λ (u, w') (b1, e). rw e (
          Ends-mono
            (lean_right u xs p v red s (right_of w black wl ∷ k) n d bs hs (tt, (f.0.2, f.1))
              (omega (arith, deep)) a b (down_right b1.spells) ha hb
              (ap (around k)
                  (sym (append_assoc (inorder wl) (w ∷ inorder (node v black a b)) (p ∷ inorder s)))
                ∙ order))
            (λ r m. Round-then b1 m)))
