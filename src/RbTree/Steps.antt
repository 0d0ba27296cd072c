-- ===== src/RbTree/Steps.antt =====
-- __helper_rb_tree_insert_rebalance: what each case of one round does to the shape around the focus.
use trading_base.Base.{
  ◌≡◌, ◌≢◌, refl, ◌∷◌, ◌==◌, if◌then◌else◌, arith, true, false, Bool, Ends, ends, Ends-bind,
  Ends-mono, Ends-if,
}
use trading_base.RbTree.{
  Ptr, null, Color, black, red, Tree, fix_red, fix_outer, fix_black, fix_step, red_at, is_red,
  assert_red,
}
use trading_base.RbTree.Shape.{Shape, leaf, node, left_of, right_of, Context, top, IsTree, Spells}
use trading_base.RbTree.Occurs.{top_ne}
use trading_base.RbTree.Writes.{load-done}
use trading_base.RbTree.Focus.{
  up_left, up_right, down_left, down_right, Became, Became-then, set_color-Became,
  rotate_left-Became, rotate_right-Became,
}

-- The run ends at a memory with this shape, and the loop goes on at `x`.
abbrev pub Moved : Tree → Shape → Context → Ptr → Tree × Ptr → Type 0
Moved t s k x (u, next) = Became t s k u × (next ≡ x)

module _ (t : Tree) (g p u : Ptr) (pl pr ul ur : Shape) (k : Context) where
  pub fix_red_left :
      Spells t (node g black (node p red pl pr) (node u red ul ur)) k
      → Ends (Moved t (node g red (node p black pl pr) (node u black ul ur)) k g) (fix_red t p u g)
  unfolding fix_red
  fix_red_left h =
      Ends-bind (set_color-Became t p red black pl pr (left_of g black _ ∷ k) (down_left h))
        λ t1 b1.
          Ends-bind
            (set_color-Became t1 u red black ul ur (right_of g black _ ∷ k)
              (down_right (up_left b1.spells)))
            λ t2 b2.
              Ends-bind (set_color-Became t2 g black red _ _ k (up_right b2.spells))
                λ t3 b3. ends (Became-then (Became-then b1 b2) b3, refl)

  pub fix_red_right :
      Spells t (node g black (node u red ul ur) (node p red pl pr)) k
      → Ends (Moved t (node g red (node u black ul ur) (node p black pl pr)) k g) (fix_red t p u g)
  unfolding fix_red
  fix_red_right h =
      Ends-bind (set_color-Became t p red black pl pr (right_of g black _ ∷ k) (down_right h))
        λ t1 b1.
          Ends-bind
            (set_color-Became t1 u red black ul ur (left_of g black _ ∷ k)
              (down_left (up_right b1.spells)))
            λ t2 b2.
              Ends-bind (set_color-Became t2 g black red _ _ k (up_left b2.spells))
                λ t3 b3. ends (Became-then (Became-then b1 b2) b3, refl)

module _ (t : Tree) (g p x : Ptr) (cg cp cx : Color) (xl xr s u : Shape) (k : Context) where
  pub fix_outer_left :
      Spells t (node g cg (node p cp (node x cx xl xr) s) u) k
      → Ends (Became t (node p black (node x cx xl xr) (node g red s u)) k) (fix_outer t x false)
  unfolding fix_outer
  fix_outer_left h =
      let at_x = (down_left (down_left h)).tree in
      rw (load-done t.parent x at_x.0, at_x.3)
        (Ends-bind (set_color-Became t p cp black _ s (left_of g cg u ∷ k) (down_left h)) λ t1 b1.
          rw (load-done t1.parent p b1.spells.tree.0, b1.spells.tree.3)
            (Ends-bind (set_color-Became t1 g cg red _ u k (up_left b1.spells)) λ t2 b2.
              Ends-mono (rotate_right-Became t2 g p red black u s (node x cx xl xr) k b2.spells)
                λ t3 b3. Became-then (Became-then b1 b2) b3))

  pub fix_outer_right :
      Spells t (node g cg u (node p cp s (node x cx xl xr))) k
      → Ends (Became t (node p black (node g red u s) (node x cx xl xr)) k) (fix_outer t x true)
  unfolding fix_outer
  fix_outer_right h =
      let at_x = (down_right (down_right h)).tree in
      rw (load-done t.parent x at_x.0, at_x.3)
        (Ends-bind (set_color-Became t p cp black s _ (right_of g cg u ∷ k) (down_right h)) λ t1 b1.
          rw (load-done t1.parent p b1.spells.tree.0, b1.spells.tree.3)
            (Ends-bind (set_color-Became t1 g cg red u _ k (up_right b1.spells)) λ t2 b2.
              Ends-mono (rotate_left-Became t2 g p red black u s (node x cx xl xr) k b2.spells)
                λ t3 b3. Became-then (Became-then b1 b2) b3))

  pub fix_black_left :
      Spells t (node g cg (node p cp (node x cx xl xr) s) u) k
      → Ends (Moved t (node p black (node x cx xl xr) (node g red s u)) k x) (fix_black t x p false)
  unfolding fix_black
  fix_black_left h =
      let at_x = (down_left (down_left h)).tree in
      let at_p = (down_left h).tree in
      let apart : top s ≢ x = top_ne s x at_x.0 (omega (arith, h.linear x)) in
      rw (load-done t.left p at_p.0, load-done t.right p at_p.0, at_p.2)
        (Ends-if (top s == x) (λ e. absurd (ground arith))
          λ e. Ends-bind (fix_outer_left h) λ t1 b. ends (b, refl))

  pub fix_black_right :
      Spells t (node g cg u (node p cp s (node x cx xl xr))) k
      → Ends (Moved t (node p black (node g red u s) (node x cx xl xr)) k x) (fix_black t x p true)
  unfolding fix_black
  fix_black_right h =
      let at_x = (down_right (down_right h)).tree in
      let at_p = (down_right h).tree in
      let apart : top s ≢ x = top_ne s x at_x.0 (omega (arith, h.linear x)) in
      rw (load-done t.left p at_p.0, load-done t.right p at_p.0, at_p.1)
        (Ends-if (top s == x) (λ e. absurd (ground arith))
          λ e. Ends-bind (fix_outer_right h) λ t1 b. ends (b, refl))

-- A node on the inner side turns outwards first.
module _ (t : Tree) (g p x : Ptr) (cg cp : Color) (a b c u : Shape) (k : Context) where
  pub fix_black_inner_left :
      Spells t (node g cg (node p cp a (node x red b c)) u) k
      → Ends (Moved t (node x black (node p cp a b) (node g red c u)) k p) (fix_black t x p false)
  unfolding fix_black
  fix_black_inner_left h =
      let at_p = (down_left h).tree in
      rw (load-done t.left p at_p.0, load-done t.right p at_p.0, at_p.2)
        (Ends-if (x == x)
          (λ e.
            Ends-bind (rotate_left-Became t p x cp red a b c (left_of g cg u ∷ k) (down_left h))
              λ t1 b1.
                Ends-bind (fix_outer_left t1 g x p cg red cp a b c u k (up_left b1.spells))
                  λ t2 b2. ends (Became-then b1 b2, refl))
          λ e. absurd (ground arith))

  pub fix_black_inner_right :
      Spells t (node g cg u (node p cp (node x red c b) a)) k
      → Ends (Moved t (node x black (node g red u c) (node p cp b a)) k p) (fix_black t x p true)
  unfolding fix_black
  fix_black_inner_right h =
      let at_p = (down_right h).tree in
      rw (load-done t.left p at_p.0, load-done t.right p at_p.0, at_p.1)
        (Ends-if (x == x)
          (λ e.
            Ends-bind (rotate_right-Became t p x cp red a b c (right_of g cg u ∷ k) (down_right h))
              λ t1 b1.
                Ends-bind (fix_outer_right t1 g x p cg red cp b a c u k (up_right b1.spells))
                  λ t2 b2. ends (Became-then b1 b2, refl))
          λ e. absurd (ground arith))

-- The reads of a round, and its choice.
module _ (t : Tree) (x p g v : Ptr) (nx : x ≢ null) (np : p ≢ null) (ng : g ≢ null)
    (hx : t.parent x ≡ p) (hc : t.color x ≡ red) (hp : t.parent p ≡ g) where
  pub fix_step_left :
      t.left g ≡ p
      → t.right g ≡ v
      → fix_step t x ≡ (if red_at t v then fix_red t p v g else fix_black t x p false)
  unfolding fix_step assert_red
  fix_step_left hl hr =
      let same : (p == p) ≡ true = ground arith in
      rw
        (
          load-done t.parent x nx,
          hx,
          load-done t.color x nx,
          hc,
          load-done t.parent p np,
          hp,
          load-done t.left g ng,
          hl,
          load-done t.right g ng,
          hr,
          same,
        )
        refl

  pub fix_step_right :
      t.left g ≡ v
      → t.right g ≡ p
      → p ≢ v
      → fix_step t x ≡ (if red_at t v then fix_red t p v g else fix_black t x p true)
  unfolding fix_step assert_red
  fix_step_right hl hr ne =
      let other : (p == v) ≡ false = ground arith in
      rw
        (
          load-done t.parent x nx,
          hx,
          load-done t.color x nx,
          hc,
          load-done t.parent p np,
          hp,
          load-done t.left g ng,
          hl,
          load-done t.right g ng,
          hr,
          other,
        )
        refl

abbrev pub is_red_top : Shape → Bool
is_red_top leaf = false
is_red_top (node p c l r) = is_red c

pub red_at-top : (t : Tree) (up : Ptr) (s : Shape) → IsTree t up s → red_at t (top s) ≡ is_red_top s
unfolding red_at
red_at-top t up leaf h = refl
red_at-top t up (node p c l r) h = rw (h.4) (ground (arith, h.0))
