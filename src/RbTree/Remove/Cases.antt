-- ===== src/RbTree/Remove/Cases.antt =====
-- __helper_rb_tree_delete_rebalance: what each case of one round does to the shape around the focus.
use trading_base.Base.{
  ◌≡◌, ◌≢◌, refl, sym, [], ◌∷◌, ◌==◌, if◌then◌else◌, arith, true, false, Bool, not, done, ◌>>=◌,
  Ends, ends, Ends-bind, Ends-mono, Ends-if,
}
use trading_base.RbTree.{Ptr, null, Color, black, red, Tree, load}
use trading_base.RbTree.Shape.{Shape, node, left_of, right_of, Context, top, above, Spells}
use trading_base.RbTree.Occurs.{top_ne}
use trading_base.RbTree.Writes.{load-done}
use trading_base.RbTree.Focus.{
  up_left, up_right, down_left, down_right, Became, Became-then, Became-at, set_color-Became,
  rotate_left-Became, rotate_right-Became,
}
use trading_base.RbTree.Remove.{
  black_at, blacken, sibling, turn_sibling, move_up, borrow, finish_turn,
}

abbrev pub went_left : Context → Bool
went_left [] = false
went_left (left_of p c r ∷ k) = true
went_left (right_of p c l ∷ k) = false

-- The run ends at a memory with this shape, and gives a node beside it.
abbrev pub Beside : Tree → Shape → Context → Ptr → Tree × Ptr → Type 0
Beside t s k w (u, v) = Became t s k u × (v ≡ w)

module _ (t : Tree) (p w : Ptr) (s wl wr : Shape) (k : Context) where
  pub turn_sibling_left :
      Spells t (node p black s (node w red wl wr)) k
      → Ends (Beside t (node w black (node p red s wl) wr) k (top wl)) (turn_sibling t w p true)
  unfolding turn_sibling sibling
  turn_sibling_left h =
      Ends-bind (set_color-Became t w red black wl wr (right_of p black s ∷ k) (down_right h))
        λ t1 b1. Ends-bind (set_color-Became t1 p black red s _ k (up_right b1.spells)) λ t2 b2.
          Ends-bind (rotate_left-Became t2 p w red black s wl wr k b2.spells) λ t3 b3.
            let at_p = (down_left b3.spells).tree in
            rw (load-done t3.right p at_p.0, at_p.2)
              (ends (Became-then (Became-then b1 b2) b3, refl))

  pub turn_sibling_right :
      Spells t (node p black (node w red wl wr) s) k
      → Ends (Beside t (node w black wl (node p red wr s)) k (top wr)) (turn_sibling t w p false)
  unfolding turn_sibling sibling
  turn_sibling_right h =
      Ends-bind (set_color-Became t w red black wl wr (left_of p black s ∷ k) (down_left h))
        λ t1 b1. Ends-bind (set_color-Became t1 p black red _ s k (up_left b1.spells)) λ t2 b2.
          Ends-bind (rotate_right-Became t2 p w red black s wr wl k b2.spells) λ t3 b3.
            let at_p = (down_right b3.spells).tree in
            rw (load-done t3.left p at_p.0, at_p.1)
              (ends (Became-then (Became-then b1 b2) b3, refl))

-- Where the loop goes on: at a focus, with its parent and its side.
abbrev pub Going : Tree → Shape → Context → Tree × Ptr × Ptr × Bool → Type 0
Going t s k (u, x, xp, il) = Became t s k u × (x ≡ top s) × (xp ≡ above k) × (il ≡ went_left k)

-- `is_left = xp && (x == xp->left)`
pub side-done :
    (t : Tree) (p : Ptr) (c : Color) (l r : Shape) (k : Context)
    → Spells t (node p c l r) k
    → (if above k == null then done false else (load t.left (above k) >>= λ q. done (p == q)))
      ≡ done (went_left k)
side-done t p c l r [] h = refl
side-done t p c l r (left_of q cq o ∷ k) h =
    rw (load-done t.left q h.context.0, h.context.1) (ground (arith, h.context.0))
side-done t p c l r (right_of q cq o ∷ k) h =
    let apart : p ≢ top o = λ e. top_ne o p h.tree.0 (omega (arith, h.linear p)) (sym e) in
    rw (load-done t.left q h.context.0, h.context.1) (ground (arith, h.context.0))

module _ (t : Tree) (p w : Ptr) (c cw : Color) (s wl wr : Shape) (k : Context) where
  pub move_up_left :
      Spells t (node p c s (node w cw wl wr)) k
      → Ends (Going t (node p c s (node w red wl wr)) k) (move_up t w p)
  unfolding move_up
  move_up_left h =
      Ends-bind {P = Became t (node w red wl wr) (right_of p c s ∷ k)}
        (Ends-if (w == null) (λ e. absurd ((down_right h).tree.0 (ground arith)))
          λ _. set_color-Became t w cw red wl wr (right_of p c s ∷ k) (down_right h))
        λ t1 b1.
          let now = up_right b1.spells in
          rw
            (
              load-done t1.parent p now.tree.0,
              now.tree.3,
              side-done t1 p c s (node w red wl wr) k now,
            )
            (ends (Became-at up_right b1, refl, refl, refl))

  pub move_up_right :
      Spells t (node p c (node w cw wl wr) s) k
      → Ends (Going t (node p c (node w red wl wr) s) k) (move_up t w p)
  unfolding move_up
  move_up_right h =
      Ends-bind {P = Became t (node w red wl wr) (left_of p c s ∷ k)}
        (Ends-if (w == null) (λ e. absurd ((down_left h).tree.0 (ground arith)))
          λ _. set_color-Became t w cw red wl wr (left_of p c s ∷ k) (down_left h))
        λ t1 b1.
          let now = up_left b1.spells in
          rw
            (
              load-done t1.parent p now.tree.0,
              now.tree.3,
              side-done t1 p c (node w red wl wr) s k now,
            )
            (ends (Became-at up_left b1, refl, refl, refl))

-- Cases 3a and 3b, with the nearer child of the sibling red.
module _ (t : Tree) (p w v : Ptr) (c cw cv : Color) (s a b o : Shape) (k : Context) where
  pub borrow_left :
      Spells t (node p c s (node w cw (node v cv a b) o)) k
      → (q : Ptr) → black_at t q ≡ true
      → Ends (Beside t (node p c s (node v black a (node w red b o))) k v) (borrow t w p true v q)
  unfolding borrow blacken
  borrow_left h q dark =
      let at_v = (down_left (down_right h)).tree in
      rw dark (
        Ends-bind (set_color-Became t w cw red _ o (right_of p c s ∷ k) (down_right h)) λ t1 b1.
          Ends-bind {P = Became t1 (node v black a b) (left_of w red o ∷ right_of p c s ∷ k)}
            (Ends-if (v == null) (λ e. absurd (at_v.0 (ground arith)))
              λ _.
                set_color-Became t1 v cv black a b (left_of w red o ∷ right_of p c s ∷ k)
                  (down_left b1.spells))
            λ t2 b2.
              Ends-bind
                (rotate_right-Became t2 w v red black o b a (right_of p c s ∷ k)
                  (up_left b2.spells))
                λ t3 b3.
                  let now = up_right b3.spells in
                  rw (load-done t3.right p now.tree.0, now.tree.2)
                    (ends (Became-at up_right (Became-then (Became-then b1 b2) b3), refl)))

  pub borrow_right :
      Spells t (node p c (node w cw o (node v cv a b)) s) k
      → (q : Ptr) → black_at t q ≡ true
      → Ends (Beside t (node p c (node v black (node w red o a) b) s) k v) (borrow t w p false q v)
  unfolding borrow blacken
  borrow_right h q dark =
      let at_v = (down_right (down_left h)).tree in
      rw dark (
        Ends-bind (set_color-Became t w cw red o _ (left_of p c s ∷ k) (down_left h)) λ t1 b1.
          Ends-bind {P = Became t1 (node v black a b) (right_of w red o ∷ left_of p c s ∷ k)}
            (Ends-if (v == null) (λ e. absurd (at_v.0 (ground arith)))
              λ _.
                set_color-Became t1 v cv black a b (right_of w red o ∷ left_of p c s ∷ k)
                  (down_right b1.spells))
            λ t2 b2.
              Ends-bind
                (rotate_left-Became t2 w v red black o a b (left_of p c s ∷ k) (up_right b2.spells))
                λ t3 b3.
                  let now = up_left b3.spells in
                  rw (load-done t3.left p now.tree.0, now.tree.1)
                    (ends (Became-at up_left (Became-then (Became-then b1 b2) b3), refl)))

-- The loop stops: `x` is the root.
abbrev pub Stopped : Tree → Shape → Context → Tree × Ptr × Ptr × Bool → Type 0
Stopped t s k (u, x, xp, il) = Became t s k u × (x ≡ u.root)

-- Case 4, with the farther child of the sibling in place.
module _ (t : Tree) (p w r : Ptr) (c cw cr : Color) (s o a b : Shape) (k : Context) where
  pub finish_turn_left :
      Spells t (node p c s (node w cw o (node r cr a b))) k
      → Ends (Stopped t (node w c (node p black s o) (node r black a b)) k) (finish_turn t w p true)
  unfolding finish_turn
  finish_turn_left h =
      let at_w = (down_right h).tree in
      rw
        (
          load-done t.left w at_w.0,
          load-done t.right w at_w.0,
          at_w.2,
          load-done t.color p h.tree.0,
          h.tree.4,
        )
        (Ends-bind (set_color-Became t w cw c o _ (right_of p c s ∷ k) (down_right h)) λ t1 b1.
          Ends-bind (set_color-Became t1 p c black s _ k (up_right b1.spells)) λ t2 b2.
            let at_r = down_right (down_right b2.spells) in
            Ends-bind {P = Became t2 (node w c (node p black s o) (node r black a b)) k}
              (Ends-if (not (r == null))
                (λ _.
                  Ends-bind
                    (set_color-Became t2 r cr black a b (right_of w c o ∷ right_of p black s ∷ k)
                      at_r)
                    λ t3 b3.
                      Ends-mono
                        (rotate_left-Became t3 p w black c s o (node r black a b) k
                          (up_right (up_right b3.spells)))
                        (λ t4 b4. Became-then b3 b4))
                (λ e. absurd (at_r.tree.0 (ground arith))))
              λ t5 b5. ends (Became-then (Became-then b1 b2) b5, refl))

  pub finish_turn_right :
      Spells t (node p c (node w cw (node r cr a b) o) s) k
      → Ends
          (Stopped t (node w c (node r black a b) (node p black o s)) k)
          (finish_turn t w p false)
  unfolding finish_turn
  finish_turn_right h =
      let at_w = (down_left h).tree in
      rw
        (
          load-done t.left w at_w.0,
          load-done t.right w at_w.0,
          at_w.1,
          load-done t.color p h.tree.0,
          h.tree.4,
        )
        (Ends-bind (set_color-Became t w cw c _ o (left_of p c s ∷ k) (down_left h)) λ t1 b1.
          Ends-bind (set_color-Became t1 p c black _ s k (up_left b1.spells)) λ t2 b2.
            let at_r = down_left (down_left b2.spells) in
            Ends-bind {P = Became t2 (node w c (node r black a b) (node p black o s)) k}
              (Ends-if (not (r == null))
                (λ _.
                  Ends-bind
                    (set_color-Became t2 r cr black a b (left_of w c o ∷ left_of p black s ∷ k)
                      at_r)
                    λ t3 b3.
                      Ends-mono
                        (rotate_right-Became t3 p w black c s o (node r black a b) k
                          (up_left (up_left b3.spells)))
                        (λ t4 b4. Became-then b3 b4))
                (λ e. absurd (at_r.tree.0 (ground arith))))
              λ t5 b5. ends (Became-then (Became-then b1 b2) b5, refl))

-- Where the farther child of the sibling is red, nothing turns.
pub borrow_none_left :
    (t : Tree) (w xp a b : Ptr) → black_at t b ≡ false → borrow t w xp true a b ≡ done (t, w)
unfolding borrow
borrow_none_left t w xp a b e = rw e refl

pub borrow_none_right :
    (t : Tree) (w xp a b : Ptr) → black_at t a ≡ false → borrow t w xp false a b ≡ done (t, w)
unfolding borrow
borrow_none_right t w xp a b e = rw e refl
