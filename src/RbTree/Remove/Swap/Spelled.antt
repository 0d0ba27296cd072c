-- ===== src/RbTree/Remove/Swap/Spelled.antt =====
-- __helper_rb_tree_swap_node on the shape in memory.
use trading_base.Base.{
  ℕ, ◌<◌, ◌≤◌, ◌+◌, inl, inr, ◌≡◌, ◌≢◌, refl, sym, ◌∙◌, [], ◌∷◌, ◌==◌, if◌then◌else◌, arith, Ends,
  ends,
}
use trading_base.RbTree.{Ptr, null, Color, Tree}
use trading_base.RbTree.Shape.{
  Shape, node, left_of, right_of, Context, top, above, IsTree, IsContext, Spells, SameAt,
  IsTree-same, IsContext-same, occurs, occurs_in, one,
}
use trading_base.RbTree.Occurs.{IsTree-adopted, occurs-top, occurs-above, not_top}
use trading_base.RbTree.Focus.{Became}
use trading_base.RbTree.Remove.{swap_node}
use trading_base.RbTree.Remove.Swap.{
  swapped, swap_node-done, swapped-root, swapped-SameAt, swapped_child, swapped_here, swapped_above,
  swapped-key, swapped-rightmost,
}

off_top : (s : Shape) (a : Ptr) → occurs a s ≡ 0 → a ≡ top s → top s ≡ null
off_top s a o e = ground (arith, occurs-top s)

off_above : (k : Context) (a : Ptr) → occurs_in a k ≡ 0 → a ≡ above k → above k ≡ null
off_above k a o e = ground (arith, occurs-above k)

in_top : (s : Shape) (p : Ptr) → p ≡ top s → p ≢ null → 0 < occurs p s
in_top s p e np = ground (arith, occurs-top s)

off_one : (a x n : ℕ) → 0 < n → one a x + n ≤ 1 → a ≢ x
off_one a x n o h e = ground arith

-- A node outside of the tree makes the bound on occurrences hold with it.
once_with :
    (x y a n m i : ℕ)
    → x ≢ y
    → one a x + n + m + i ≤ 1
    → (a ≡ y → n + m + i ≡ 0)
    → one a x + one a y + n + m + i ≤ 1
once_with x y a n m i ne once out = ground arith

module _ (t : Tree) (x y : Ptr) (l r : Shape) (k : Context) (hl : t.left x ≡ top l)
    (hr : t.right x ≡ top r) (hp : t.parent x ≡ above k) (nx : x ≢ null) (ny : y ≢ null)
    (ne : x ≢ y)
    (once : (a : Ptr) → one a x + one a y + occurs a l + occurs a r + occurs_in a k ≤ 1) where
  in_left : (a : Ptr) → 0 < occurs a l → a ≢ top l → SameAt t (swapped t x y) a
  in_left a o nt =
      swapped-SameAt t x y (top l) (top r) (above k) hl hr hp ne a
        (off_one a x _ o (omega (arith, once a))) (off_one a y _ o (omega (arith, once a)))
        (λ e. absurd (nt e)) (off_top r a (omega (arith, once a)))
        (off_above k a (omega (arith, once a)))

  in_right : (a : Ptr) → 0 < occurs a r → a ≢ top r → SameAt t (swapped t x y) a
  in_right a o nt =
      swapped-SameAt t x y (top l) (top r) (above k) hl hr hp ne a
        (off_one a x _ o (omega (arith, once a))) (off_one a y _ o (omega (arith, once a)))
        (off_top l a (omega (arith, once a))) (λ e. absurd (nt e))
        (off_above k a (omega (arith, once a)))

  in_context : (a : Ptr) → 0 < occurs_in a k → a ≢ above k → SameAt t (swapped t x y) a
  in_context a o nt =
      swapped-SameAt t x y (top l) (top r) (above k) hl hr hp ne a
        (off_one a x _ o (omega (arith, once a))) (off_one a y _ o (omega (arith, once a)))
        (off_top l a (omega (arith, once a))) (off_top r a (omega (arith, once a)))
        (λ e. absurd (nt e))

  under_left : IsTree t x l → IsTree (swapped t x y) y l
  under_left =
      IsTree-adopted t (swapped t x y) x y l in_left
        (λ p e np.
          let o = in_top l p e np in
          swapped_child t x y (top l) (top r) (above k) hl hr hp ne p
            (off_one p x _ o (omega (arith, once p))) (off_one p y _ o (omega (arith, once p))) np
            (inl e) (off_above k p (omega (arith, once p))))
        (λ p. omega (arith, once p))

  under_right : IsTree t x r → IsTree (swapped t x y) y r
  under_right =
      IsTree-adopted t (swapped t x y) x y r in_right
        (λ p e np.
          let o = in_top r p e np in
          swapped_child t x y (top l) (top r) (above k) hl hr hp ne p
            (off_one p x _ o (omega (arith, once p))) (off_one p y _ o (omega (arith, once p))) np
            (inr e) (off_above k p (omega (arith, once p))))
        (λ p. omega (arith, once p))

  here :
      (c : Color)
      → t.color x ≡ c
      → IsTree t x l
      → IsTree t x r
      → IsTree (swapped t x y) (above k) (node y c l r)
  here c hc tl tr =
      let (fl, fr, fp, fc) =
        swapped_here t x y (top l) (top r) (above k) hl hr hp ne
          (off_top l y (ground (arith, once y))) (off_top r y (ground (arith, once y))) in
      (ny, fl, fr, fp, fc ∙ hc, under_left tl, under_right tr)

  above_at :
      (p : Ptr)
      → p ≡ above k
      → p ≢ null
      → ((swapped t x y).left p ≡ (if t.left p == x then y else t.left p))
        × ((swapped t x y).right p ≡ (if t.left p == x then t.right p else y))
        × ((swapped t x y).parent p ≡ t.parent p)
        × ((swapped t x y).color p ≡ t.color p)
  above_at p e np =
      let o : 0 < occurs_in p k = ground (arith, occurs-above k) in
      swapped_above t x y (top l) (top r) p hl hr (hp ∙ sym e) ne np
        (off_one p x _ o (omega (arith, once p))) (off_one p y _ o (omega (arith, once p)))
        (off_top l p (omega (arith, once p))) (off_top r p (omega (arith, once p)))

under :
    (t : Tree) (x y : Ptr) (l r : Shape) (k : Context)
    → t.left x ≡ top l
    → t.right x ≡ top r
    → t.parent x ≡ above k
    → x ≢ null
    → y ≢ null
    → x ≢ y
    → ((a : Ptr) → one a x + one a y + occurs a l + occurs a r + occurs_in a k ≤ 1)
    → IsContext t x k
    → IsContext (swapped t x y) y k
under t x y l r [] hl hr hp nx ny ne once h =
    swapped-root t x y (top l) (top r) null hl hr hp ne ∙ ground (arith, h)
under t x y l r (left_of p c o ∷ k) hl hr hp nx ny ne once (np, pl, pr, pp, pc, tr, rest) =
    let (fl, fr, fp, fc) =
      above_at t x y l r (left_of p c o ∷ k) hl hr hp nx ny ne once p refl np in
    let same = in_context t x y l r (left_of p c o ∷ k) hl hr hp nx ny ne once in
    (
      np,
      fl ∙ ground (arith, pl),
      fr ∙ ground (arith, pl, pr),
      fp ∙ pp,
      fc ∙ pc,
      IsTree-same t (swapped t x y) p o (λ q i. same q (omega arith) (λ e. ground (arith, once q)))
          tr,
      IsContext-same t (swapped t x y) p k
          (swapped-root t x y (top l) (top r) p hl hr hp ne ∙ ground arith)
          (λ q i. same q (omega arith) (λ e. ground (arith, once q))) rest,
    )
under t x y l r (right_of p c o ∷ k) hl hr hp nx ny ne once (np, pl, pr, pp, pc, tl, rest) =
    let (fl, fr, fp, fc) =
      above_at t x y l r (right_of p c o ∷ k) hl hr hp nx ny ne once p refl np in
    let same = in_context t x y l r (right_of p c o ∷ k) hl hr hp nx ny ne once in
    let other : x ≢ t.left p = λ e. not_top o x nx (λ i. ground (arith, once x)) (e ∙ pl) in
    (
      np,
      fl ∙ ground (arith, other) ∙ pl,
      fr ∙ ground (arith, other),
      fp ∙ pp,
      fc ∙ pc,
      IsTree-same t (swapped t x y) p o (λ q i. same q (omega arith) (λ e. ground (arith, once q)))
          tl,
      IsContext-same t (swapped t x y) p k
          (swapped-root t x y (top l) (top r) p hl hr hp ne ∙ ground arith)
          (λ q i. same q (omega arith) (λ e. ground (arith, once q))) rest,
    )

swapped-Became :
    (t : Tree) (x y : Ptr) (c : Color) (l r : Shape) (k : Context)
    → y ≢ null
    → x ≢ y
    → occurs y (node x c l r) + occurs_in y k ≡ 0
    → Spells t (node x c l r) k
    → Became t (node y c l r) k (swapped t x y)
swapped-Became t x y c l r k ny ne out h =
    let (nx, hl, hr, hp, hc, tl, tr) = h.tree in
    let once : (a : Ptr) → one a x + one a y + occurs a l + occurs a r + occurs_in a k ≤ 1 = λ a.
      omega (
        arith,
        once_with x y a (occurs a l) (occurs a r) (occurs_in a k) ne (h.linear a)
            (λ e. ground (arith, out)),
      ) in
    record {
      spells = record {
        tree = here t x y l r k hl hr hp nx ny ne once c hc tl tr;
        context = under t x y l r k hl hr hp nx ny ne once h.context;
        linear = λ a. omega (arith, once a);
      };
      keys = swapped-key t x y;
      rightmost = swapped-rightmost t x y;
    }

-- The node outside of the tree is in the place of the other, with its color, and the other is out.
pub swap_node-Became :
    (t : Tree) (x y : Ptr) (c : Color) (l r : Shape) (k : Context)
    → y ≢ null
    → occurs y (node x c l r) + occurs_in y k ≡ 0
    → Spells t (node x c l r) k
    → Ends (Became t (node y c l r) k) (swap_node t x y)
swap_node-Became t x y c l r k ny out h =
    let ne : x ≢ y = λ e. ground (arith, out) in
    rw (swap_node-done t x y h.tree.0 ny) (ends (swapped-Became t x y c l r k ny ne out h))
