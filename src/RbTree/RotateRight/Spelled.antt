-- ===== src/RbTree/RotateRight/Spelled.antt =====
-- A right rotation in memory is the right rotation of the shape that the memory spells.
use trading_base.Base.{◌⊎◌, inl, inr, ◌+◌, ◌≤◌, ◌<◌, ◌≡◌, ◌≢◌, refl, sym, ◌∙◌, [], ◌∷◌, arith, done}
use trading_base.RbTree.{Ptr, null, Color, Tree, rotate_right}
use trading_base.RbTree.Shape.{
  Shape, node, left_of, right_of, Context, top, above, IsContext, occurs, occurs_in, Spells, SameAt,
  IsTree-same, IsContext-same,
}
use trading_base.RbTree.Occurs.{
  IsTree-adopted, occurs-top, occurs-above, ne_of_once, top_ne, above_ne, not_top,
}
use trading_base.RbTree.RotateRight.{
  rotated_right, rotate_right-done, rotated_right-root, rotated_right-left, rotated_right-right,
  rotated_right-parent, rotated_right-color, rotated_right_pair, rotated_right-SameAt,
}

-- The context around the rotation.
context_turned_right :
    (t : Tree) (x y m : Ptr) (k : Context)
    → t.left x ≡ y
    → t.right y ≡ m
    → t.parent x ≡ above k
    → above k ≢ x
    → x ≢ null
    → ((p : Ptr) → 0 < occurs_in p k → (p ≢ x) × (p ≢ y) × (p ≡ m → m ≡ null))
    → ((p : Ptr) → occurs_in p k ≤ 1)
    → IsContext t x k
    → IsContext (rotated_right t x) y k
context_turned_right t x y m [] hy hm hp apart ne safe once h =
    rotated_right-root t x y m null hy hm hp apart
context_turned_right t x y m (left_of p cp r ∷ k) hy hm hp apart ne safe once
      (np, hl, hr, hpp, hc, tr, rest) =
    let (nx, ny, nm) = safe p (ground arith) in
    let same = λ (q : Ptr) (o : 0 < occurs_in q (left_of p cp r ∷ k)) (nq : q ≢ p).
      rotated_right-SameAt t x y m p hy hm hp apart q (safe q o).0 (safe q o).1 (safe q o).2
        (λ e. absurd (nq e)) in
    (
      np,
      ground (arith, rotated_right-left t x y m p hy hm hp apart p),
      ground (arith, rotated_right-right t x y m p hy hm hp apart p),
      ground (arith, rotated_right-parent t x y m p hy hm hp apart p),
      rotated_right-color t x y m p hy hm hp apart p ∙ hc,
      IsTree-same t (rotated_right t x) p r
          (λ q o. same q (omega arith) (λ e. ground (arith, once q))) tr,
      IsContext-same t (rotated_right t x) p k
          (rotated_right-root t x y m p hy hm hp apart ∙ ground arith)
          (λ q o. same q (omega arith) (λ e. ground (arith, once q))) rest,
    )
context_turned_right t x y m (right_of p cp l ∷ k) hy hm hp apart ne safe once
      (np, hl, hr, hpp, hc, tl, rest) =
    let (nx, ny, nm) = safe p (ground arith) in
    let same = λ (q : Ptr) (o : 0 < occurs_in q (right_of p cp l ∷ k)) (nq : q ≢ p).
      rotated_right-SameAt t x y m p hy hm hp apart q (safe q o).0 (safe q o).1 (safe q o).2
        (λ e. absurd (nq e)) in
    let other : x ≢ t.left p = λ e. not_top l x ne (λ o. (safe x (omega arith)).0 refl) (e ∙ hl) in
    (
      np,
      ground (arith, rotated_right-left t x y m p hy hm hp apart p),
      ground (arith, rotated_right-right t x y m p hy hm hp apart p),
      ground (arith, rotated_right-parent t x y m p hy hm hp apart p),
      rotated_right-color t x y m p hy hm hp apart p ∙ hc,
      IsTree-same t (rotated_right t x) p l
          (λ q o. same q (omega arith) (λ e. ground (arith, once q))) tl,
      IsContext-same t (rotated_right t x) p k
          (rotated_right-root t x y m p hy hm hp apart ∙ ground arith)
          (λ q o. same q (omega arith) (λ e. ground (arith, once q))) rest,
    )

module _ (t : Tree) (x y : Ptr) (cx cy : Color) (a b c : Shape) (k : Context)
    (h : Spells t (node x cx (node y cy c b) a) k) where
  abbrev after_right : Tree
  after_right = rotated_right t x

  hy : t.left x ≡ y
  hy = h.tree.1

  hm : t.right y ≡ top b
  hm = h.tree.5.2

  hp : t.parent x ≡ above k
  hp = h.tree.3

  ne_x : x ≢ null
  ne_x = h.tree.0

  ne_y : y ≢ null
  ne_y = h.tree.5.0

  x-ne-y : x ≢ y
  x-ne-y =
      ne_of_once x y (occurs x a + occurs x b + occurs x c + occurs_in x k)
        (omega (arith, h.linear x))

  m-ne-x : top b ≢ x
  m-ne-x = top_ne b x ne_x (omega (arith, h.linear x))

  m-ne-y : top b ≢ y
  m-ne-y = top_ne b y ne_y (omega (arith, h.linear y))

  xp-ne-x : above k ≢ x
  xp-ne-x = above_ne k x ne_x (omega (arith, h.linear x))

  xp-ne-y : above k ≢ y
  xp-ne-y = above_ne k y ne_y (omega (arith, h.linear y))

  -- A node of one of the parts that the rotation does not touch.
  untouched_right :
      (p : Ptr)
      → (0 < occurs p a + occurs p c)
        ⊎ ((0 < occurs p b) × (p ≢ top b))
        ⊎ ((0 < occurs_in p k) × (p ≢ above k))
      → SameAt t after_right p
  untouched_right p where_ =
      rotated_right-SameAt t x y (top b) (above k) hy hm hp xp-ne-x p
        (λ e. ground (arith, h.linear p)) (λ e. ground (arith, h.linear p))
        (λ e. ground (arith, occurs-top b, h.linear p))
        (λ e. ground (arith, occurs-above k, h.linear p))

  pub rotate_right-run : rotate_right t x ≡ done after_right
  rotate_right-run = rotate_right-done t x ne_x (rw hy ne_y) (rw (hy, hm) m-ne-x)

  xp-ne-m : (p : Ptr) → p ≡ top b → p ≢ null → p ≢ above k
  xp-ne-m p e ne q = ground (arith, occurs-top b, occurs-above k, h.linear p)

  adopted_m :
      (p : Ptr)
      → p ≡ top b
      → p ≢ null
      → (after_right.left p ≡ t.left p)
        × (after_right.right p ≡ t.right p)
        × (after_right.color p ≡ t.color p)
        × (after_right.parent p ≡ x)
  adopted_m p e ne =
      let apart = xp-ne-m p e ne in
      let nx : p ≢ x = λ q. m-ne-x (sym e ∙ q) in
      let ny : p ≢ y = λ q. m-ne-y (sym e ∙ q) in
      (
        ground (arith, rotated_right-left t x y (top b) (above k) hy hm hp xp-ne-x p),
        ground (arith, rotated_right-right t x y (top b) (above k) hy hm hp xp-ne-x p),
        rotated_right-color t x y (top b) (above k) hy hm hp xp-ne-x p,
        ground (arith, rotated_right-parent t x y (top b) (above k) hy hm hp xp-ne-x p),
      )

  turned_right : IsContext after_right y k
  turned_right =
      context_turned_right t x y (top b) k hy hm hp xp-ne-x ne_x
        (λ p o. (
          λ e. ground (arith, h.linear p),
          λ e. ground (arith, h.linear p),
          λ e. ground (arith, occurs-top b, h.linear p),
        ))
        (λ p. omega (arith, h.linear p)) h.context

  pub rotate_right-Spells : Spells after_right (node y cy c (node x cx b a)) k
  rotate_right-Spells =
      let (ly, ry, py, lx, rx, px) =
        rotated_right_pair t x y (top b) (above k) hy hm hp xp-ne-x x-ne-y xp-ne-y m-ne-x m-ne-y in
      let col = rotated_right-color t x y (top b) (above k) hy hm hp xp-ne-x in
      record {
        tree = (
          ne_y,
          ly ∙ h.tree.5.1,
          ry,
          py,
          col y ∙ h.tree.5.4,
          IsTree-same t after_right y c (λ p o. untouched_right p (inl (omega arith))) h.tree.5.5,
          (
            ne_x,
            lx,
            rx ∙ h.tree.2,
            px,
            col x ∙ h.tree.4,
            IsTree-adopted t after_right y x b (λ p o ne. untouched_right p (inr (inl (o, ne))))
                adopted_m (λ p. omega (arith, h.linear p)) h.tree.5.6,
            IsTree-same t after_right x a (λ p o. untouched_right p (inl (omega arith))) h.tree.6,
          ),
        );
        context = turned_right;
        linear = λ p. omega (arith, h.linear p);
      }
