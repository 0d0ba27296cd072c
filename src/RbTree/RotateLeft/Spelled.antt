-- ===== src/RbTree/RotateLeft/Spelled.antt =====
-- A left rotation in memory is the left rotation of the shape that the memory spells.
use trading_base.Base.{◌⊎◌, inl, inr, ◌+◌, ◌≤◌, ◌<◌, ◌≡◌, ◌≢◌, refl, sym, ◌∙◌, [], ◌∷◌, arith, done}
use trading_base.RbTree.{Ptr, null, Color, Tree, rotate_left}
use trading_base.RbTree.Shape.{
  Shape, node, left_of, right_of, Context, top, above, IsContext, occurs, occurs_in, Spells, SameAt,
  IsTree-same, IsContext-same,
}
use trading_base.RbTree.Occurs.{
  IsTree-adopted, occurs-top, occurs-above, ne_of_once, top_ne, above_ne, not_top,
}
use trading_base.RbTree.RotateLeft.{
  rotated_left, rotate_left-done, rotated_left-root, rotated_left-left, rotated_left-right,
  rotated_left-parent, rotated_left-color, rotated_left_pair, rotated_left-SameAt,
}

-- The context around the rotation.
context_turned_left :
    (t : Tree) (x y m : Ptr) (k : Context)
    → t.right x ≡ y
    → t.left y ≡ m
    → t.parent x ≡ above k
    → x ≢ null
    → ((p : Ptr) → 0 < occurs_in p k → (p ≢ x) × (p ≢ y) × (p ≡ m → m ≡ null))
    → ((p : Ptr) → occurs_in p k ≤ 1)
    → IsContext t x k
    → IsContext (rotated_left t x) y k
context_turned_left t x y m [] hy hm hp ne safe once h = rotated_left-root t x y m null hy hm hp
context_turned_left t x y m (left_of p cp r ∷ k) hy hm hp ne safe once
      (np, hl, hr, hpp, hc, tr, rest) =
    let (nx, ny, nm) = safe p (ground arith) in
    let same = λ (q : Ptr) (o : 0 < occurs_in q (left_of p cp r ∷ k)) (nq : q ≢ p).
      rotated_left-SameAt t x y m p hy hm hp q (safe q o).0 (safe q o).1 (safe q o).2
        (λ e. absurd (nq e)) in
    (
      np,
      ground (arith, rotated_left-left t x y m p hy hm hp p),
      ground (arith, rotated_left-right t x y m p hy hm hp p),
      ground (arith, rotated_left-parent t x y m p hy hm hp p),
      rotated_left-color t x y m p hy hm hp p ∙ hc,
      IsTree-same t (rotated_left t x) p r
          (λ q o. same q (omega arith) (λ e. ground (arith, once q))) tr,
      IsContext-same t (rotated_left t x) p k (rotated_left-root t x y m p hy hm hp ∙ ground arith)
          (λ q o. same q (omega arith) (λ e. ground (arith, once q))) rest,
    )
context_turned_left t x y m (right_of p cp l ∷ k) hy hm hp ne safe once
      (np, hl, hr, hpp, hc, tl, rest) =
    let (nx, ny, nm) = safe p (ground arith) in
    let same = λ (q : Ptr) (o : 0 < occurs_in q (right_of p cp l ∷ k)) (nq : q ≢ p).
      rotated_left-SameAt t x y m p hy hm hp q (safe q o).0 (safe q o).1 (safe q o).2
        (λ e. absurd (nq e)) in
    let other : x ≢ t.left p = λ e. not_top l x ne (λ o. (safe x (omega arith)).0 refl) (e ∙ hl) in
    (
      np,
      ground (arith, rotated_left-left t x y m p hy hm hp p),
      ground (arith, rotated_left-right t x y m p hy hm hp p),
      ground (arith, rotated_left-parent t x y m p hy hm hp p),
      rotated_left-color t x y m p hy hm hp p ∙ hc,
      IsTree-same t (rotated_left t x) p l
          (λ q o. same q (omega arith) (λ e. ground (arith, once q))) tl,
      IsContext-same t (rotated_left t x) p k (rotated_left-root t x y m p hy hm hp ∙ ground arith)
          (λ q o. same q (omega arith) (λ e. ground (arith, once q))) rest,
    )

module _ (t : Tree) (x y : Ptr) (cx cy : Color) (a b c : Shape) (k : Context)
    (h : Spells t (node x cx a (node y cy b c)) k) where
  abbrev after_left : Tree
  after_left = rotated_left t x

  hy : t.right x ≡ y
  hy = h.tree.2

  hm : t.left y ≡ top b
  hm = h.tree.6.1

  hp : t.parent x ≡ above k
  hp = h.tree.3

  ne_x : x ≢ null
  ne_x = h.tree.0

  ne_y : y ≢ null
  ne_y = h.tree.6.0

  x-ne-y : x ≢ y
  x-ne-y =
      ne_of_once x y (occurs x a + occurs x b + occurs x c + occurs_in x k)
        (omega (arith, h.linear x))

  m-ne-x : top b ≢ x
  m-ne-x = top_ne b x ne_x (omega (arith, h.linear x))

  m-ne-y : top b ≢ y
  m-ne-y = top_ne b y ne_y (omega (arith, h.linear y))

  xp-ne-x : above k ≢ x
  xp-ne-x = above_ne k x ne_x (omega (arith, h.linear x))

  xp-ne-y : above k ≢ y
  xp-ne-y = above_ne k y ne_y (omega (arith, h.linear y))

  -- A node of one of the parts that the rotation does not touch.
  untouched_left :
      (p : Ptr)
      → (0 < occurs p a + occurs p c)
        ⊎ ((0 < occurs p b) × (p ≢ top b))
        ⊎ ((0 < occurs_in p k) × (p ≢ above k))
      → SameAt t after_left p
  untouched_left p where_ =
      rotated_left-SameAt t x y (top b) (above k) hy hm hp p (λ e. ground (arith, h.linear p))
        (λ e. ground (arith, h.linear p)) (λ e. ground (arith, occurs-top b, h.linear p))
        (λ e. ground (arith, occurs-above k, h.linear p))

  pub rotate_left-run : rotate_left t x ≡ done after_left
  rotate_left-run = rotate_left-done t x ne_x (rw hy ne_y) (rw (hy, hm) m-ne-x)

  xp-ne-m : (p : Ptr) → p ≡ top b → p ≢ null → p ≢ above k
  xp-ne-m p e ne q = ground (arith, occurs-top b, occurs-above k, h.linear p)

  adopted_m :
      (p : Ptr)
      → p ≡ top b
      → p ≢ null
      → (after_left.left p ≡ t.left p)
        × (after_left.right p ≡ t.right p)
        × (after_left.color p ≡ t.color p)
        × (after_left.parent p ≡ x)
  adopted_m p e ne =
      let apart = xp-ne-m p e ne in
      let nx : p ≢ x = λ q. m-ne-x (sym e ∙ q) in
      let ny : p ≢ y = λ q. m-ne-y (sym e ∙ q) in
      (
        ground (arith, rotated_left-left t x y (top b) (above k) hy hm hp p),
        ground (arith, rotated_left-right t x y (top b) (above k) hy hm hp p),
        rotated_left-color t x y (top b) (above k) hy hm hp p,
        ground (arith, rotated_left-parent t x y (top b) (above k) hy hm hp p),
      )

  turned_left : IsContext after_left y k
  turned_left =
      context_turned_left t x y (top b) k hy hm hp ne_x
        (λ p o. (
          λ e. ground (arith, h.linear p),
          λ e. ground (arith, h.linear p),
          λ e. ground (arith, occurs-top b, h.linear p),
        ))
        (λ p. omega (arith, h.linear p)) h.context

  pub rotate_left-Spells : Spells after_left (node y cy (node x cx a b) c) k
  rotate_left-Spells =
      let (ly, ry, py, lx, rx, px) =
        rotated_left_pair t x y (top b) (above k) hy hm hp x-ne-y xp-ne-x xp-ne-y m-ne-x m-ne-y in
      let col = rotated_left-color t x y (top b) (above k) hy hm hp in
      record {
        tree = (
          ne_y,
          ly,
          ry ∙ h.tree.6.2,
          py,
          col y ∙ h.tree.6.4,
          (
            ne_x,
            lx ∙ h.tree.1,
            rx,
            px,
            col x ∙ h.tree.4,
            IsTree-same t after_left x a (λ p o. untouched_left p (inl (omega arith))) h.tree.5,
            IsTree-adopted t after_left y x b (λ p o ne. untouched_left p (inr (inl (o, ne))))
                adopted_m (λ p. omega (arith, h.linear p)) h.tree.6.5,
          ),
          IsTree-same t after_left y c (λ p o. untouched_left p (inl (omega arith))) h.tree.6.6,
        );
        context = turned_left;
        linear = λ p. omega (arith, h.linear p);
      }
