-- ===== src/RbTree/Remove/Unlink.antt =====
-- rb_tree_remove: the node with at most one child is unlinked.
use trading_base.Base.{
  ◌<◌, ◌≤◌, ◌+◌, inl, inr, Bool-cases, ◌≡◌, ◌≢◌, refl, ◌∙◌, [], ◌∷◌, ◌==◌, if◌then◌else◌, arith,
  false, not, ◌&&◌, done, ◌>>=◌, Ends, ends,
}
use trading_base.RbTree.{Ptr, null, Color, Tree, load}
use trading_base.RbTree.Shape.{
  Shape, leaf, node, left_of, right_of, Context, top, above, IsTree, IsContext, Spells, SameAt,
  IsTree-same, IsContext-same, occurs, occurs_in, one,
}
use trading_base.RbTree.Occurs.{IsTree-adopted, occurs-top, occurs-above, not_top}
use trading_base.RbTree.Writes.{
  load-done, put_parent, put_left, put_right, adopted, relinked, adopt-done, replace_child-done,
}
use trading_base.RbTree.Focus.{Became}
use trading_base.RbTree.Remove.{unlink}
use trading_base.RbTree.Remove.Cases.{Going, went_left, side-done}

-- The child that is there.
abbrev pub only : Shape → Shape → Shape
only leaf r = r
only (node p c a b) r = node p c a b

-- The memory after it.
unfoldable pub unlinked : Tree → Ptr → Ptr → Tree
unlinked t y x = relinked (adopted t x (t.parent y)) (t.parent y) y x

module _ (t : Tree) (y x yp : Ptr) (hp : t.parent y ≡ yp) where
  unlinked-root : (unlinked t y x).root ≡ (if yp == null then x else t.root)
  unfolding unlinked put_right put_left put_parent adopted relinked
  unlinked-root = ground arith

  unlinked-left :
      (a : Ptr)
      → (unlinked t y x).left a
        ≡ (if not (yp == null) && (y == t.left yp && a == yp) then x else t.left a)
  unfolding unlinked put_right put_left put_parent adopted relinked
  unlinked-left a = ground arith

  unlinked-right :
      (a : Ptr)
      → (unlinked t y x).right a
        ≡ (if not (yp == null) && (not (y == t.left yp) && a == yp) then x else t.right a)
  unfolding unlinked put_right put_left put_parent adopted relinked
  unlinked-right a = ground arith

  unlinked-parent :
      (a : Ptr) → (unlinked t y x).parent a ≡ (if not (x == null) && a == x then yp else t.parent a)
  unfolding unlinked put_right put_left put_parent adopted relinked
  unlinked-parent a = ground arith

  unlinked-color : (a : Ptr) → (unlinked t y x).color a ≡ t.color a
  unfolding unlinked put_right put_left put_parent adopted relinked
  unlinked-color a = ground arith

  pub unlinked-key : (a : Ptr) → (unlinked t y x).key a ≡ t.key a
  unfolding unlinked put_right put_left put_parent adopted relinked
  unlinked-key a = ground arith

  pub unlinked-rightmost : (unlinked t y x).rightmost ≡ t.rightmost
  unfolding unlinked put_right put_left put_parent adopted relinked
  unlinked-rightmost = ground arith

  unlinked-SameAt :
      (a : Ptr) → (a ≡ x → x ≡ null) → (a ≡ yp → yp ≡ null) → SameAt t (unlinked t y x) a
  unlinked-SameAt a nx np = record {
    left = ground (arith, unlinked-left a);
    right = ground (arith, unlinked-right a);
    parent = ground (arith, unlinked-parent a);
    color = unlinked-color a;
  }

unlinked-above :
    (t : Tree) (y x : Ptr) (k : Context)
    → t.parent y ≡ above k
    → y ≢ null
    → ((p : Ptr) → 0 < occurs_in p k → (p ≢ y) × (p ≡ x → x ≡ null))
    → ((p : Ptr) → occurs_in p k ≤ 1)
    → IsContext t y k
    → IsContext (unlinked t y x) x k
unlinked-above t y x [] hp ny safe once h = unlinked-root t y x null hp
unlinked-above t y x (left_of p c r ∷ k) hp ny safe once (np, hl, hr, hpp, hc, tr, rest) =
    let (py, px) = safe p (ground arith) in
    let same = λ (q : Ptr) (o : 0 < occurs_in q (left_of p c r ∷ k)) (nq : q ≢ p).
      unlinked-SameAt t y x p hp q (safe q o).1 (λ e. absurd (nq e)) in
    (
      np,
      ground (arith, unlinked-left t y x p hp p),
      ground (arith, unlinked-right t y x p hp p),
      ground (arith, unlinked-parent t y x p hp p),
      unlinked-color t y x p hp p ∙ hc,
      IsTree-same t (unlinked t y x) p r (λ q o. same q (omega arith) (λ e. ground (arith, once q)))
          tr,
      IsContext-same t (unlinked t y x) p k (unlinked-root t y x p hp ∙ ground arith)
          (λ q o. same q (omega arith) (λ e. ground (arith, once q))) rest,
    )
unlinked-above t y x (right_of p c l ∷ k) hp ny safe once (np, hl, hr, hpp, hc, tl, rest) =
    let (py, px) = safe p (ground arith) in
    let same = λ (q : Ptr) (o : 0 < occurs_in q (right_of p c l ∷ k)) (nq : q ≢ p).
      unlinked-SameAt t y x p hp q (safe q o).1 (λ e. absurd (nq e)) in
    let other : y ≢ t.left p = λ e. not_top l y ny (λ o. (safe y (omega arith)).0 refl) (e ∙ hl) in
    (
      np,
      ground (arith, unlinked-left t y x p hp p),
      ground (arith, unlinked-right t y x p hp p),
      ground (arith, unlinked-parent t y x p hp p),
      unlinked-color t y x p hp p ∙ hc,
      IsTree-same t (unlinked t y x) p l (λ q o. same q (omega arith) (λ e. ground (arith, once q)))
          tl,
      IsContext-same t (unlinked t y x) p k (unlinked-root t y x p hp ∙ ground arith)
          (λ q o. same q (omega arith) (λ e. ground (arith, once q))) rest,
    )

module _ (t : Tree) (y : Ptr) (s : Shape) (k : Context) (hp : t.parent y ≡ above k) (ny : y ≢ null)
    (hs : IsTree t y s) (hk : IsContext t y k)
    (once : (a : Ptr) → one a y + occurs a s + occurs_in a k ≤ 1) where
  unlinked_below : IsTree (unlinked t y (top s)) (above k) s
  unlinked_below =
      let u = unlinked t y (top s) in
      let same = λ (a : Ptr) (o : 0 < occurs a s) (ne : a ≢ top s).
        unlinked-SameAt t y (top s) (above k) hp a (λ e. absurd (ne e))
          (λ e. ground (arith, occurs-above k, once a)) in
      IsTree-adopted t u y (above k) s same
        (λ p e ne. (
          (let apart : p ≢ above k = λ q. ground (arith, occurs-above k, occurs-top s, once p) in
              ground (arith, unlinked-left t y (top s) (above k) hp p)),
          (let apart : p ≢ above k = λ q. ground (arith, occurs-above k, occurs-top s, once p) in
              ground (arith, unlinked-right t y (top s) (above k) hp p)),
          unlinked-color t y (top s) (above k) hp p,
          ground (arith, unlinked-parent t y (top s) (above k) hp p),
        ))
        (λ p. omega (arith, once p)) hs

  pub unlinked-Spells : Spells (unlinked t y (top s)) s k
  unlinked-Spells = record {
    tree = unlinked_below;
    context =
        unlinked-above t y (top s) k hp ny
          (λ p o. (λ e. ground (arith, once p), λ e. ground (arith, occurs-top s, once p)))
          (λ p. omega (arith, once p)) hk;
    linear = λ a. omega (arith, once a);
  }

adopted-left : (t : Tree) (p v : Ptr) → (adopted t p v).left ≡ t.left
unfolding adopted put_parent
adopted-left t p v = elim (Bool-cases (p == null)) [ inl e ↦ rw e refl | inr e ↦ rw e refl ]

side_after :
    (t : Tree) (p x v : Ptr) (c : Color) (l r : Shape) (k : Context)
    → Spells t (node p c l r) k
    → (if above k == null
        then done false
        else (load (adopted t x v).left (above k) >>= λ q. done (p == q)))
      ≡ done (went_left k)
side_after t p x v c l r k h = rw (adopted-left t x v) (side-done t p c l r k h)

-- At most one child.
abbrev pub HasRoom : Shape → Shape → Type 0
HasRoom leaf r = Unit {0}
HasRoom (node p c a b) leaf = Unit {0}
HasRoom (node p c a b) (node p' c' a' b') = ⊥

unlink-run :
    (t : Tree) (y : Ptr) (c : Color) (l r : Shape) (k : Context)
    → HasRoom l r
    → Spells t (node y c l r) k
    → unlink t y ≡ done (unlinked t y (top (only l r)), top (only l r), above k, went_left k)
unfolding unlink unlinked
unlink-run t y c leaf r k room h =
    let (ny, hl, hr, hp, _, _, _) = h.tree in
    rw
      (
        load-done t.left y ny,
        load-done t.right y ny,
        load-done t.parent y ny,
        hl,
        hr,
        hp,
        adopt-done t (top r) (above k),
        side_after t y (top r) (above k) c leaf r k h,
        replace_child-done (adopted t (top r) (above k)) (above k) y (top r),
      )
      refl
unlink-run t y c (node q cq a b) leaf k room h =
    let (ny, hl, hr, hp, _, tl, _) = h.tree in
    let given : (q == null) ≡ false = ground (arith, tl.0) in
    rw
      (
        load-done t.left y ny,
        load-done t.right y ny,
        load-done t.parent y ny,
        hl,
        hr,
        hp,
        given,
        adopt-done t q (above k),
        side_after t y q (above k) c (node q cq a b) leaf k h,
        replace_child-done (adopted t q (above k)) (above k) y q,
      )
      refl
unlink-run t y c (node q cq a b) (node q' cq' a' b') k room h = absurd room

unlinked-Going :
    (t : Tree) (y : Ptr) (c : Color) (l r : Shape) (k : Context)
    → HasRoom l r
    → Spells t (node y c l r) k
    → Became t (only l r) k (unlinked t y (top (only l r)))
unlinked-Going t y c leaf r k room h = record {
  spells =
      unlinked-Spells t y r k h.tree.3 h.tree.0 h.tree.6 h.context (λ a. omega (arith, h.linear a));
  keys = unlinked-key t y (top r) (above k) h.tree.3;
  rightmost = unlinked-rightmost t y (top r) (above k) h.tree.3;
}
unlinked-Going t y c (node q cq a b) leaf k room h = record {
  spells =
      unlinked-Spells t y (node q cq a b) k h.tree.3 h.tree.0 h.tree.5 h.context
        (λ p. omega (arith, h.linear p));
  keys = unlinked-key t y q (above k) h.tree.3;
  rightmost = unlinked-rightmost t y q (above k) h.tree.3;
}
unlinked-Going t y c (node q cq a b) (node q' cq' a' b') k room h = absurd room

-- The unlinking in rb_tree_remove, at a node with at most one child: the run ends, the node is out
-- of the tree and its child, if there is one, in its place; it gives that child, the parent and the side,
-- and the keys, `rightmost` and the color of the node stay.
pub unlink-Going :
    (t : Tree) (y : Ptr) (c : Color) (l r : Shape) (k : Context)
    → HasRoom l r
    → Spells t (node y c l r) k
    → Ends (λ g. Going t (only l r) k g × (g.0.color y ≡ c)) (unlink t y)
unlink-Going t y c l r k room h = rw (unlink-run t y c l r k room h) (
    ends (
      (unlinked-Going t y c l r k room h, refl, refl, refl),
      unlinked-color t y (top (only l r)) (above k) h.tree.3 y ∙ h.tree.4,
    ))
