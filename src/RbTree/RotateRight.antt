-- ===== src/RbTree/RotateRight.antt =====
-- __helper_rotate_right: the memory after it, field by field.
pub mod Spelled
use trading_base.Base.{
  ℕ, zero, suc, ◌⊎◌, inl, inr, ◌+◌, ◌≤◌, ◌<◌, ◌≡◌, ◌≢◌, refl, sym, ◌∙◌, List, [], ◌∷◌, ◌==◌,
  if◌then◌else◌, arith, true, false, Bool, not, ◌&&◌, Run, done, Ends, ends, Ends-bind,
}
use trading_base.RbTree.{
  Ptr, null, Color, Tree, update, load, set_left, set_right, set_parent, set_color, adopt,
  replace_child, rotate_right, rotate_right,
}
use trading_base.RbTree.Shape.{
  Shape, leaf, node, Frame, left_of, right_of, Context, top, above, IsTree, IsContext, one, occurs,
  occurs_in, IsLinear, Spells, SameAt, IsTree-same, IsContext-same,
}
use trading_base.RbTree.Writes.{
  load-done, put_left, put_right, put_parent, adopted, relinked, set_left-done, set_right-done,
  set_parent-done, adopt-done, replace_child-done, adopted-parent,
}

-- The memory after a rotation of `x` to the right.
unfoldable pub rotated_right : Tree → Ptr → Tree
rotated_right t x =
    let y = t.left x in
    let m = t.right y in
    let xp = t.parent x in
    put_parent (put_right (relinked (put_parent (adopted (put_left t x m) m x) y xp) xp x y) y x) x
      y

pub rotate_right-done :
    (t : Tree) (x : Ptr)
    → x ≢ null
    → t.left x ≢ null
    → t.right (t.left x) ≢ x
    → rotate_right t x ≡ done (rotated_right t x)
unfolding rotate_right rotated_right
rotate_right-done t x hx hy hm =
    let y = t.left x in
    let m = t.right y in
    let t1 = put_left t x m in
    rw (
      load-done t.left x hx,
      load-done t.right y hy,
      set_left-done t x m hx,
      adopt-done t1 m x,
      load-done (adopted t1 m x).parent x hx,
      (adopted-parent t x m hm).1,
      set_parent-done (adopted t1 m x) y (t.parent x) hy,
      replace_child-done (put_parent (adopted t1 m x) y (t.parent x)) (t.parent x) x y,
      set_right-done (relinked (put_parent (adopted t1 m x) y (t.parent x)) (t.parent x) x y) y x
          hy,
      set_parent-done
          (put_right (relinked (put_parent (adopted t1 m x) y (t.parent x)) (t.parent x) x y) y x) x
          y hx,
    )

-- The fields after the rotation, one by one.
module _ (t : Tree) (x y m xp : Ptr) (hy : t.left x ≡ y) (hm : t.right y ≡ m) (hp : t.parent x ≡ xp)
    (above_x : xp ≢ x) where
  pub rotated_right-root : (rotated_right t x).root ≡ (if xp == null then y else t.root)
  unfolding rotated_right put_right put_left put_parent adopted relinked
  rotated_right-root = ground arith

  pub rotated_right-left :
      (a : Ptr)
      → (rotated_right t x).left a ≡ (
          if not (xp == null) && (x == t.left xp && a == xp)
          then y
          else if a == x
          then m
          else t.left a)
  unfolding rotated_right put_left put_right put_parent adopted relinked
  rotated_right-left a = ground arith

  pub rotated_right-right :
      (a : Ptr)
      → (rotated_right t x).right a ≡ (
          if a == y
          then x
          else if not (xp == null) && (not (x == t.left xp) && a == xp)
          then y
          else t.right a)
  unfolding rotated_right put_left put_right put_parent adopted relinked
  rotated_right-right a = ground arith

  pub rotated_right-parent :
      (a : Ptr)
      → (rotated_right t x).parent a ≡ (
          if a == x
          then y
          else if a == y
          then xp
          else if not (m == null) && a == m
          then x
          else t.parent a)
  unfolding rotated_right put_right put_left put_parent adopted relinked
  rotated_right-parent a = ground arith

  pub rotated_right-color : (a : Ptr) → (rotated_right t x).color a ≡ t.color a
  unfolding rotated_right put_right put_left put_parent adopted relinked
  rotated_right-color a = ground arith

  -- The two nodes that turn.
  pub rotated_right_pair :
      x ≢ y
      → xp ≢ y
      → m ≢ x
      → m ≢ y
      → ((rotated_right t x).left y ≡ t.left y)
        × ((rotated_right t x).right y ≡ x)
        × ((rotated_right t x).parent y ≡ xp)
        × ((rotated_right t x).left x ≡ m)
        × ((rotated_right t x).right x ≡ t.right x)
        × ((rotated_right t x).parent x ≡ y)
  rotated_right_pair n1 n3 n4 n5 = (
    ground (arith, rotated_right-left y),
    ground (arith, rotated_right-right y),
    ground (arith, rotated_right-parent y),
    ground (arith, rotated_right-left x),
    ground (arith, rotated_right-right x),
    ground (arith, rotated_right-parent x),
  )

  -- A node that is none of the four keeps its fields.
  pub rotated_right-SameAt :
      (a : Ptr)
      → a ≢ x
      → a ≢ y
      → (a ≡ m → m ≡ null)
      → (a ≡ xp → xp ≡ null)
      → SameAt t (rotated_right t x) a
  rotated_right-SameAt a nx ny nm np = record {
    left = ground (arith, rotated_right-left a);
    right = ground (arith, rotated_right-right a);
    parent = ground (arith, rotated_right-parent a);
    color = rotated_right-color a;
  }

pub rotated_right-key : (t : Tree) (x a : Ptr) → (rotated_right t x).key a ≡ t.key a
unfolding rotated_right put_right put_left put_parent adopted relinked
rotated_right-key t x a = ground arith

pub rotated_right-rightmost : (t : Tree) (x : Ptr) → (rotated_right t x).rightmost ≡ t.rightmost
unfolding rotated_right put_right put_left put_parent adopted relinked
rotated_right-rightmost t x = ground arith
