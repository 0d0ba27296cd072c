-- ===== src/RbTree/RotateLeft.antt =====
-- __helper_rotate_left: the memory after it, field by field.
pub mod Spelled
use trading_base.Base.{
  ℕ, zero, suc, ◌⊎◌, inl, inr, ◌+◌, ◌≤◌, ◌<◌, ◌≡◌, ◌≢◌, refl, sym, ◌∙◌, List, [], ◌∷◌, ◌==◌,
  if◌then◌else◌, arith, true, false, Bool, not, ◌&&◌, Run, done, Ends, ends, Ends-bind,
}
use trading_base.RbTree.{
  Ptr, null, Color, Tree, update, load, set_left, set_right, set_parent, set_color, adopt,
  replace_child, rotate_left, rotate_right,
}
use trading_base.RbTree.Shape.{
  Shape, leaf, node, Frame, left_of, right_of, Context, top, above, IsTree, IsContext, one, occurs,
  occurs_in, IsLinear, Spells, SameAt, IsTree-same, IsContext-same,
}
use trading_base.RbTree.Writes.{
  load-done, put_left, put_right, put_parent, adopted, relinked, set_left-done, set_right-done,
  set_parent-done, adopt-done, replace_child-done, adopted-parent,
}

-- The memory after a rotation of `x` to the left.
unfoldable pub rotated_left : Tree → Ptr → Tree
rotated_left t x =
    let y = t.right x in
    let m = t.left y in
    let xp = t.parent x in
    put_parent (put_left (relinked (put_parent (adopted (put_right t x m) m x) y xp) xp x y) y x) x
      y

pub rotate_left-done :
    (t : Tree) (x : Ptr)
    → x ≢ null
    → t.right x ≢ null
    → t.left (t.right x) ≢ x
    → rotate_left t x ≡ done (rotated_left t x)
unfolding rotate_left rotated_left
rotate_left-done t x hx hy hm =
    let y = t.right x in
    let m = t.left y in
    let t1 = put_right t x m in
    rw (
      load-done t.right x hx,
      load-done t.left y hy,
      set_right-done t x m hx,
      adopt-done t1 m x,
      load-done (adopted t1 m x).parent x hx,
      (adopted-parent t x m hm).0,
      set_parent-done (adopted t1 m x) y (t.parent x) hy,
      replace_child-done (put_parent (adopted t1 m x) y (t.parent x)) (t.parent x) x y,
      set_left-done (relinked (put_parent (adopted t1 m x) y (t.parent x)) (t.parent x) x y) y x hy,
      set_parent-done
          (put_left (relinked (put_parent (adopted t1 m x) y (t.parent x)) (t.parent x) x y) y x) x
          y hx,
    )

-- The fields after the rotation, one by one.
module _ (t : Tree) (x y m xp : Ptr) (hy : t.right x ≡ y) (hm : t.left y ≡ m)
    (hp : t.parent x ≡ xp) where
  pub rotated_left-root : (rotated_left t x).root ≡ (if xp == null then y else t.root)
  unfolding rotated_left put_left put_right put_parent adopted relinked
  rotated_left-root = ground arith

  pub rotated_left-left :
      (a : Ptr)
      → (rotated_left t x).left a ≡ (
          if a == y
          then x
          else if not (xp == null) && (x == t.left xp && a == xp)
          then y
          else t.left a)
  unfolding rotated_left put_left put_right put_parent adopted relinked
  rotated_left-left a = ground arith

  pub rotated_left-right :
      (a : Ptr)
      → (rotated_left t x).right a ≡ (
          if not (xp == null) && (not (x == t.left xp) && a == xp)
          then y
          else if a == x
          then m
          else t.right a)
  unfolding rotated_left put_left put_right put_parent adopted relinked
  rotated_left-right a = ground arith

  pub rotated_left-parent :
      (a : Ptr)
      → (rotated_left t x).parent a ≡ (
          if a == x
          then y
          else if a == y
          then xp
          else if not (m == null) && a == m
          then x
          else t.parent a)
  unfolding rotated_left put_left put_right put_parent adopted relinked
  rotated_left-parent a = ground arith

  pub rotated_left-color : (a : Ptr) → (rotated_left t x).color a ≡ t.color a
  unfolding rotated_left put_left put_right put_parent adopted relinked
  rotated_left-color a = ground arith

  -- The two nodes that turn.
  pub rotated_left_pair :
      x ≢ y
      → xp ≢ x
      → xp ≢ y
      → m ≢ x
      → m ≢ y
      → ((rotated_left t x).left y ≡ x)
        × ((rotated_left t x).right y ≡ t.right y)
        × ((rotated_left t x).parent y ≡ xp)
        × ((rotated_left t x).left x ≡ t.left x)
        × ((rotated_left t x).right x ≡ m)
        × ((rotated_left t x).parent x ≡ y)
  rotated_left_pair n1 n2 n3 n4 n5 = (
    ground (arith, rotated_left-left y),
    ground (arith, rotated_left-right y),
    ground (arith, rotated_left-parent y),
    ground (arith, rotated_left-left x),
    ground (arith, rotated_left-right x),
    ground (arith, rotated_left-parent x),
  )

  -- A node that is none of the four keeps its fields.
  pub rotated_left-SameAt :
      (a : Ptr)
      → a ≢ x
      → a ≢ y
      → (a ≡ m → m ≡ null)
      → (a ≡ xp → xp ≡ null)
      → SameAt t (rotated_left t x) a
  rotated_left-SameAt a nx ny nm np = record {
    left = ground (arith, rotated_left-left a);
    right = ground (arith, rotated_left-right a);
    parent = ground (arith, rotated_left-parent a);
    color = rotated_left-color a;
  }

pub rotated_left-key : (t : Tree) (x a : Ptr) → (rotated_left t x).key a ≡ t.key a
unfolding rotated_left put_right put_left put_parent adopted relinked
rotated_left-key t x a = ground arith

pub rotated_left-rightmost : (t : Tree) (x : Ptr) → (rotated_left t x).rightmost ≡ t.rightmost
unfolding rotated_left put_right put_left put_parent adopted relinked
rotated_left-rightmost t x = ground arith
