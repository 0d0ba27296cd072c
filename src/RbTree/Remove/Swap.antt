-- ===== src/RbTree/Remove/Swap.antt =====
-- __helper_rb_tree_swap_node: a node outside of the tree takes the place of one inside.
pub mod Spelled
use trading_base.Base.{
  ℕ, ◌<◌, ◌≤◌, ◌+◌, List, ap, Bool-cases, inl, inr, ◌⊎◌, ◌≡◌, ◌≢◌, refl, sym, ◌∙◌, [], ◌∷◌, ◌==◌,
  if◌then◌else◌, arith, true, false, Bool, not, ◌&&◌, ◌||◌, Run, done, ◌>>=◌, Ends, ends, Ends-bind,
}
use trading_base.RbTree.{
  Ptr, null, Color, Tree, load, set_left, set_right, set_parent, set_color, adopt,
}
use trading_base.RbTree.Shape.{
  Shape, leaf, node, left_of, right_of, Context, top, above, IsTree, IsContext, Spells, SameAt,
  IsTree-same, IsContext-same, occurs, occurs_in, one,
}
use trading_base.RbTree.Occurs.{IsTree-adopted, occurs-top, occurs-above, top_ne, above_ne, not_top}
use trading_base.RbTree.Writes.{
  load-done, put_parent, put_left, put_right, adopted, adopt-done, set_left-done, set_right-done,
  set_parent-done,
}
use trading_base.RbTree.Focus.{Became, put_color, set_color-done}
use trading_base.RbTree.Remove.{take_place, swap_node}

placed : Tree → Ptr → Ptr → Ptr → Tree
placed t p x y =
    if p == null
    then (if t.root == x then record t { root = y } else t)
    else if t.left p == x
    then put_left t p y
    else put_right t p y

take_place-done : (t : Tree) (p x y : Ptr) → take_place t p x y ≡ done (placed t p x y)
unfolding take_place placed load set_left set_right put_left put_right
take_place-done t p x y = ground arith

-- The memory before the color is copied.
relocated : Tree → Ptr → Ptr → Ptr → Ptr → Ptr → Tree
relocated t x y l r p =
    put_left
      (adopted
        (put_left (put_right (adopted (put_right (placed (put_parent t y p) p x y) y r) r y) x null)
          y l)
        l y)
      x null

pub swapped : Tree → Ptr → Ptr → Tree
swapped t x y =
    let u = relocated t x y (t.left x) (t.right x) (t.parent x) in
    put_parent (put_color u y (u.color x)) x null

pub swap_node-done :
    (t : Tree) (x y : Ptr) → x ≢ null → y ≢ null → swap_node t x y ≡ done (swapped t x y)
unfolding swap_node swapped relocated
swap_node-done t x y nx ny =
    let l = t.left x in
    let r = t.right x in
    let p = t.parent x in
    let t2 = placed (put_parent t y p) p x y in
    let t4 = adopted (put_right t2 y r) r y in
    let t6 = put_left (put_right t4 x null) y l in
    let t8 = put_left (adopted t6 l y) x null in
    rw
      (
        load-done t.left x nx,
        load-done t.right x nx,
        load-done t.parent x nx,
        set_parent-done t y p ny,
        take_place-done (put_parent t y p) p x y,
        set_right-done t2 y r ny,
        adopt-done (put_right t2 y r) r y,
        set_right-done t4 x null nx,
        set_left-done (put_right t4 x null) y l ny,
        adopt-done t6 l y,
        set_left-done (adopted t6 l y) x null nx,
        load-done t8.color x nx,
        set_color-done t8 y (t8.color x) ny,
        set_parent-done (put_color t8 y (t8.color x)) x null nx,
      )
      refl

module _ (t : Tree) (x y l r p : Ptr) (hl : t.left x ≡ l) (hr : t.right x ≡ r) (hp : t.parent x ≡ p)
    (ne : x ≢ y) where
  pub swapped-root :
      (swapped t x y).root ≡ (if p == null then (if t.root == x then y else t.root) else t.root)
  unfolding swapped relocated placed put_right put_left put_parent put_color adopted
  swapped-root = ground arith

  pub swapped-left :
      (a : Ptr)
      → (swapped t x y).left a ≡ (
          if a == x
          then null
          else if a == y
          then l
          else if not (p == null) && (t.left p == x && a == p)
          then y
          else t.left a)
  unfolding swapped relocated placed put_right put_left put_parent put_color adopted
  swapped-left a = ground arith

  pub swapped-right :
      (a : Ptr)
      → (swapped t x y).right a ≡ (
          if a == x
          then null
          else if a == y
          then r
          else if not (p == null) && (not (t.left p == x) && a == p)
          then y
          else t.right a)
  unfolding swapped relocated placed put_right put_left put_parent put_color adopted
  swapped-right a = ground arith

  pub swapped-parent :
      (a : Ptr)
      → (swapped t x y).parent a ≡ (
          if a == x
          then null
          else if not (l == null) && a == l
          then y
          else if not (r == null) && a == r
          then y
          else if a == y
          then p
          else t.parent a)
  unfolding swapped relocated placed put_right put_left put_parent put_color adopted
  swapped-parent a = ground arith

  pub swapped-color :
      (a : Ptr) → (swapped t x y).color a ≡ (if a == y then t.color x else t.color a)
  unfolding swapped relocated placed put_right put_left put_parent put_color adopted
  swapped-color a = ground arith

-- Its fields, one kind of node at a time.
module _ (t : Tree) (x y l r p : Ptr) (hl : t.left x ≡ l) (hr : t.right x ≡ r) (hp : t.parent x ≡ p)
    (ne : x ≢ y) where
  pub swapped-SameAt :
      (a : Ptr)
      → a ≢ x
      → a ≢ y
      → (a ≡ l → l ≡ null)
      → (a ≡ r → r ≡ null)
      → (a ≡ p → p ≡ null)
      → SameAt t (swapped t x y) a
  swapped-SameAt a ax ay al ar ap_ = record {
    left = ground (arith, swapped-left t x y l r p hl hr hp ne a);
    right = ground (arith, swapped-right t x y l r p hl hr hp ne a);
    parent = ground (arith, swapped-parent t x y l r p hl hr hp ne a);
    color = ground (arith, swapped-color t x y l r p hl hr hp ne a);
  }

  -- A child of `x`.
  pub swapped_child :
      (a : Ptr)
      → a ≢ x
      → a ≢ y
      → a ≢ null
      → (a ≡ l) ⊎ (a ≡ r)
      → (a ≡ p → p ≡ null)
      → ((swapped t x y).left a ≡ t.left a)
        × ((swapped t x y).right a ≡ t.right a)
        × ((swapped t x y).color a ≡ t.color a)
        × ((swapped t x y).parent a ≡ y)
  swapped_child a ax ay an side ap_ = (
    ground (arith, swapped-left t x y l r p hl hr hp ne a),
    ground (arith, swapped-right t x y l r p hl hr hp ne a),
    ground (arith, swapped-color t x y l r p hl hr hp ne a),
    ground (arith, swapped-parent t x y l r p hl hr hp ne a),
  )

  -- The node in its place.
  pub swapped_here :
      (y ≡ l → l ≡ null)
      → (y ≡ r → r ≡ null)
      → ((swapped t x y).left y ≡ l)
        × ((swapped t x y).right y ≡ r)
        × ((swapped t x y).parent y ≡ p)
        × ((swapped t x y).color y ≡ t.color x)
  swapped_here yl yr = (
    ground (arith, swapped-left t x y l r p hl hr hp ne y),
    ground (arith, swapped-right t x y l r p hl hr hp ne y),
    ground (arith, swapped-parent t x y l r p hl hr hp ne y),
    ground (arith, swapped-color t x y l r p hl hr hp ne y),
  )

  -- Its parent.
  pub swapped_above :
      p ≢ null
      → p ≢ x
      → p ≢ y
      → (p ≡ l → l ≡ null)
      → (p ≡ r → r ≡ null)
      → ((swapped t x y).left p ≡ (if t.left p == x then y else t.left p))
        × ((swapped t x y).right p ≡ (if t.left p == x then t.right p else y))
        × ((swapped t x y).parent p ≡ t.parent p)
        × ((swapped t x y).color p ≡ t.color p)
  swapped_above pn px py pl pr = (
    ground (arith, swapped-left t x y l r p hl hr hp ne p),
    ground (arith, swapped-right t x y l r p hl hr hp ne p),
    ground (arith, swapped-parent t x y l r p hl hr hp ne p),
    ground (arith, swapped-color t x y l r p hl hr hp ne p),
  )

pub swapped-key : (t : Tree) (x y a : Ptr) → (swapped t x y).key a ≡ t.key a
unfolding swapped relocated placed put_right put_left put_parent put_color adopted
swapped-key t x y a = ground arith

pub swapped-rightmost : (t : Tree) (x y : Ptr) → (swapped t x y).rightmost ≡ t.rightmost
unfolding swapped relocated placed put_right put_left put_parent put_color adopted
swapped-rightmost t x y = ground arith
