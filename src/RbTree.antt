-- ===== src/RbTree.antt =====
-- tsl/rbtree.h and tsl/rbtree.c: an intrusive red-black tree with parent pointers. The nodes live in
-- memory of the caller; each field of `struct rb_tree_node` is a function of the node's address.
-- An address is a number and NULL is 0; an access through NULL is a fault. Loops run on fuel.
-- The comparison callback, with its state, is a parameter. The struct pointers of the tree, the
-- out-parameters and the node arguments are not NULL.
pub mod Shape
pub mod Occurs
pub mod Writes
pub mod RotateLeft
pub mod RotateRight
pub mod Balance
pub mod Focus
pub mod Steps
pub mod Rounds
pub mod Rebalance
pub mod Sorted
pub mod Valid
pub mod Insert
pub mod Neighbours
pub mod Lifecycle
pub mod Remove
mod Tests
use trading_base.Base.{
  ℕ, zero, suc, Bool, true, false, ◌&&◌, ◌||◌, not, ◌==◌, if◌then◌else◌, Run, done, fault, stalled,
  ◌>>=◌,
}
use trading_base.Base.Int.{ℤ, is_neg, is_pos}
use trading_base.ResultCode.{AResult, a_ok, a_e_notfound, a_e_busy}

abbrev pub Ptr : Type 0
Ptr = ℕ

abbrev pub null : Ptr
null = 0

pub data Color : Type 0 where
  black red : Color

abbrev pub is_red : Color → Bool
is_red black = false
is_red red = true

-- `root` and `rightmost` of struct rb_tree, and the fields of every struct rb_tree_node.
pub record Tree : Type 0 where
  pub root : Ptr
  pub rightmost : Ptr
  pub left : Ptr → Ptr
  pub right : Ptr → Ptr
  pub parent : Ptr → Ptr
  pub key : Ptr → Ptr
  pub color : Ptr → Color

-- The memory after a write at `p`.
abbrev pub update {ℓ} : {A : Type ℓ} → (Ptr → A) → Ptr → A → Ptr → A
update f p v q = if q == p then v else f q

-- A read of a field of `*p`.
unfoldable pub load {ℓ} : {A : Type ℓ} → (Ptr → A) → Ptr → Run A
load f p = if p == null then fault else done (f p)

-- The writes `p->left = v` and so on.
unfoldable pub set_left : Tree → Ptr → Ptr → Run Tree
set_left t p v = if p == null then fault else done (record t { left = update t.left p v })

unfoldable pub set_right : Tree → Ptr → Ptr → Run Tree
set_right t p v = if p == null then fault else done (record t { right = update t.right p v })

unfoldable pub set_parent : Tree → Ptr → Ptr → Run Tree
set_parent t p v = if p == null then fault else done (record t { parent = update t.parent p v })

unfoldable pub set_color : Tree → Ptr → Color → Run Tree
set_color t p v = if p == null then fault else done (record t { color = update t.color p v })

unfoldable pub set_key : Tree → Ptr → Ptr → Run Tree
set_key t p v = if p == null then fault else done (record t { key = update t.key p v })

-- `if (p != NULL) p->parent = v;`
unfoldable pub adopt : Tree → Ptr → Ptr → Run Tree
unfolding set_parent
adopt t p v = if p == null then done t else set_parent t p v

-- The node `y` takes the place of `x` below `xp`, or at the root.
unfoldable pub replace_child : Tree → Ptr → Ptr → Ptr → Run Tree
unfolding load set_left set_right
replace_child t xp x y =
    if xp == null
    then done (record t { root = y })
    else (do l ← load t.left xp; if x == l then set_left t xp y else set_right t xp y)

unfoldable pub rotate_left : Tree → Ptr → Run Tree
unfolding load set_right set_left set_parent adopt replace_child
rotate_left t x = do
  y ← load t.right x
  yleft ← load t.left y
  t ← set_right t x yleft
  t ← adopt t yleft x
  xp ← load t.parent x
  t ← set_parent t y xp
  t ← replace_child t xp x y
  t ← set_left t y x
  set_parent t x y

unfoldable pub rotate_right : Tree → Ptr → Run Tree
unfolding load set_right set_left set_parent adopt replace_child
rotate_right t x = do
  y ← load t.left x
  yright ← load t.right y
  t ← set_left t x yright
  t ← adopt t yright x
  xp ← load t.parent x
  t ← set_parent t y xp
  t ← replace_child t xp x y
  t ← set_right t y x
  set_parent t x y

-- `p != NULL && p->color == COLOR_RED`
unfoldable pub red_at : Tree → Ptr → Bool
red_at t p = not (p == null) && is_red (t.color p)

-- The loop test of __helper_rb_tree_insert_rebalance.
unfoldable pub must_fix : Tree → Ptr → Bool
must_fix t pnode =
    not (t.root == pnode) && (not (t.parent pnode == null) && is_red (t.color (t.parent pnode)))

-- Case 3: recolor, and rotate the grandparent.
pub fix_outer : Tree → Ptr → Bool → Run Tree
fix_outer t pnode uncle_is_left = do
  parent ← load t.parent pnode
  t ← set_color t parent black
  grandparent ← load t.parent parent
  t ← set_color t grandparent red
  if uncle_is_left then rotate_left t grandparent else rotate_right t grandparent

-- `assert(pnode->color == COLOR_RED);`
pub assert_red : Color → Run (Unit {0})
assert_red black = fault
assert_red red = done tt

infixl 5 ◌>>◌
abbrev pub ◌>>◌ {ℓ} : {A : Type ℓ} → Run (Unit {0}) → Run A → Run A
m >> k = m >>= λ _. k

-- Case 1: the uncle is red.
pub fix_red : Tree → Ptr → Ptr → Ptr → Run (Tree × Ptr)
fix_red t parent uncle grandparent = do
  t ← set_color t parent black
  t ← set_color t uncle black
  t ← set_color t grandparent red
  done (t, grandparent)

-- Cases 2 and 3: a node on the uncle's side is first rotated to the outer side.
pub fix_black : Tree → Ptr → Ptr → Bool → Run (Tree × Ptr)
fix_black t pnode parent uncle_is_left = do
  pl ← load t.left parent
  pr ← load t.right parent
  if not uncle_is_left && pr == pnode
      then (do t ← rotate_left t parent; t ← fix_outer t parent uncle_is_left; done (t, parent))
      else if uncle_is_left && pl == pnode
      then (do t ← rotate_right t parent; t ← fix_outer t parent uncle_is_left; done (t, parent))
      else (do t ← fix_outer t pnode uncle_is_left; done (t, pnode))

-- One round of the loop: the tree and the next `pnode`.
unfoldable pub fix_step : Tree → Ptr → Run (Tree × Ptr)
fix_step t pnode = do
  parent ← load t.parent pnode
  own ← load t.color pnode
  assert_red own
  grandparent ← load t.parent parent
  gl ← load t.left grandparent
  gr ← load t.right grandparent
  let uncle = if parent == gl then gr else gl
  if red_at t uncle
      then fix_red t parent uncle grandparent
      else fix_black t pnode parent (not (parent == gl))

pub fix_loop : ℕ → Tree → Ptr → Run Tree
fix_loop zero t pnode = stalled
fix_loop (suc k) t pnode =
    let again : Run Tree = (do (t', next) ← fix_step t pnode; fix_loop k t' next) in
    if must_fix t pnode then again else done t

unfoldable pub insert_rebalance : ℕ → Tree → Ptr → Run Tree
insert_rebalance fuel t node = do
  up ← load t.parent node
  if not (up == null) && is_red (t.color up)
      then (do t ← fix_loop fuel t node; set_color t t.root black)
      else done t
