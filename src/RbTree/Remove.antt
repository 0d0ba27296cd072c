-- ===== src/RbTree/Remove.antt =====
-- tsl/rbtree.c: rb_tree_remove, with __helper_rb_tree_swap_node and
-- __helper_rb_tree_delete_rebalance. The loops run on fuel.
pub mod Cases
pub mod Lean
pub mod LeanLeft
pub mod LeanRight
pub mod Loop
pub mod Settle
pub mod Unlink
pub mod Swap
pub mod Lists
pub mod Zip
pub mod Finish
pub mod Place
pub mod Alone
pub mod Paired
pub mod Result
pub mod Tests
use trading_base.Base.{
  ℕ, zero, suc, Bool, true, false, ◌&&◌, ◌||◌, not, ◌==◌, if◌then◌else◌, Run, done, stalled, ◌>>=◌,
}
use trading_base.ResultCode.{AResult, a_ok, a_e_badargs}
use trading_base.RbTree.{
  Ptr, null, Color, black, red, is_red, Tree, load, set_left, set_right, set_parent, set_color,
  adopt, replace_child, rotate_left, rotate_right, red_at,
}
use trading_base.RbTree.Neighbours.{find_successor, find_predecessor}

-- The pointer to `x` from its parent, or the root, becomes `y`.
pub take_place : Tree → Ptr → Ptr → Ptr → Run Tree
take_place t parent x y =
    if parent == null
    then done (if t.root == x then record t { root = y } else t)
    else (do pl ← load t.left parent; if pl == x then set_left t parent y else set_right t parent y)

-- `y` takes the place of `x`.
pub swap_node : Tree → Ptr → Ptr → Run Tree
swap_node t x y = do
  left ← load t.left x
  right ← load t.right x
  parent ← load t.parent x
  t ← set_parent t y parent
  t ← take_place t parent x y
  t ← set_right t y right
  t ← adopt t right y
  t ← set_right t x null
  t ← set_left t y left
  t ← adopt t left y
  t ← set_left t x null
  c ← load t.color x
  t ← set_color t y c
  set_parent t x null

-- `p == NULL || p->color == COLOR_BLACK`
abbrev pub black_at : Tree → Ptr → Bool
black_at t p = (p == null) || not (is_red (t.color p))

-- `if (p) p->color = COLOR_BLACK;`
pub blacken : Tree → Ptr → Run Tree
blacken t p = if p == null then done t else set_color t p black

-- `is_left ? xp->right : xp->left`
pub sibling : Tree → Ptr → Bool → Run Ptr
sibling t xp is_left = if is_left then load t.right xp else load t.left xp

-- Case 1: the sibling is red.
pub turn_sibling : Tree → Ptr → Ptr → Bool → Run (Tree × Ptr)
turn_sibling t w xp is_left = do
  t ← set_color t w black
  t ← set_color t xp red
  t ← if is_left then rotate_left t xp else rotate_right t xp
  w' ← sibling t xp is_left
  done (t, w')

-- Case 2: the children of the sibling are black. The loop goes on at the parent.
pub move_up : Tree → Ptr → Ptr → Run (Tree × Ptr × Ptr × Bool)
move_up t w x = do
  t ← if w == null then done t else set_color t w red
  xp ← load t.parent x
  is_left ← if xp == null then done false else (do l ← load t.left xp; done (x == l))
  done (t, x, xp, is_left)

-- Cases 3a and 3b: the red child of the sibling turns to the outer side.
pub borrow : Tree → Ptr → Ptr → Bool → Ptr → Ptr → Run (Tree × Ptr)
borrow t w xp is_left wleft wright =
    if is_left && black_at t wright
    then (do
      t ← set_color t w red
      t ← blacken t wleft
      t ← rotate_right t w
      w' ← load t.right xp
      done (t, w'))
    else if not is_left && black_at t wleft
    then (do
      t ← set_color t w red
      t ← blacken t wright
      t ← rotate_left t w
      w' ← load t.left xp
      done (t, w'))
    else done (t, w)

-- Case 4: the loop ends with `x` at the root.
pub finish_turn : Tree → Ptr → Ptr → Bool → Run (Tree × Ptr × Ptr × Bool)
finish_turn t w xp is_left = do
  wleft ← load t.left w
  wright ← load t.right w
  c ← load t.color xp
  t ← set_color t w c
  t ← set_color t xp black
  t ←
      if is_left && not (wright == null)
      then (do t ← set_color t wright black; rotate_left t xp)
      else if not is_left && not (wleft == null)
      then (do t ← set_color t wleft black; rotate_right t xp)
      else done t
  done (t, t.root, xp, is_left)

-- One round of the loop, after case 1.
pub lean_on : Tree → Ptr → Ptr → Bool → Run (Tree × Ptr × Ptr × Bool)
lean_on t w xp is_left =
    let wleft = if w == null then null else t.left w in
    let wright = if w == null then null else t.right w in
    if black_at t wleft && black_at t wright
    then move_up t w xp
    else (do (t, w) ← borrow t w xp is_left wleft wright; finish_turn t w xp is_left)

-- One round of the loop: the tree, `x`, `xp` and `is_left`.
pub delete_step : Tree → Ptr → Bool → Run (Tree × Ptr × Ptr × Bool)
delete_step t xp is_left = do
  w ← sibling t xp is_left
  (t, w) ← if red_at t w then turn_sibling t w xp is_left else done (t, w)
  lean_on t w xp is_left

pub delete_loop : ℕ → Tree → Ptr → Ptr → Bool → Run (Tree × Ptr)
delete_loop zero t x xp is_left = stalled
delete_loop (suc fuel) t x xp is_left =
    let again : Run (Tree × Ptr) = (do
      (t', x', xp', is_left') ← delete_step t xp is_left
      delete_loop fuel t' x' xp' is_left') in
    if not (x == t.root) && black_at t x then again else done (t, x)

pub delete_rebalance : ℕ → Tree → Ptr → Ptr → Bool → Run Tree
delete_rebalance fuel t x xp is_left = do
  (u, last) ← delete_loop fuel t x xp is_left
  blacken u last

-- The node to unlink: `node`, or its successor where it has two children.
pub choose_victim : ℕ → Tree → Ptr → Run (Tree × Ptr)
choose_victim fuel t node = do
  l ← load t.left node
  r ← load t.right node
  if (l == null) || (r == null)
      then (if node == t.rightmost
          then (do p ← find_predecessor fuel t node; done (record t { rightmost = p }, node))
          else done (t, node))
      else (do y ← find_successor fuel t node; done (t, y))

-- `y` is unlinked: the tree, its child `x`, its parent, and whether it was a left child.
pub unlink : Tree → Ptr → Run (Tree × Ptr × Ptr × Bool)
unlink t y = do
  l ← load t.left y
  r ← load t.right y
  let x = if l == null then r else l
  yp ← load t.parent y
  t ← adopt t x yp
  is_left ← if yp == null then done false else (do pl ← load t.left yp; done (y == pl))
  t ← replace_child t yp y x
  done (t, x, yp, is_left)

-- The links of `node` end as null.
pub clear_links : Tree → Ptr → Run (AResult × Tree)
clear_links t node = do
  t ← set_parent t node null
  t ← set_left t node null
  t ← set_right t node null
  done (a_ok, t)

-- After the unlinking: the swap, the rebalancing, and the links of `node`.
pub finish_remove : ℕ → Ptr → Ptr → Tree × Ptr × Ptr × Bool → Run (AResult × Tree)
finish_remove fuel node y (t, x, yp, is_left) = do
  c ← load t.color y
  (t, xp) ←
      if y == node
      then done (t, yp)
      else (do t ← swap_node t node y; done (t, if yp == node then y else yp))
  t ← if is_red c then done t else delete_rebalance fuel t x xp is_left
  clear_links t node

pub remove_given : ℕ → Tree → Ptr → Run (AResult × Tree)
remove_given fuel t node = do
  (t, y) ← choose_victim fuel t node
  unlinked ← unlink t y
  finish_remove fuel node y unlinked

pub rb_tree_remove : ℕ → Tree → Ptr → Run (AResult × Tree)
rb_tree_remove fuel t node =
    if node == null then done (a_e_badargs, t) else remove_given fuel t node
