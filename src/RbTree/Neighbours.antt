-- ===== src/RbTree/Neighbours.antt =====
-- tsl/rbtree.c and tsl/rbtree.h: the least and the greatest node of a subtree, the nodes next to a
-- node, and the traversal. The loops and the recursion run on fuel. The debug build is meant, in
-- which TSL_ASSERT_ARG_DEBUG checks its argument. The helpers of rbtree.c have twins in rbtree.h,
-- with the same loops.
pub mod Next
pub mod Previous
pub mod Traverse
use trading_base.Base.{ℕ, zero, suc, ◌==◌, if◌then◌else◌, Run, done, stalled, ◌>>=◌}
use trading_base.ResultCode.{AResult, a_ok, a_e_badargs}
use trading_base.RbTree.{Ptr, null, Tree, load}

pub find_minimum : ℕ → Tree → Ptr → Run Ptr
find_minimum zero t x = stalled
find_minimum (suc fuel) t x = do
  l ← load t.left x
  let deeper = find_minimum fuel t l
  if l == null then done x else deeper

pub find_maximum : ℕ → Tree → Ptr → Run Ptr
find_maximum zero t x = stalled
find_maximum (suc fuel) t x = do
  r ← load t.right x
  let deeper = find_maximum fuel t r
  if r == null then done x else deeper

-- `while (y != NULL && x == y->right) { x = y; y = y->parent; }`
pub climb_from_right : ℕ → Tree → Ptr → Ptr → Run Ptr
climb_from_right zero t x y = stalled
climb_from_right (suc fuel) t x y =
    let higher = climb_from_right fuel t y (t.parent y) in
    if y == null then done y else if x == t.right y then higher else done y

pub climb_from_left : ℕ → Tree → Ptr → Ptr → Run Ptr
climb_from_left zero t x y = stalled
climb_from_left (suc fuel) t x y =
    let higher = climb_from_left fuel t y (t.parent y) in
    if y == null then done y else if x == t.left y then higher else done y

pub find_successor : ℕ → Tree → Ptr → Run Ptr
find_successor fuel t x = do
  r ← load t.right x
  if r == null then climb_from_right fuel t x (t.parent x) else find_minimum fuel t r

pub find_predecessor : ℕ → Tree → Ptr → Run Ptr
find_predecessor fuel t x = do
  l ← load t.left x
  if l == null then climb_from_left fuel t x (t.parent x) else find_maximum fuel t l

-- The functions of rbtree.h: `value` is the out-parameter before the call.
pub rb_tree_find_successor : ℕ → Tree → Ptr → Ptr → Run (AResult × Ptr)
rb_tree_find_successor fuel t node value =
    if node == null
    then done (a_e_badargs, value)
    else (do v ← find_successor fuel t node; done (a_ok, v))

pub rb_tree_find_predecessor : ℕ → Tree → Ptr → Ptr → Run (AResult × Ptr)
rb_tree_find_predecessor fuel t node value =
    if node == null
    then done (a_e_badargs, value)
    else (do v ← find_predecessor fuel t node; done (a_ok, v))

pub rb_tree_get_rightmost : Tree → AResult × Ptr
rb_tree_get_rightmost t = (a_ok, t.rightmost)

-- rb_control_t
pub data Control : Type 0 where
  rb_stop rb_continue : Control

-- The callback sees the node and its state, and gives a new state; it leaves the tree alone.
abbrev pub Callback : Type 0 → Type 0
Callback S = Ptr → S → Control × S

-- `if (RB_CONTINUE != (ret = call)) return ret;`, and what follows it.
abbrev pub go_on : {S : Type 0} → Run (Control × S) → (S → Run (Control × S)) → Run (Control × S)
go_on r next = do (ret, s) ← r; elim ret [ rb_stop ↦ done (rb_stop, s) | rb_continue ↦ next s ]

pub traverse_node : {S : Type 0} → ℕ → Tree → Callback S → Ptr → S → Run (Control × S)
traverse_node zero t cb nd s = stalled
traverse_node (suc fuel) t cb nd s =
    let down_left = traverse_node fuel t cb (t.left nd) in
    let down_right = traverse_node fuel t cb (t.right nd) in
    if nd == null
    then done (rb_continue, s)
    else go_on (done (cb nd s)) (λ s'. go_on (down_left s') down_right)

pub rb_tree_traverse : {S : Type 0} → ℕ → Tree → Callback S → S → Run (Control × S)
rb_tree_traverse fuel t cb s = traverse_node fuel t cb t.root s
