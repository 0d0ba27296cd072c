-- ===== src/RbTree/Insert.antt =====
-- tsl/rbtree.c: rb_tree_find, rb_tree_insert and rb_tree_find_or_insert. The loops that go down run
-- on fuel. The out-parameter is not NULL.
pub mod Down
pub mod Link
pub mod Whole
pub mod Result
pub mod Find
pub mod Unset
pub mod Probe
pub mod Placed
use trading_base.Base.{
  ℕ, zero, suc, Bool, true, false, ◌&&◌, ◌||◌, not, ◌==◌, if◌then◌else◌, Run, done, fault, stalled,
  ◌>>=◌,
}
use trading_base.Base.Int.{ℤ, is_neg, is_pos, is_zero}
use trading_base.ResultCode.{AResult, a_ok, a_e_badargs, a_e_notfound, a_e_busy}
use trading_base.RbTree.{
  Ptr, null, Color, black, red, Tree, load, set_left, set_right, set_parent, set_color, set_key,
  insert_rebalance,
}
use trading_base.RbTree.Sorted.{Compare}

-- The node with the key, or NULL.
pub find_loop : Compare → ℕ → Tree → Ptr → Ptr → Run Ptr
find_loop compare zero t key nd = stalled
find_loop compare (suc fuel) t key nd =
    let c = compare key (t.key nd) in
    let go_left = find_loop compare fuel t key (t.left nd) in
    let go_right = find_loop compare fuel t key (t.right nd) in
    if nd == null
    then done null
    else if is_neg c
    then go_left
    else if is_zero c
    then done nd
    else go_right

-- The last argument is `*value` before the call, and the second part of the result `*value` after it.
unfoldable pub rb_tree_find : Compare → ℕ → Tree → Ptr → Ptr → Run (AResult × Ptr)
rb_tree_find compare fuel t key value =
    if key == null
    then done (a_e_badargs, value)
    else if t.root == null
    then done (a_e_notfound, null)
    else (do
      nd ← find_loop compare fuel t key t.root
      if nd == null then done (a_e_notfound, null) else done (a_ok, nd))

-- The way down ends at a node with an equal key, or below `nd`, where the new node has been linked.
pub data Descent : Type 0 where
  taken : Descent
  linked : Tree → Ptr → Bool → Descent

pub insert_loop : Compare → ℕ → Tree → Ptr → Ptr → Bool → Run Descent
insert_loop compare zero t node nd rightmost = stalled
insert_loop compare (suc fuel) t node nd rightmost =
    let c = compare (t.key node) (t.key nd) in
    let go_left = insert_loop compare fuel t node (t.left nd) false in
    let go_right = insert_loop compare fuel t node (t.right nd) rightmost in
    let link_left : Run Descent = (do t' ← set_left t nd node; done (linked t' nd false)) in
    let link_right : Run Descent = (do t' ← set_right t nd node; done (linked t' nd rightmost)) in
    if nd == null
    then done (linked t nd rightmost)
    else if is_zero c
    then done taken
    else if is_neg c
    then (if t.left nd == null then link_left else go_left)
    else (if t.right nd == null then link_right else go_right)

-- What follows the loop.
pub finish_insert : ℕ → Tree → Ptr → Descent → Run (AResult × Tree)
finish_insert fuel t node taken = done (a_e_busy, t)
finish_insert fuel t node (linked t' nd rightmost) = do
  u ← set_parent t' node nd
  let u' = if rightmost then record u { rightmost = node } else u
  v ← insert_rebalance fuel u' node
  done (a_ok, v)

-- The first node of an empty tree.
pub insert_first : Tree → Ptr → Run (AResult × Tree)
insert_first t node = do
  u ← set_color (record t { root = node; rightmost = node }) node black
  done (a_ok, u)

-- The call with its arguments checked.
pub insert_given : Compare → ℕ → Tree → Ptr → Ptr → Run (AResult × Tree)
insert_given compare fuel t key node = do
  t ← set_key t node key
  if t.root == null then insert_first t node else (do
    t ← set_color t node red
    d ← insert_loop compare fuel t node t.root true
    finish_insert fuel t node d)

pub rb_tree_insert : Compare → ℕ → Tree → Ptr → Ptr → Run (AResult × Tree)
rb_tree_insert compare fuel t key node =
    if node == null then done (a_e_badargs, t) else insert_given compare fuel t key node

-- Where the loop of rb_tree_find_or_insert stops: `node`, `node_prev`, whether `dir` is 1, `rightmost`.
pub data Arrival : Type 0 where
  arrived : Ptr → Ptr → Bool → Bool → Arrival

pub probe_loop : Compare → ℕ → Tree → Ptr → Ptr → Ptr → Bool → Bool → Run Arrival
probe_loop compare zero t key nd prev dir rightmost = stalled
probe_loop compare (suc fuel) t key nd prev dir rightmost =
    let c = compare key (t.key nd) in
    let go_left = probe_loop compare fuel t key (t.left nd) nd false false in
    let go_right = probe_loop compare fuel t key (t.right nd) nd true rightmost in
    if nd == null
    then done (arrived nd prev dir rightmost)
    else if is_neg c
    then go_left
    else if is_zero c
    then done (arrived nd prev dir rightmost)
    else go_right

-- What follows the loop. The middle part of the result is `*value`.
pub settle_candidate : ℕ → Tree → Ptr → Arrival → Run (AResult × Ptr × Tree)
settle_candidate fuel t candidate (arrived nd prev dir rightmost) =
    if nd == null
    then (do
      t ← if dir then set_right t prev candidate else set_left t prev candidate
      t ← set_parent t candidate prev
      t ← set_color t candidate red
      let u = if rightmost then record t { rightmost = candidate } else t
      v ← insert_rebalance fuel u candidate
      done (a_ok, candidate, v))
    else done (a_ok, nd, t)

pub place_given : Compare → ℕ → Tree → Ptr → Ptr → Run (AResult × Ptr × Tree)
place_given compare fuel t key candidate = do
  t ← set_key t candidate key
  if t.root == null
      then (do (code, u) ← insert_first t candidate; done (code, candidate, u))
      else (do
        a ← probe_loop compare fuel t key t.root null false true
        settle_candidate fuel t candidate a)

pub rb_tree_find_or_insert : Compare → ℕ → Tree → Ptr → Ptr → Ptr → Run (AResult × Ptr × Tree)
rb_tree_find_or_insert compare fuel t key candidate value =
    if candidate == null
    then done (a_e_badargs, value, t)
    else place_given compare fuel t key candidate
