-- ===== src/RbTree/Tests.antt =====
-- The red-black tree on small trees.
use trading_base.Base.{
  List, ℕ, done, ◌==◌, ◌≡◌, ltb, if◌then◌else◌, Ends, ◌*◌, ◌+◌, refl, [], ◌∷◌, arith,
}
use trading_base.Base.Int.{pos, negsuc}
use trading_base.RbTree.{black, red, Tree}
use trading_base.RbTree.Shape.{leaf, node, right_of, Spells}
use trading_base.RbTree.Sorted.{Compare, IsOrder}
use trading_base.RbTree.Valid.{IsRbTree}
use trading_base.RbTree.Insert.Placed.{Placed, rb_tree_find_or_insert-Placed}
use trading_base.RbTree.Insert.{rb_tree_find_or_insert, rb_tree_insert, rb_tree_find}
use trading_base.RbTree.Neighbours.Traverse.{rb_tree_traverse-visit}
use trading_base.RbTree.Neighbours.{Callback, rb_continue, rb_tree_traverse}
use trading_base.RbTree.Insert.Whole.{Inserted}
use trading_base.RbTree.Insert.Result.{rb_tree_insert-Inserted}
use trading_base.RbTree.Insert.Find.{Found, rb_tree_find-Found}
use trading_base.RbTree.Insert.Unset.{Misplaced, rb_tree_insert_unset}

abbrev pub by_number : Compare
by_number a b = if ltb a b then negsuc 0 else if a == b then pos 0 else pos 1

by_number-IsOrder : IsOrder by_number
by_number-IsOrder = record {
  trans = λ a b c p q. ground arith;
  flip = λ a b p. ground arith;
  back = λ a b p. ground arith;
}

-- Node 1 with key 10 above node 2 with key 20, both with free links otherwise.
abbrev pub pair : Tree
pair = record {
  root = 1;
  rightmost = 2;
  left = λ a. 0;
  right = λ a. if a == 1 then 2 else 0;
  parent = λ a. if a == 2 then 1 else 0;
  key = λ a. 10 * a;
  color = λ a. if a == 2 then red else black;
}

pub pair-Spells : Spells pair (node 1 black leaf (node 2 red leaf leaf)) []
pair-Spells = record {
  tree = (ground arith, refl, refl, refl, refl, tt, (ground arith, refl, refl, refl, refl, tt, tt));
  context = refl;
  linear = λ a. ground arith;
}

pub pair-IsRbTree : IsRbTree by_number pair (1 ∷ 2 ∷ [])
pair-IsRbTree = record {
  shape = node 1 black leaf (node 2 red leaf leaf);
  height = 1;
  spells = pair-Spells;
  black_root = tt;
  balanced = (0, refl, refl, (tt, tt, refl, refl));
  order = refl;
  sorted = ((refl, tt), (tt, tt));
  rightmost = refl;
}

rb_tree_insert-Inserted_example :
    Ends (Inserted by_number pair (1 ∷ 2 ∷ []) 30 3) (rb_tree_insert by_number 3 pair 30 3)
rb_tree_insert-Inserted_example =
    rb_tree_insert-Inserted by_number by_number-IsOrder pair (1 ∷ 2 ∷ []) 30 3 pair-IsRbTree
      (ground arith) (ground arith, (ground arith, tt)) refl refl refl 3 (omega arith)

rb_tree_find_or_insert-Placed_example :
    Ends (Placed by_number pair (1 ∷ 2 ∷ []) 15 3) (rb_tree_find_or_insert by_number 3 pair 15 3 0)
rb_tree_find_or_insert-Placed_example =
    rb_tree_find_or_insert-Placed by_number by_number-IsOrder pair (1 ∷ 2 ∷ []) 15 3 pair-IsRbTree
      (ground arith) (ground arith, (ground arith, tt)) refl refl refl 3 0 (omega arith)

rb_tree_find-Found_example :
    Ends
      (Found by_number by_number-IsOrder pair 20 (1 ∷ 2 ∷ []))
      (rb_tree_find by_number 3 pair 20 0)
rb_tree_find-Found_example =
    rb_tree_find-Found by_number by_number-IsOrder pair 20 3 (1 ∷ 2 ∷ []) 0 (ground arith)
      pair-IsRbTree (omega arith)

-- Node 2 above node 1.
abbrev mirrored : Tree
mirrored = record {
  root = 2;
  rightmost = 2;
  left = λ a. if a == 2 then 1 else 0;
  right = λ a. 0;
  parent = λ a. if a == 1 then 2 else 0;
  key = λ a. 10 * a;
  color = λ a. if a == 1 then red else black;
}

mirrored-Spells : Spells mirrored (node 2 black (node 1 red leaf leaf) leaf) []
mirrored-Spells = record {
  tree = (ground arith, refl, refl, refl, refl, (ground arith, refl, refl, refl, refl, tt, tt), tt);
  context = refl;
  linear = λ a. ground arith;
}

-- Nodes 1, 2 and 3 in a row, with two red nodes.
abbrev row : Tree
row = record {
  root = 1;
  rightmost = 3;
  left = λ a. 0;
  right = λ a. if a == 1 then 2 else if a == 2 then 3 else 0;
  parent = λ a. if a == 2 then 1 else if a == 3 then 2 else 0;
  key = λ a. 10 * a;
  color = λ a. if a == 1 then black else red;
}

row-Spells : Spells row (node 3 red leaf leaf) (right_of 2 red leaf ∷ right_of 1 black leaf ∷ [])
row-Spells = record {
  tree = (ground arith, refl, refl, refl, refl, tt, tt);
  context =
      (ground arith, refl, refl, refl, refl, tt, (ground arith, refl, refl, refl, refl, tt, refl));
  linear = λ a. ground arith;
}

-- An empty tree, and memory that is not zero.
abbrev unset : Tree
unset = record {
  root = 0;
  rightmost = 0;
  left = λ a. 7;
  right = λ a. 7;
  parent = λ a. 7;
  key = λ a. 7;
  color = λ a. red;
}

rb_tree_insert_unset_example :
    Ends (Misplaced by_number unset 5) (rb_tree_insert by_number 0 unset 50 5)
rb_tree_insert_unset_example =
    rb_tree_insert_unset by_number 0 unset 50 5 refl (ground arith) (ground arith)

-- Adds up the numbers of the nodes.
abbrev add_up : Callback ℕ
add_up a s = (rb_continue, a + s)

rb_tree_traverse-visit_example : rb_tree_traverse 3 pair add_up 0 ≡ done (rb_continue, 3)
rb_tree_traverse-visit_example =
    rb_tree_traverse-visit pair add_up 3 (node 1 black leaf (node 2 red leaf leaf)) 0 (omega arith)
      pair-Spells

abbrev two_nodes : List ℕ
two_nodes = 1 ∷ 2 ∷ []
