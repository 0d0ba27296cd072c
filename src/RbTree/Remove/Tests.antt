-- ===== src/RbTree/Remove/Tests.antt =====
-- rb_tree_remove on small trees.
use trading_base.Base.{refl, [], ◌∷◌, ◌==◌, if◌then◌else◌, ◌*◌, arith, Ends, true}
use trading_base.RbTree.{black, Tree}
use trading_base.RbTree.Shape.{leaf, node, left_of, Spells}
use trading_base.RbTree.Rebalance.{Rebuilt}
use trading_base.RbTree.Tests.{by_number, pair, pair-IsRbTree}
use trading_base.RbTree.Remove.{rb_tree_remove, delete_rebalance}
use trading_base.RbTree.Remove.Settle.{delete_rebalance-Rebuilt}
use trading_base.RbTree.Remove.Place.{Removed}
use trading_base.RbTree.Remove.Result.{rb_tree_remove-Removed}

rb_tree_remove-Removed_example :
    Ends (Removed by_number pair (1 ∷ 2 ∷ []) 1) (rb_tree_remove 3 pair 1)
rb_tree_remove-Removed_example =
    rb_tree_remove-Removed by_number pair (1 ∷ 2 ∷ []) 1 3 [] (2 ∷ []) pair-IsRbTree refl
      (omega arith)

-- Node 1 above node 2, both black: the left side has one black node too few.
abbrev leaning : Tree
leaning = record {
  root = 1;
  rightmost = 2;
  left = λ a. 0;
  right = λ a. if a == 1 then 2 else 0;
  parent = λ a. if a == 2 then 1 else 0;
  key = λ a. 10 * a;
  color = λ a. black;
}

leaning-Spells : Spells leaning leaf (left_of 1 black (node 2 black leaf leaf) ∷ [])
leaning-Spells = record {
  tree = tt;
  context =
      (ground arith, refl, refl, refl, refl, (ground arith, refl, refl, refl, refl, tt, tt), refl);
  linear = λ a. ground arith;
}

delete_rebalance-Rebuilt_example :
    Ends (Rebuilt leaning (1 ∷ 2 ∷ [])) (delete_rebalance 2 leaning 0 1 true)
delete_rebalance-Rebuilt_example =
    delete_rebalance-Rebuilt 2 leaning leaf (left_of 1 black (node 2 black leaf leaf) ∷ []) 0
      leaning-Spells refl ((0, refl, refl, refl), tt) (omega arith)
