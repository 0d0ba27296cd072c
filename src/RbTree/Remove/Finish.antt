-- ===== src/RbTree/Remove/Finish.antt =====
-- rb_tree_remove: the tree without the unlinked node is balanced again.
use trading_base.Base.{
  ℕ, ◌<◌, ◌≡◌, refl, sym, inl, [], ◌∷◌, ◌++◌, length, Ends, ends, if◌then◌else◌, done,
}
use mathlib.Core.List.{append-nil}
use trading_base.RbTree.{Ptr, Color, black, red, is_red, Tree}
use trading_base.RbTree.Shape.{Shape, leaf, node, Context, top, above, Spells}
use trading_base.RbTree.Balance.{IsBlack, IsBalanced, Fits, plug, inorder, plug-IsBalanced}
use trading_base.RbTree.Focus.{plugged}
use trading_base.RbTree.Rebalance.{Rebuilt, plug-IsBlack}
use trading_base.RbTree.Remove.{delete_rebalance}
use trading_base.RbTree.Remove.Cases.{went_left}
use trading_base.RbTree.Remove.Lean.{IsLoose}
use trading_base.RbTree.Remove.Settle.{delete_rebalance-Rebuilt}
use trading_base.RbTree.Remove.Unlink.{only, HasRoom}

loosen : (n : ℕ) (s : Shape) → IsBalanced n s → IsLoose n s
loosen n leaf h = h
loosen n (node p black l r) h = h
loosen n (node p red l r) (bl, br, hl, hr) = (hl, hr)

only-IsBalanced : (n : ℕ) (l r : Shape) → IsBalanced n l → IsBalanced n r → IsBalanced n (only l r)
only-IsBalanced n leaf r hl hr = hr
only-IsBalanced n (node p c a b) r hl hr = hl

only-IsBlack : (l r : Shape) → IsBlack l → IsBlack r → IsBlack (only l r)
only-IsBlack leaf r hl hr = hr
only-IsBlack (node p c a b) r hl hr = hl

pub inorder-only : (l r : Shape) → HasRoom l r → inorder (only l r) ≡ inorder l ++ inorder r
inorder-only leaf r h = refl
inorder-only (node p c a b) leaf h = sym (append-nil (inorder (node p c a b)))
inorder-only (node p c a b) (node q d e f) h = absurd h

plugged-IsBlack : (n : ℕ) (s : Shape) (k : Context) → IsBlack s → Fits n k → IsBlack (plug s k)
plugged-IsBlack n s [] h f = h
plugged-IsBlack n s (g ∷ k) h f = plug-IsBlack s g k n f

-- A black node less is made up for.
pub settle-Rebuilt :
    (fuel : ℕ) (u : Tree) (y : Ptr) (c : Color) (l r : Shape) (k : Context) (n : ℕ)
    → Spells u (only l r) k
    → IsBalanced n (node y c l r)
    → Fits n k
    → length k < fuel
    → Ends (Rebuilt u (inorder (plug (only l r) k))) (
        if is_red c
        then done u
        else delete_rebalance fuel u (top (only l r)) (above k) (went_left k))
settle-Rebuilt fuel u y red l r k n h (bl, br, hl, hr) f enough =
    let b = only-IsBlack l r bl br in
    let (m, whole) = plug-IsBalanced n (only l r) k (only-IsBalanced n l r hl hr) f (inl b) in
    ends (record {
      shape = plug (only l r) k;
      height = m;
      became = record { spells = plugged u _ k h; keys = λ a. refl; rightmost = refl };
      black_root = plugged-IsBlack n (only l r) k b f;
      balanced = whole;
      order = refl;
    })
settle-Rebuilt fuel u y black l r k n h (m, e, hl, hr) f enough =
    delete_rebalance-Rebuilt fuel u (only l r) k m h (loosen m _ (only-IsBalanced m l r hl hr))
      (rw e at f) enough
