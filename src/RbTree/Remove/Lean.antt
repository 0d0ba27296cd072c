-- ===== src/RbTree/Remove/Lean.antt =====
-- __helper_rb_tree_delete_rebalance: what a round of the loop may end with.
use trading_base.Base.{
  ℕ, suc, ◌<◌, ◌⊎◌, inl, inr, List, length, ◌≡◌, ◌≢◌, refl, ◌∙◌, [], ◌∷◌, ◌==◌, if◌then◌else◌,
  arith, true, false, Bool, not, ◌&&◌, ◌>>=◌,
}
use trading_base.RbTree.{Ptr, null, Color, black, red, Tree}
use trading_base.RbTree.Shape.{Shape, leaf, node, Context, top, IsTree}
use trading_base.RbTree.Balance.{
  IsBlack, IsBelowBlack, IsBalanced, Fits, plug, inorder, around, plug-IsBalanced, inorder-plug,
}
use trading_base.RbTree.Steps.{is_red_top}
use trading_base.RbTree.Rebalance.{plug-IsBlack}
use trading_base.RbTree.Focus.{plugged, Became}
use trading_base.RbTree.Remove.{black_at, borrow, move_up, finish_turn, lean_on}
use trading_base.RbTree.Remove.Cases.{Going}

-- `n` black nodes on each path, where a red top may stand above red nodes.
abbrev pub IsLoose : ℕ → Shape → Type 0
IsLoose n leaf = n ≡ 0
IsLoose n (node p black l r) = IsBalanced n (node p black l r)
IsLoose n (node p red l r) = IsBalanced n l × IsBalanced n r

-- The place of a node of color `c` above subtrees with `n` black nodes.
abbrev pub Takes : ℕ → Color → Context → Type 0
Takes n black k = Fits (suc n) k
Takes n red k = IsBelowBlack k × Fits n k

-- The loop at a focus that has one black node too few; `d` bounds the rounds that are left.
pub record Lacking (t : Tree) (xs : List Ptr) (d : ℕ) (r : Tree × Ptr × Ptr × Bool) : Type 0 where
  pub s : Shape
  pub k : Context
  pub n : ℕ
  pub at : Going t s k r
  pub loose : IsLoose n s
  pub fits : Fits (suc n) k
  pub order : around k (inorder s) ≡ xs
  pub depth : (length k < d) ⊎ ((is_red_top s ≡ true) × (0 < d))

-- The loop at the root of a red-black tree.
pub record Mended (t : Tree) (xs : List Ptr) (u : Tree) (x : Ptr) : Type 0 where
  pub shape : Shape
  pub height : ℕ
  pub became : Became t shape [] u
  pub black_root : IsBlack shape
  pub balanced : IsBalanced height shape
  pub order : inorder shape ≡ xs
  pub at_root : x ≡ u.root

pub data Round (t : Tree) (xs : List Ptr) (d : ℕ) : Tree × Ptr × Ptr × Bool → Type 0 where
  lacking : {r : Tree × Ptr × Ptr × Bool} → Lacking t xs d r → Round t xs d r
  mended : {u : Tree} {x xp : Ptr} {il : Bool} → Mended t xs u x → Round t xs d (u, x, xp, il)

pub lean_on-at :
    (t : Tree) (w xp a b : Ptr) (il : Bool)
    → w ≢ null
    → t.left w ≡ a
    → t.right w ≡ b
    → lean_on t w xp il ≡ (
        if black_at t a && black_at t b
        then move_up t w xp
        else (borrow t w xp il a b >>= λ (u, v). finish_turn u v xp il))
unfolding lean_on
lean_on-at t w xp a b il nw ha hb =
    let given : (w == null) ≡ false = ground arith in rw (given, ha, hb) refl

pub black_at-top :
    (t : Tree) (up : Ptr) (s : Shape) → IsTree t up s → black_at t (top s) ≡ not (is_red_top s)
black_at-top t up leaf h = refl
black_at-top t up (node p c l r) h = rw (h.4) (ground (arith, h.0))

-- The node on top of the turn takes the color of the parent.
pub whole :
    (t : Tree) (xs : List Ptr) (w : Ptr) (c : Color) (l r : Shape) (k : Context) (n : ℕ) (u : Tree)
    (x : Ptr)
    → IsBlack l
    → IsBlack r
    → IsBalanced n l
    → IsBalanced n r
    → Takes n c k
    → around k (inorder (node w c l r)) ≡ xs
    → Became t (node w c l r) k u
    → x ≡ u.root
    → Mended t xs u x
whole t xs w black l r k n u x bl br hl hr f order b e =
    let (m, h) = plug-IsBalanced (suc n) (node w black l r) k (n, refl, hl, hr) f (inl tt) in
    record {
      shape = plug (node w black l r) k;
      height = m;
      became = record { spells = plugged u _ k b.spells; keys = b.keys; rightmost = b.rightmost };
      black_root = top_black k f;
      balanced = h;
      order = inorder-plug (node w black l r) k ∙ order;
      at_root = e;
    }
  where
    top_black : (k : Context) → Fits (suc n) k → IsBlack (plug (node w black l r) k)
    top_black [] f = tt
    top_black (g ∷ k) f = plug-IsBlack (node w black l r) g k (suc n) f
whole t xs w red l r [] n u x bl br hl hr f order b e = absurd f.0
whole t xs w red l r (g ∷ k) n u x bl br hl hr f order b e =
    let (m, h) = plug-IsBalanced n (node w red l r) (g ∷ k) (bl, br, hl, hr) f.1 (inr (inl f.0)) in
    record {
      shape = plug (node w red l r) (g ∷ k);
      height = m;
      became = record {
        spells = plugged u _ (g ∷ k) b.spells;
        keys = b.keys;
        rightmost = b.rightmost;
      };
      black_root = plug-IsBlack (node w red l r) g k n f.1;
      balanced = h;
      order = inorder-plug (node w red l r) (g ∷ k) ∙ order;
      at_root = e;
    }

-- Rounds are left for the parent: as many as there are nodes above it, or one where it is red.
abbrev pub Spare : Color → Context → ℕ → Type 0
Spare black k d = length k < d
Spare red k d = 0 < d

-- The parent after case 2.
module _ (t : Tree) (xs : List Ptr) (p : Ptr) (c : Color) (l r : Shape) (k : Context) (n d : ℕ)
    (bl : IsBalanced n l) (br : IsBalanced n r) (deep : Spare c k d) where
  pub moved :
      (m : Tree × Ptr × Ptr × Bool)
      → Takes (suc n) c k
      → around k (inorder (node p c l r)) ≡ xs
      → Going t (node p c l r) k m
      → Round t xs d m
  moved m takes order going = go c takes deep going
    where
      go :
          (c : Color)
          → Takes (suc n) c k
          → Spare c k d
          → Going t (node p c l r) k m
          → Round t xs d m
      go black takes deep going = lacking (record {
        s = node p black l r;
        k = k;
        n = suc n;
        at = going;
        loose = (n, refl, bl, br);
        fits = takes;
        order = order;
        depth = inl deep;
      })
      go red takes deep going = lacking (record {
        s = node p red l r;
        k = k;
        n = n;
        at = going;
        loose = (bl, br);
        fits = takes.1;
        order = order;
        depth = inr (refl, deep);
      })
