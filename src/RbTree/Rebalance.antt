-- ===== src/RbTree/Rebalance.antt =====
-- __helper_rb_tree_insert_rebalance: the loop ends, at a balanced tree of the same nodes in the same
-- order.
use trading_base.Base.{
  ℕ, zero, suc, ◌⊎◌, inl, inr, ◌+◌, ◌≤◌, ◌<◌, ◌≡◌, ◌≢◌, refl, sym, ◌∙◌, List, [], ◌∷◌, ◌==◌, length,
  arith, true, false, Bool, not, ◌&&◌, Ends, ends, Ends-bind, Ends-mono,
}
use trading_base.RbTree.{
  Ptr, null, Color, black, red, Tree, set_color, is_red, must_fix, fix_loop, insert_rebalance,
}
use trading_base.RbTree.Shape.{
  Shape, leaf, node, Frame, left_of, right_of, Context, top, IsContext, Spells, occurs, occurs_in,
  one,
}
use trading_base.RbTree.Writes.{load-done}
use trading_base.RbTree.Balance.{
  IsBlack, IsBelowBlack, IsRoot, IsBalanced, Fits, plug, inorder, around, plug-IsBalanced,
  inorder-plug,
}
use trading_base.RbTree.Focus.{plugged, Became, Became-then, set_color-Became}
use trading_base.RbTree.Rounds.{Fixing, IsBelowRed, fix_step-Fixing}

-- The root is a node of the context, if there is one.
pub root-occurs :
    (t : Tree) (q : Ptr) (f : Frame) (k : Context)
    → IsContext t q (f ∷ k)
    → 0 < occurs_in t.root (f ∷ k)
root-occurs t q (left_of p c r) [] h = ground (arith, h.6)
root-occurs t q (right_of p c r) [] h = ground (arith, h.6)
root-occurs t q (left_of p c r) (f ∷ k) h = omega (arith, root-occurs t p f k h.6)
root-occurs t q (right_of p c r) (f ∷ k) h = omega (arith, root-occurs t p f k h.6)

-- The loop goes on below a red parent, and only there.
abbrev below_red : Context → Bool
below_red [] = false
below_red (left_of p c r ∷ k) = is_red c
below_red (right_of p c l ∷ k) = is_red c

guard :
    (root x p : Ptr) (b : Bool)
    → root ≢ x
    → p ≢ null
    → (not (root == x) && (not (p == null) && b)) ≡ b
guard root x p b hr hp = ground arith

pub apart :
    (root x m : Ptr) (k : Context)
    → one x x + m + occurs_in x k ≤ 1
    → 0 < occurs_in root k
    → root ≢ x
apart root x m k once inside e = let here : 0 < occurs_in x k = rw e at inside in ground arith

must_fix-below_red :
    (t : Tree) (x : Ptr) (c : Color) (l r : Shape) (k : Context)
    → Spells t (node x c l r) k
    → must_fix t x ≡ below_red k
unfolding must_fix
must_fix-below_red t x c l r [] h = ground (arith, h.context)
must_fix-below_red t x c l r (left_of p cp s ∷ k) h =
    let inside = root-occurs t x (left_of p cp s) k h.context in
    let other =
      apart t.root x (occurs x l + occurs x r) (left_of p cp s ∷ k) (omega (arith, h.linear x))
        inside in
    rw (h.tree.3, h.context.4) (guard t.root x p (is_red cp) other h.context.0)
must_fix-below_red t x c l r (right_of p cp s ∷ k) h =
    let inside = root-occurs t x (right_of p cp s) k h.context in
    let other =
      apart t.root x (occurs x l + occurs x r) (right_of p cp s ∷ k) (omega (arith, h.linear x))
        inside in
    rw (h.tree.3, h.context.4) (guard t.root x p (is_red cp) other h.context.0)

data IsNode : Shape → Type 0 where
  is_node : {p : Ptr} {c : Color} {l r : Shape} → IsNode (node p c l r)

plug-IsNode : (s : Shape) (k : Context) → IsNode s → IsNode (plug s k)
plug-IsNode s [] h = h
plug-IsNode s (left_of p c r ∷ k) h = plug-IsNode (node p c s r) k is_node
plug-IsNode s (right_of p c l ∷ k) h = plug-IsNode (node p c l s) k is_node

-- A whole tree that is balanced, but for a red root.
record Grown (t : Tree) (xs : List Ptr) (u : Tree) : Type 0 where
  pub shape : Shape
  pub height : ℕ
  pub became : Became t shape [] u
  pub balanced : IsBalanced height shape
  pub order : inorder shape ≡ xs
  pub solid : IsNode shape

settle :
    (t u : Tree) (xs : List Ptr) (x : Ptr) (l r : Shape) (k : Context) (n : ℕ)
    → Became t (node x red l r) k u
    → IsBalanced n (node x red l r)
    → Fits n k
    → around k (inorder (node x red l r)) ≡ xs
    → IsBelowBlack k ⊎ IsRoot k
    → Grown t xs u
settle t u xs x l r k n b h f order v =
    let (m, whole) = plug-IsBalanced n (node x red l r) k h f (inr v) in
    record {
      shape = plug (node x red l r) k;
      height = m;
      became = record { spells = plugged u _ k b.spells; keys = b.keys; rightmost = b.rightmost };
      balanced = whole;
      order = inorder-plug (node x red l r) k ∙ order;
      solid = plug-IsNode (node x red l r) k is_node;
    }

below_cases :
    (k : Context)
    → ((below_red k ≡ true) × IsBelowRed k) ⊎ ((below_red k ≡ false) × (IsBelowBlack k ⊎ IsRoot k))
below_cases [] = inr (refl, inr tt)
below_cases (left_of p black r ∷ k) = inr (refl, inl tt)
below_cases (left_of p red r ∷ k) = inl (refl, tt)
below_cases (right_of p black l ∷ k) = inr (refl, inl tt)
below_cases (right_of p red l ∷ k) = inl (refl, tt)

rebased :
    {t u v : Tree} {s : Shape} {k : Context} {xs : List Ptr} {d : ℕ} {x : Ptr}
    → Became t s k u
    → Fixing u xs d v x
    → Fixing t xs d v x
rebased b f = record {
  l = f.l;
  r = f.r;
  k = f.k;
  n = f.n;
  became = Became-then b f.became;
  balanced = f.balanced;
  fits = f.fits;
  order = f.order;
  depth = f.depth;
}

fix_loop-Grown :
    (d : ℕ) (t u : Tree) (xs : List Ptr) (x : Ptr)
    → Fixing t xs d u x
    → Ends (Grown t xs) (fix_loop d u x)
unfolding fix_loop
fix_loop-Grown zero t u xs x f = absurd (omega (arith, f.depth))
fix_loop-Grown (suc d) t u xs x f =
    let at = must_fix-below_red u x red f.l f.r f.k f.became.spells in
    elim (below_cases f.k) [
      | inl (test, below) ↦
          rw (at, test)
            (Ends-bind
              (fix_step-Fixing u xs d f.n x f.l f.r f.k below f.became.spells f.balanced f.fits
                f.order f.depth)
              λ (v, next) g. fix_loop-Grown d t v xs next (rebased f.became g))
      | inr (test, fine) ↦
          rw (at, test)
            (ends (settle t u xs x f.l f.r f.k f.n f.became f.balanced f.fits f.order fine))
    ]

-- A red-black tree in memory with these nodes from left to right, and a black root.
pub record Rebuilt (t : Tree) (xs : List Ptr) (u : Tree) : Type 0 where
  pub shape : Shape
  pub height : ℕ
  pub became : Became t shape [] u
  pub black_root : IsBlack shape
  pub balanced : IsBalanced height shape
  pub order : inorder shape ≡ xs

pub blackened :
    (n : ℕ) (p : Ptr) (c : Color) (l r : Shape)
    → IsBalanced n (node p c l r)
    → (m : ℕ) × IsBalanced m (node p black l r)
blackened n p black l r h = (n, h)
blackened n p red l r (bl, br, hl, hr) = (suc n, (n, refl, hl, hr))

paint_root :
    (t u : Tree) (xs : List Ptr) (n : ℕ) (s : Shape) (q : Ptr)
    → q ≡ top s
    → IsNode s
    → Became t s [] u
    → IsBalanced n s
    → inorder s ≡ xs
    → Ends (Rebuilt t xs) (set_color u q black)
paint_root t u xs n leaf q at solid b h order = elim solid [ ]
paint_root t u xs n (node p c l r) q at solid b h order =
    let (m, whole) = blackened n p c l r h in
    rw at (
      Ends-mono (set_color-Became u p c black l r [] b.spells) λ v w. record {
        shape = node p black l r;
        height = m;
        became = Became-then b w;
        black_root = tt;
        balanced = whole;
        order = order;
      })

pub plug-IsBlack :
    (s : Shape) (f : Frame) (k : Context) (n : ℕ) → Fits n (f ∷ k) → IsBlack (plug s (f ∷ k))
plug-IsBlack s (left_of p black r) [] n h = tt
plug-IsBlack s (right_of p black l) [] n h = tt
plug-IsBlack s (left_of p red r) [] n h = absurd h.1
plug-IsBlack s (right_of p red l) [] n h = absurd h.1
plug-IsBlack s (left_of p black r) (f ∷ k) n h = plug-IsBlack (node p black s r) f k (suc n) h.1
plug-IsBlack s (right_of p black l) (f ∷ k) n h = plug-IsBlack (node p black l s) f k (suc n) h.1
plug-IsBlack s (left_of p red r) (f ∷ k) n h = plug-IsBlack (node p red s r) f k n h.3
plug-IsBlack s (right_of p red l) (f ∷ k) n h = plug-IsBlack (node p red l s) f k n h.3

-- The test before the loop.
loop_wanted :
    (t : Tree) (x : Ptr) (c : Color) (l r : Shape) (f : Frame) (k : Context)
    → Spells t (node x c l r) (f ∷ k)
    → (not (t.parent x == null) && is_red (t.color (t.parent x))) ≡ below_red (f ∷ k)
loop_wanted t x c l r (left_of p cp s) k h =
    rw (h.tree.3, h.context.4) (ground (arith, h.context.0))
loop_wanted t x c l r (right_of p cp s) k h =
    rw (h.tree.3, h.context.4) (ground (arith, h.context.0))

-- __helper_rb_tree_insert_rebalance at a red node below a parent, in a tree that is a red-black tree
-- but for the color of that parent: with fuel above the depth of the node the run ends, and the memory
-- spells a red-black tree with a black root and the same nodes in the same order; the keys and
-- `rightmost` stay.
pub insert_rebalance-Rebuilt :
    (fuel : ℕ) (t : Tree) (x : Ptr) (l r : Shape) (f : Frame) (k : Context) (n : ℕ)
    → Spells t (node x red l r) (f ∷ k)
    → IsBalanced n (node x red l r)
    → Fits n (f ∷ k)
    → length k + 1 < fuel
    → Ends (Rebuilt t (inorder (plug (node x red l r) (f ∷ k)))) (insert_rebalance fuel t x)
unfolding insert_rebalance settle
insert_rebalance-Rebuilt fuel t x l r f k n h hb fits enough =
    let same = inorder-plug (node x red l r) (f ∷ k) in
    let here : Became t (node x red l r) (f ∷ k) t = record {
      spells = h;
      keys = λ a. refl;
      rightmost = refl;
    } in
    rw (load-done t.parent x h.tree.0) (elim (below_cases (f ∷ k)) [
      | inl (test, below) ↦
          rw (loop_wanted t x red l r f k h, test)
            (Ends-bind
              (fix_loop-Grown fuel t t (inorder (plug (node x red l r) (f ∷ k))) x (record {
                l = l;
                r = r;
                k = f ∷ k;
                n = n;
                became = here;
                balanced = hb;
                fits = fits;
                order = sym same;
                depth = omega (arith, enough);
              }))
              λ u g.
                paint_root t u _ g.height g.shape u.root g.became.spells.context g.solid g.became
                  g.balanced g.order)
      | inr (test, fine) ↦
          rw (loop_wanted t x red l r f k h, test)
            (ends (
              let g =
                settle t t (inorder (plug (node x red l r) (f ∷ k))) x l r (f ∷ k) n here hb fits
                  (sym same) fine in
              record {
                shape = g.shape;
                height = g.height;
                became = g.became;
                black_root = plug-IsBlack (node x red l r) f k n fits;
                balanced = g.balanced;
                order = g.order;
              }))
    ])
