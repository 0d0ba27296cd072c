-- ===== src/RbTree/Rounds.antt =====
-- __helper_rb_tree_insert_rebalance: a round keeps all balanced but one red node below a red one,
-- and brings that node nearer to the root.
use trading_base.Base.{
  ℕ, suc, ◌<◌, ◌≡◌, ◌≢◌, refl, sym, ◌∙◌, List, [], ◌∷◌, ◌++◌, length, if◌then◌else◌, arith, true,
  false, Ends, Ends-mono, ap,
}
use mathlib.Core.List.{append_assoc}
use trading_base.RbTree.{Ptr, null, black, red, Tree, fix_red, fix_black, fix_step}
use trading_base.RbTree.Shape.{Shape, leaf, node, left_of, right_of, Context, top, Spells}
use trading_base.RbTree.Occurs.{top_ne}
use trading_base.RbTree.Balance.{IsBlack, IsBalanced, Fits, inorder, around}
use trading_base.RbTree.Focus.{up_left, up_right, down_left, down_right, Became, Became-at}
use trading_base.RbTree.Steps.{
  Moved, fix_red_left, fix_red_right, fix_black_left, fix_black_right, fix_black_inner_left,
  fix_black_inner_right, fix_step_left, fix_step_right, is_red_top, red_at-top,
}

-- The state of the loop at the red node `x`, less than `d` nodes below the root: all is balanced
-- but that the parent of `x` may be red.
pub record Fixing (t : Tree) (xs : List Ptr) (d : ℕ) (u : Tree) (x : Ptr) : Type 0 where
  pub l : Shape
  pub r : Shape
  pub k : Context
  pub n : ℕ
  pub became : Became t (node x red l r) k u
  pub balanced : IsBalanced n (node x red l r)
  pub fits : Fits n k
  pub order : around k (inorder (node x red l r)) ≡ xs
  pub depth : length k < d

abbrev pub FixingAt : Tree → List Ptr → ℕ → Tree × Ptr → Type 0
FixingAt t xs d (u, x) = Fixing t xs d u x

-- Case 1: the loop goes on at the grandparent.
module _ (t : Tree) (g p v : Ptr) (pl pr ul ur : Shape) (k : Context) (n d : ℕ) (xs : List Ptr)
    (hl : IsBalanced n pl) (hr : IsBalanced n pr) (hu : IsBalanced n (node v red ul ur))
    (fits : Fits (suc n) k) (deep : length k < d) where
  red_left :
      Spells t (node g black (node p red pl pr) (node v red ul ur)) k
      → around k (inorder (node g black (node p red pl pr) (node v red ul ur))) ≡ xs
      → Ends (FixingAt t xs d) (fix_red t p v g)
  red_left h order = Ends-mono (fix_red_left t g p v pl pr ul ur k h) λ (u, next) (b, e).
      rw e (record {
        l = node p black pl pr;
        r = node v black ul ur;
        k = k;
        n = suc n;
        became = b;
        balanced = (tt, tt, (n, refl, hl, hr), (n, refl, hu.2, hu.3));
        fits = fits;
        order = order;
        depth = deep;
      })

  red_right :
      Spells t (node g black (node v red ul ur) (node p red pl pr)) k
      → around k (inorder (node g black (node v red ul ur) (node p red pl pr))) ≡ xs
      → Ends (FixingAt t xs d) (fix_red t p v g)
  red_right h order = Ends-mono (fix_red_right t g p v pl pr ul ur k h) λ (u, next) (b, e).
      rw e (record {
        l = node v black ul ur;
        r = node p black pl pr;
        k = k;
        n = suc n;
        became = b;
        balanced = (tt, tt, (n, refl, hu.2, hu.3), (n, refl, hl, hr));
        fits = fits;
        order = order;
        depth = deep;
      })

-- Cases 2 and 3: the parent of the next node is black.
module _ (t : Tree) (q y g : Ptr) (a b c e : Shape) (k : Context) (n d : ℕ) (xs : List Ptr)
    (hy : IsBalanced n (node y red a b)) (hg : IsBalanced n (node g red c e))
    (fits : Fits (suc n) k) (deep : suc (length k) < d) where
  settled_left :
      (r : Tree × Ptr)
      → around k (inorder (node q black (node y red a b) (node g red c e))) ≡ xs
      → Moved t (node q black (node y red a b) (node g red c e)) k y r
      → FixingAt t xs d r
  settled_left (u, next) order (w, eq) = rw eq (record {
    l = a;
    r = b;
    k = left_of q black (node g red c e) ∷ k;
    n = n;
    became = Became-at down_left w;
    balanced = hy;
    fits = (hg, fits);
    order = order;
    depth = deep;
  })

  settled_right :
      (r : Tree × Ptr)
      → around k (inorder (node q black (node g red c e) (node y red a b))) ≡ xs
      → Moved t (node q black (node g red c e) (node y red a b)) k y r
      → FixingAt t xs d r
  settled_right (u, next) order (w, eq) = rw eq (record {
    l = a;
    r = b;
    k = right_of q black (node g red c e) ∷ k;
    n = n;
    became = Became-at down_right w;
    balanced = hy;
    fits = (hg, fits);
    order = order;
    depth = deep;
  })

-- A round, with the parent on the left or on the right of the grandparent.
module _ (t : Tree) (x p g : Ptr) (pl pr : Shape) (k : Context) (n d : ℕ) (xs : List Ptr)
    (nx : x ≢ null) (hx : t.parent x ≡ p) (hc : t.color x ≡ red) (hl : IsBalanced n pl)
    (hr : IsBalanced n pr) (fits : Fits (suc n) k) (deep : length k < d) where
  round_left :
      (u : Shape)
      → Spells t (node g black (node p red pl pr) u) k
      → IsBalanced n u
      → around k (inorder (node g black (node p red pl pr) u)) ≡ xs
      → (IsBlack u → Ends (FixingAt t xs d) (fix_black t x p false))
      → Ends (FixingAt t xs d) (fix_step t x)
  round_left u h hu order other =
      let (np, _, _, hp, _, _, _) = (down_left h).tree in
      let uncle = (down_right h).tree in
      rw
        (
          fix_step_left t x p g (top u) nx np h.tree.0 hx hc hp h.tree.1 h.tree.2,
          red_at-top t g u uncle,
        )
        (choose u h hu order other)
    where
      choose :
          (u : Shape)
          → Spells t (node g black (node p red pl pr) u) k
          → IsBalanced n u
          → around k (inorder (node g black (node p red pl pr) u)) ≡ xs
          → (IsBlack u → Ends (FixingAt t xs d) (fix_black t x p false))
          → Ends
              (FixingAt t xs d)
              (if is_red_top u then fix_red t p (top u) g else fix_black t x p false)
      choose leaf h hu order other = other tt
      choose (node v black ul ur) h hu order other = other tt
      choose (node v red ul ur) h hu order other =
          red_left t g p v pl pr ul ur k n d xs hl hr hu fits deep h order

  round_right :
      (u : Shape)
      → Spells t (node g black u (node p red pl pr)) k
      → IsBalanced n u
      → around k (inorder (node g black u (node p red pl pr))) ≡ xs
      → (IsBlack u → Ends (FixingAt t xs d) (fix_black t x p true))
      → Ends (FixingAt t xs d) (fix_step t x)
  round_right u h hu order other =
      let (np, _, _, hp, _, _, _) = (down_right h).tree in
      let uncle = (down_left h).tree in
      let apart : top u ≢ p = top_ne u p np (omega (arith, h.linear p)) in
      rw
        (
          fix_step_right t x p g (top u) nx np h.tree.0 hx hc hp h.tree.1 h.tree.2
              (λ e. apart (sym e)),
          red_at-top t g u uncle,
        )
        (choose u h hu order other)
    where
      choose :
          (u : Shape)
          → Spells t (node g black u (node p red pl pr)) k
          → IsBalanced n u
          → around k (inorder (node g black u (node p red pl pr))) ≡ xs
          → (IsBlack u → Ends (FixingAt t xs d) (fix_black t x p true))
          → Ends
              (FixingAt t xs d)
              (if is_red_top u then fix_red t p (top u) g else fix_black t x p true)
      choose leaf h hu order other = other tt
      choose (node v black ul ur) h hu order other = other tt
      choose (node v red ul ur) h hu order other =
          red_right t g p v pl pr ul ur k n d xs hl hr hu fits deep h order

pub inner_left :
    (s l r u : List Ptr) (p x g : Ptr)
    → (s ++ p ∷ l) ++ x ∷ (r ++ g ∷ u) ≡ (s ++ p ∷ (l ++ x ∷ r)) ++ g ∷ u
inner_left s l r u p x g =
    rw
      (
        append_assoc s (p ∷ l) (x ∷ (r ++ g ∷ u)),
        append_assoc s (p ∷ (l ++ x ∷ r)) (g ∷ u),
        append_assoc l (x ∷ r) (g ∷ u),
      )
      refl

pub inner_right :
    (s l r u : List Ptr) (p x g : Ptr)
    → (u ++ g ∷ l) ++ x ∷ (r ++ p ∷ s) ≡ u ++ g ∷ ((l ++ x ∷ r) ++ p ∷ s)
inner_right s l r u p x g =
    rw (append_assoc u (g ∷ l) (x ∷ (r ++ p ∷ s)), append_assoc l (x ∷ r) (p ∷ s)) refl

abbrev pub IsBelowRed : Context → Type 0
IsBelowRed [] = ⊥
IsBelowRed (left_of p black s ∷ k) = ⊥
IsBelowRed (left_of p red s ∷ k) = Unit {0}
IsBelowRed (right_of p black s ∷ k) = ⊥
IsBelowRed (right_of p red s ∷ k) = Unit {0}

pub fix_step-Fixing :
    (t : Tree) (xs : List Ptr) (d n : ℕ) (x : Ptr) (l r : Shape) (k : Context)
    → IsBelowRed k
    → Spells t (node x red l r) k
    → IsBalanced n (node x red l r)
    → Fits n k
    → around k (inorder (node x red l r)) ≡ xs
    → length k < suc d
    → Ends (FixingAt t xs d) (fix_step t x)
fix_step-Fixing t xs d n x l r (left_of p red s ∷ left_of g black u ∷ k) below h hx
      (bs, ok, hs, (hu, fits)) order deep =
    round_left t x p g (node x red l r) s k n d xs h.tree.0 h.tree.3 h.tree.4 hx hs fits
      (omega arith) u (up_left (up_left h)) hu order
      λ bu. Ends-mono (fix_black_left t g p x black red red l r s u k (up_left (up_left h))) (λ m.
        settled_left t p x g l r s u k n d xs hx (bs, bu, hs, hu) fits (omega arith) m
          (ap (around k)
              (sym (append_assoc (inorder (node x red l r)) (p ∷ inorder s) (g ∷ inorder u)))
            ∙ order))
fix_step-Fixing t xs d n x l r (right_of p red s ∷ left_of g black u ∷ k) below h (bl, br, hl, hr)
      (bs, ok, hs, (hu, fits)) order deep =
    round_left t x p g s (node x red l r) k n d xs h.tree.0 h.tree.3 h.tree.4 hs (bl, br, hl, hr)
      fits (omega arith) u (up_left (up_right h)) hu order
      λ bu.
        Ends-mono (fix_black_inner_left t g p x black red s l r u k (up_left (up_right h))) (λ m.
          settled_left t x p g s l r u k n d xs (bs, bl, hs, hl) (br, bu, hr, hu) fits (omega arith)
            m
            (ap (around k) (inner_left (inorder s) (inorder l) (inorder r) (inorder u) p x g)
              ∙ order))
fix_step-Fixing t xs d n x l r (left_of p red s ∷ right_of g black u ∷ k) below h (bl, br, hl, hr)
      (bs, ok, hs, (hu, fits)) order deep =
    round_right t x p g (node x red l r) s k n d xs h.tree.0 h.tree.3 h.tree.4 (bl, br, hl, hr) hs
      fits (omega arith) u (up_right (up_left h)) hu order
      λ bu.
        Ends-mono (fix_black_inner_right t g p x black red s r l u k (up_right (up_left h))) (λ m.
          settled_right t x p g r s u l k n d xs (br, bs, hr, hs) (bu, bl, hu, hl) fits
            (omega arith) m
            (ap (around k) (inner_right (inorder s) (inorder l) (inorder r) (inorder u) p x g)
              ∙ order))
fix_step-Fixing t xs d n x l r (right_of p red s ∷ right_of g black u ∷ k) below h hx
      (bs, ok, hs, (hu, fits)) order deep =
    round_right t x p g s (node x red l r) k n d xs h.tree.0 h.tree.3 h.tree.4 hs hx fits
      (omega arith) u (up_right (up_right h)) hu order
      λ bu.
        Ends-mono (fix_black_right t g p x black red red l r s u k (up_right (up_right h))) (λ m.
          settled_right t p x g l r u s k n d xs hx (bu, bs, hu, hs) fits (omega arith) m
            (ap (around k) (append_assoc (inorder u) (g ∷ inorder s) (p ∷ inorder (node x red l r)))
              ∙ order))
fix_step-Fixing t xs d n x l r (left_of p black s ∷ k) below h hx _ order deep = absurd below
fix_step-Fixing t xs d n x l r (left_of p red s ∷ []) below h hx hf order deep = absurd hf.1
fix_step-Fixing t xs d n x l r (left_of p red s ∷ left_of g red u ∷ k) below h hx hf order deep =
    absurd hf.1
fix_step-Fixing t xs d n x l r (left_of p red s ∷ right_of g red u ∷ k) below h hx hf order deep =
    absurd hf.1
fix_step-Fixing t xs d n x l r (right_of p black s ∷ k) below h hx _ order deep = absurd below
fix_step-Fixing t xs d n x l r (right_of p red s ∷ []) below h hx hf order deep = absurd hf.1
fix_step-Fixing t xs d n x l r (right_of p red s ∷ left_of g red u ∷ k) below h hx hf order deep =
    absurd hf.1
fix_step-Fixing t xs d n x l r (right_of p red s ∷ right_of g red u ∷ k) below h hx hf order deep =
    absurd hf.1
fix_step-Fixing t xs d n x l r [] below h hx _ order deep = absurd below
