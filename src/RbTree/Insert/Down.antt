-- ===== src/RbTree/Insert/Down.antt =====
-- The loop of rb_tree_insert goes down to the place of the key.
use trading_base.Base.{
  ℕ, zero, suc, Bool, true, false, ◌==◌, if◌then◌else◌, done, ◌>>=◌, Ends, ends, Ends-if, ◌≡◌, ◌≢◌,
  ◌≤◌, ◌<◌, refl, ◌⊎◌, inl, inr, [], ◌∷◌, ◌++◌, arith,
}
use trading_base.Base.Int.{is_neg, is_pos, is_zero, sign-cases}
use trading_base.RbTree.{Ptr, null, Color, black, red, Tree, set_left, set_right}
use trading_base.RbTree.Shape.{
  Shape, leaf, node, Frame, left_of, right_of, Context, top, above, Spells, occurs,
}
use trading_base.RbTree.Writes.{put_left, put_right, set_left-done, set_right-done}
use trading_base.RbTree.Balance.{
  IsBlack, IsBelowBlack, IsBalanced, Fits, plug, inorder, occurs-plug,
}
use trading_base.RbTree.Focus.{down_left, down_right}
use trading_base.RbTree.Sorted.{
  Compare, All, IsOrder, Less, IsSorted, All-map, All-append, IsSorted-parts, before, after,
}
use trading_base.RbTree.Valid.{size}
use trading_base.RbTree.Insert.{insert_loop, Descent, taken, linked}

-- The link from the parent to the new node.
abbrev pub link : Tree → Context → Ptr → Tree
link t [] x = t
link t (left_of p c r ∷ k) x = put_left t p x
link t (right_of p c l ∷ k) x = put_right t p x

-- No step to the left so far.
abbrev pub is_rightmost : Context → Bool
is_rightmost [] = true
is_rightmost (left_of p c r ∷ k) = false
is_rightmost (right_of p c l ∷ k) = is_rightmost k

module _ (compare : Compare) (order : IsOrder compare) (t : Tree) (x : Ptr) where
  -- All before the hole is below the key of `x`, and all after it above.
  pub record Around (k : Context) : Type 0 where
    pub lower : All (λ a. Less compare t.key a x) (before k)
    pub upper : All (Less compare t.key x) (after k)

  pub record Focused (s : Shape) (k : Context) (n : ℕ) : Type 0 where
    pub spells : Spells t s k
    pub balanced : IsBalanced n s
    pub fits : Fits n k
    pub colors : IsBlack s ⊎ IsBelowBlack k
    pub sorted : IsSorted compare t.key (inorder s)
    pub bounds : Around k

  pub focus_left :
      (p : Ptr) (c : Color) (l r : Shape) (k : Context) (n : ℕ)
      → Focused (node p c l r) k n
      → is_neg (compare (t.key x) (t.key p)) ≡ true
      → (m : ℕ) × Focused l (left_of p c r ∷ k) m
  focus_left p c l r k n h less =
      let (sl, lp, pr, sr) = IsSorted-parts compare t.key (inorder l) p (inorder r) h.sorted in
      let bounds : Around (left_of p c r ∷ k) = record {
        lower = h.bounds.lower;
        upper = (
          less,
          All-append (Less compare t.key x) (inorder r) (after k)
              (All-map (Less compare t.key p) (Less compare t.key x) (inorder r)
                (λ b. order.trans (t.key x) (t.key p) (t.key b) less) pr)
              h.bounds.upper,
        );
      } in
      go c (down_left h.spells) h.balanced h.fits h.colors sl bounds
    where
      go :
          (c : Color)
          → Spells t l (left_of p c r ∷ k)
          → IsBalanced n (node p c l r)
          → Fits n k
          → IsBlack (node p c l r) ⊎ IsBelowBlack k
          → IsSorted compare t.key (inorder l)
          → Around (left_of p c r ∷ k)
          → (m : ℕ) × Focused l (left_of p c r ∷ k) m
      go black s (m, e, hl, hr) f v o b = (
        m,
        record {
          spells = s;
          balanced = hl;
          fits = (hr, rw e at f);
          colors = inr tt;
          sorted = o;
          bounds = b;
        },
      )
      go red s (bl, br, hl, hr) f (inl v) o b = absurd v
      go red s (bl, br, hl, hr) f (inr v) o b = (
        n,
        record {
          spells = s;
          balanced = hl;
          fits = (br, v, hr, f);
          colors = inl bl;
          sorted = o;
          bounds = b;
        },
      )

  pub focus_right :
      (p : Ptr) (c : Color) (l r : Shape) (k : Context) (n : ℕ)
      → Focused (node p c l r) k n
      → is_pos (compare (t.key x) (t.key p)) ≡ true
      → (m : ℕ) × Focused r (right_of p c l ∷ k) m
  focus_right p c l r k n h more =
      let less = order.flip (t.key x) (t.key p) more in
      let (sl, lp, pr, sr) = IsSorted-parts compare t.key (inorder l) p (inorder r) h.sorted in
      let bounds : Around (right_of p c l ∷ k) = record {
        lower =
            All-append (λ a. Less compare t.key a x) (before k) (inorder l ++ p ∷ []) h.bounds.lower
              (All-append (λ a. Less compare t.key a x) (inorder l) (p ∷ [])
                (All-map (λ a. Less compare t.key a p) (λ a. Less compare t.key a x) (inorder l)
                  (λ a q. order.trans (t.key a) (t.key p) (t.key x) q less) lp)
                (less, tt));
        upper = h.bounds.upper;
      } in
      go c (down_right h.spells) h.balanced h.fits h.colors sr bounds
    where
      go :
          (c : Color)
          → Spells t r (right_of p c l ∷ k)
          → IsBalanced n (node p c l r)
          → Fits n k
          → IsBlack (node p c l r) ⊎ IsBelowBlack k
          → IsSorted compare t.key (inorder r)
          → Around (right_of p c l ∷ k)
          → (m : ℕ) × Focused r (right_of p c l ∷ k) m
      go black s (m, e, hl, hr) f v o b = (
        m,
        record {
          spells = s;
          balanced = hr;
          fits = (hl, rw e at f);
          colors = inr tt;
          sorted = o;
          bounds = b;
        },
      )
      go red s (bl, br, hl, hr) f (inl v) o b = absurd v
      go red s (bl, br, hl, hr) f (inr v) o b = (
        n,
        record {
          spells = s;
          balanced = hr;
          fits = (bl, v, hl, f);
          colors = inl br;
          sorted = o;
          bounds = b;
        },
      )

  -- How the loop ends, in the tree `whole`.
  pub data Descended (whole : Shape) : Descent → Type 0 where
    at_node :
        (a : Ptr)
        → 0 < occurs a whole
        → is_zero (compare (t.key x) (t.key a)) ≡ true
        → Descended whole taken
    at_leaf :
        (f : Frame) (k : Context) (n : ℕ)
        → plug leaf (f ∷ k) ≡ whole
        → Focused leaf (f ∷ k) n
        → Descended whole (linked (link t (f ∷ k) x) (above (f ∷ k)) (is_rightmost (f ∷ k)))

  turn_left :
      (fuel : ℕ) (p : Ptr) (c : Color) (l r : Shape) (k : Context) (m : ℕ)
      → p ≢ null
      → Focused l (left_of p c r ∷ k) m
      → (top l ≢ null
          → Ends (Descended (plug (node p c l r) k)) (insert_loop compare fuel t x (top l) false))
      → Ends (Descended (plug (node p c l r) k)) (
          if top l == null
          then (set_left t p x >>= λ t'. done (linked t' p false))
          else insert_loop compare fuel t x (top l) false)
  turn_left fuel p c leaf r k m np h next =
      rw (set_left-done t p x np) (ends (at_leaf (left_of p c r) k m refl h))
  turn_left fuel p c (node q cq a b) r k m np h next =
      Ends-if (q == null) (λ e. absurd (h.spells.tree.0 (ground arith))) (λ _. next h.spells.tree.0)

  turn_right :
      (fuel : ℕ) (p : Ptr) (c : Color) (l r : Shape) (k : Context) (m : ℕ)
      → p ≢ null
      → Focused r (right_of p c l ∷ k) m
      → (top r ≢ null
          → Ends
              (Descended (plug (node p c l r) k))
              (insert_loop compare fuel t x (top r) (is_rightmost k)))
      → Ends (Descended (plug (node p c l r) k)) (
          if top r == null
          then (set_right t p x >>= λ t'. done (linked t' p (is_rightmost k)))
          else insert_loop compare fuel t x (top r) (is_rightmost k))
  turn_right fuel p c l leaf k m np h next =
      rw (set_right-done t p x np) (ends (at_leaf (right_of p c l) k m refl h))
  turn_right fuel p c l (node q cq a b) k m np h next =
      Ends-if (q == null) (λ e. absurd (h.spells.tree.0 (ground arith))) (λ _. next h.spells.tree.0)

  pub insert_loop-Descended :
      (fuel : ℕ) (s : Shape) (k : Context) (n : ℕ)
      → top s ≢ null
      → size s ≤ fuel
      → Focused s k n
      → Ends (Descended (plug s k)) (insert_loop compare fuel t x (top s) (is_rightmost k))
  unfolding insert_loop
  insert_loop-Descended fuel leaf k n ne enough h = absurd (ne refl)
  insert_loop-Descended zero (node p c l r) k n ne enough h = absurd (omega arith)
  insert_loop-Descended (suc fuel) (node p c l r) k n ne enough h =
      let (np, hl, hr, hp, hc, tl, tr) = h.spells.tree in
      Ends-if (p == null) (λ e. absurd (np (ground arith)))
        λ _. elim (sign-cases (compare (t.key x) (t.key p))) [
          | inl same ↦
              rw same (ends (at_node p (ground (arith, occurs-plug p (node p c l r) k)) same))
          | inr (inl (nz, neg)) ↦
              let (m, down) = focus_left p c l r k n h neg in
              rw (nz, neg, hl)
                (turn_left fuel p c l r k m np down
                  (λ e. insert_loop-Descended fuel l (left_of p c r ∷ k) m e (omega arith) down))
          | inr (inr (nz, nn, more)) ↦
              let (m, down) = focus_right p c l r k n h more in
              rw (nz, nn, hr)
                (turn_right fuel p c l r k m np down
                  (λ e. insert_loop-Descended fuel r (right_of p c l ∷ k) m e (omega arith) down))
        ]
