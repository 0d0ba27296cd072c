-- ===== src/RbTree/Occurs.antt =====
-- What the bound on occurrences says of the tops of shapes and contexts.
use trading_base.Base.{ℕ, ◌⊎◌, inl, inr, ◌+◌, ◌≤◌, ◌<◌, ◌≡◌, ◌≢◌, refl, sym, ◌∙◌, [], ◌∷◌, arith}
use trading_base.RbTree.{Ptr, null, Tree}
use trading_base.RbTree.Shape.{
  Shape, leaf, node, left_of, right_of, Context, top, above, IsTree, one, occurs, occurs_in,
  IsLinear, SameAt, IsTree-same,
}

-- The top of a subtree may get another parent.
pub IsTree-adopted :
    (t u : Tree) (x y : Ptr) (s : Shape)
    → ((a : Ptr) → 0 < occurs a s → a ≢ top s → SameAt t u a)
    → ((p : Ptr)
        → p ≡ top s
        → p ≢ null
        → (u.left p ≡ t.left p)
          × (u.right p ≡ t.right p)
          × (u.color p ≡ t.color p)
          × (u.parent p ≡ y))
    → IsLinear s []
    → IsTree t x s
    → IsTree u y s
IsTree-adopted t u x y leaf same at linear h = tt
IsTree-adopted t u x y (node p c l r) same at linear (ne, hl, hr, hp, hc, tl, tr) =
    let (fl, fr, fc, fp) = at p refl ne in
    let once = linear p in
    (
      ne,
      fl ∙ hl,
      fr ∙ hr,
      fp,
      fc ∙ hc,
      IsTree-same t u p l (λ a o. same a (omega arith) (λ e. ground arith)) tl,
      IsTree-same t u p r (λ a o. same a (omega arith) (λ e. ground arith)) tr,
    )

pub occurs-top : (s : Shape) → (top s ≡ null) ⊎ (0 < occurs (top s) s)
occurs-top leaf = inl refl
occurs-top (node p c l r) = inr (ground arith)

pub occurs-above : (k : Context) → (above k ≡ null) ⊎ (0 < occurs_in (above k) k)
occurs-above [] = inl refl
occurs-above (left_of p c r ∷ k) = inr (ground arith)
occurs-above (right_of p c l ∷ k) = inr (ground arith)

-- From the bound on occurrences, what differs.
pub ne_of_once : (x y n : ℕ) → one x x + one x y + n ≤ 1 → x ≢ y
ne_of_once x y n h e = ground arith

pub top_ne : (s : Shape) (x : Ptr) → x ≢ null → one x x + occurs x s ≤ 1 → top s ≢ x
top_ne leaf x ne h e = ne (sym e)
top_ne (node p c l r) x ne h e = ground arith

pub above_ne : (k : Context) (x : Ptr) → x ≢ null → one x x + occurs_in x k ≤ 1 → above k ≢ x
above_ne [] x ne h e = ne (sym e)
above_ne (left_of p c r ∷ k) x ne h e = ground arith
above_ne (right_of p c l ∷ k) x ne h e = ground arith

pub not_top : (s : Shape) (x : Ptr) → x ≢ null → ¬ (0 < occurs x s) → x ≢ top s
not_top leaf x ne out e = ne e
not_top (node p c l r) x ne out e = out (ground arith)

-- A null top is a leaf, in memory.
pub top-null : (t : Tree) (up : Ptr) (s : Shape) → IsTree t up s → top s ≡ null → s ≡ leaf
top-null t up leaf h e = refl
top-null t up (node p c l r) h e = absurd (h.0 e)
