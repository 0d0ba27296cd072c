-- ===== src/RbTree/Remove/Zip.antt =====
-- A place inside of a tree: the subtree there, and the way up from it.
use trading_base.Base.{
  ℕ, suc, ◌+◌, ◌<◌, ◌≡◌, refl, ◌∙◌, ap, ◌⊎◌, inl, inr, [], ◌∷◌, ◌++◌, arith, if◌then◌else◌, ◌==◌,
}
use trading_base.RbTree.{Ptr, Color, black, red, Tree}
use trading_base.RbTree.Shape.{
  Shape, leaf, node, Frame, left_of, right_of, Context, above, Spells, occurs, occurs_in, one,
}
use trading_base.RbTree.Balance.{IsBlack, IsBelowBlack, IsBalanced, Fits, plug, inorder}
use trading_base.RbTree.Focus.{up_left, up_right, down_left, down_right}
use trading_base.RbTree.Remove.Cases.{went_left}

pub plug-append : (s : Shape) (d k : Context) → plug s (d ++ k) ≡ plug (plug s d) k
plug-append s [] k = refl
plug-append s (left_of p c r ∷ d) k = plug-append (node p c s r) d k
plug-append s (right_of p c l ∷ d) k = plug-append (node p c l s) d k

pub occurs_in-append :
    (a : Ptr) (d k : Context) → occurs_in a (d ++ k) ≡ occurs_in a d + occurs_in a k
occurs_in-append a [] k = omega arith
occurs_in-append a (left_of p c r ∷ d) k = omega (arith, occurs_in-append a d k)
occurs_in-append a (right_of p c l ∷ d) k = omega (arith, occurs_in-append a d k)

pub Spells-down :
    (t : Tree) (s : Shape) (d k : Context) → Spells t (plug s d) k → Spells t s (d ++ k)
Spells-down t s [] k h = h
Spells-down t s (left_of p c r ∷ d) k h = down_left (Spells-down t (node p c s r) d k h)
Spells-down t s (right_of p c l ∷ d) k h = down_right (Spells-down t (node p c l s) d k h)

pub Spells-up : (t : Tree) (s : Shape) (d k : Context) → Spells t s (d ++ k) → Spells t (plug s d) k
Spells-up t s [] k h = h
Spells-up t s (left_of p c r ∷ d) k h = Spells-up t (node p c s r) d k (up_left h)
Spells-up t s (right_of p c l ∷ d) k h = Spells-up t (node p c l s) d k (up_right h)

-- The subtree and the way up are balanced, and no red node is below a red one.
abbrev pub IsAt : Shape → Context → ℕ → Type 0
IsAt s k n = IsBalanced n s × Fits n k × (IsBlack s ⊎ IsBelowBlack k)

pub IsAt-left :
    (p : Ptr) (c : Color) (l r : Shape) (k : Context) (n : ℕ)
    → IsAt (node p c l r) k n
    → (m : ℕ) × IsAt l (left_of p c r ∷ k) m
IsAt-left p black l r k n ((m, e, hl, hr), f, v) = (m, (hl, (hr, rw e at f), inr tt))
IsAt-left p red l r k n (h, f, inl v) = absurd v
IsAt-left p red l r k n ((bl, br, hl, hr), f, inr v) = (n, (hl, (br, v, hr, f), inl bl))

pub IsAt-right :
    (p : Ptr) (c : Color) (l r : Shape) (k : Context) (n : ℕ)
    → IsAt (node p c l r) k n
    → (m : ℕ) × IsAt r (right_of p c l ∷ k) m
IsAt-right p black l r k n ((m, e, hl, hr), f, v) = (m, (hr, (hl, rw e at f), inr tt))
IsAt-right p red l r k n (h, f, inl v) = absurd v
IsAt-right p red l r k n ((bl, br, hl, hr), f, inr v) = (n, (hr, (bl, v, hl, f), inl br))

pub IsAt-down :
    (s : Shape) (d k : Context) (n : ℕ) → IsAt (plug s d) k n → (m : ℕ) × IsAt s (d ++ k) m
IsAt-down s [] k n h = (n, h)
IsAt-down s (left_of p c r ∷ d) k n h =
    let (m, g) = IsAt-down (node p c s r) d k n h in IsAt-left p c s r (d ++ k) m g
IsAt-down s (right_of p c l ∷ d) k n h =
    let (m, g) = IsAt-down (node p c l s) d k n h in IsAt-right p c l s (d ++ k) m g

-- Where a node of the tree is.
pub record Located (x : Ptr) (s : Shape) : Type 0 where
  pub c : Color
  pub l : Shape
  pub r : Shape
  pub k : Context
  pub at : plug (node x c l r) k ≡ s

below :
    (x p : Ptr) (s : Shape) (f : Frame) (whole : Shape)
    → plug s (f ∷ []) ≡ whole
    → Located x s
    → Located x whole
below x p s f whole e h = record {
  c = h.c;
  l = h.l;
  r = h.r;
  k = h.k ++ (f ∷ []);
  at = plug-append (node x h.c h.l h.r) h.k (f ∷ []) ∙ ap (λ v. plug v (f ∷ [])) h.at ∙ e;
}

here_or : (x p : Ptr) (n m : ℕ) → 0 < one x p + n + m → (x ≡ p) ⊎ ((0 < n) ⊎ (0 < m))
here_or x p n m o = ground arith

pub located : (x : Ptr) (s : Shape) → 0 < occurs x s → Located x s
located x leaf o = absurd (omega (arith, o))
located x (node p c l r) o = elim (here_or x p (occurs x l) (occurs x r) o) [
  | inl e ↦ record { c = c; l = l; r = r; k = []; at = ap (λ q. node q c l r) e }
  | inr (inl ol) ↦ below x p l (left_of p c r) (node p c l r) refl (located x l ol)
  | inr (inr or_) ↦ below x p r (right_of p c l) (node p c l r) refl (located x r or_)
]

-- Only steps to the left.
abbrev pub IsLeftward : Context → Type 0
IsLeftward [] = Unit {0}
IsLeftward (left_of p c r ∷ d) = IsLeftward d
IsLeftward (right_of p c l ∷ d) = ⊥

-- The first node of a tree.
pub record Leftmost (s : Shape) : Type 0 where
  pub y : Ptr
  pub c : Color
  pub r : Shape
  pub d : Context
  pub at : plug (node y c leaf r) d ≡ s
  pub leftward : IsLeftward d

IsLeftward-append :
    (d : Context) (p : Ptr) (c : Color) (r : Shape)
    → IsLeftward d
    → IsLeftward (d ++ (left_of p c r ∷ []))
IsLeftward-append [] p c r h = tt
IsLeftward-append (left_of q cq s ∷ d) p c r h = IsLeftward-append d p c r h
IsLeftward-append (right_of q cq s ∷ d) p c r h = absurd h

pub leftmost : (p : Ptr) (c : Color) (l r : Shape) → Leftmost (node p c l r)
leftmost p c leaf r = record { y = p; c = c; r = r; d = []; at = refl; leftward = tt }
leftmost p c (node q cq a b) r =
    let m = leftmost q cq a b in
    record {
      y = m.y;
      c = m.c;
      r = m.r;
      d = m.d ++ (left_of p c r ∷ []);
      at =
          plug-append (node m.y m.c leaf m.r) m.d (left_of p c r ∷ [])
          ∙ ap (λ v. plug v (left_of p c r ∷ [])) m.at;
      leftward = IsLeftward-append m.d p c r m.leftward;
    }

pub inorder-leftward :
    (y : Ptr) (s u : Shape) (d : Context)
    → IsLeftward d
    → inorder s ≡ y ∷ inorder u
    → inorder (plug s d) ≡ y ∷ inorder (plug u d)
inorder-leftward y s u [] h e = e
inorder-leftward y s u (left_of p c r ∷ d) h e =
    inorder-leftward y (node p c s r) (node p c u r) d h (ap (λ v. v ++ p ∷ inorder r) e)
inorder-leftward y s u (right_of p c l ∷ d) h e = absurd h

-- A frame gets another node.
module _ (x y : Ptr) (c : Color) (l : Shape) (k : Context) where
  IsBelowBlack-renamed :
      (d : Context)
      → IsBelowBlack (d ++ (right_of x c l ∷ k))
      → IsBelowBlack (d ++ (right_of y c l ∷ k))
  IsBelowBlack-renamed [] h = other c h
    where
      other : (c : Color) → IsBelowBlack (right_of x c l ∷ k) → IsBelowBlack (right_of y c l ∷ k)
      other black h = h
      other red h = h
  IsBelowBlack-renamed (left_of q black r ∷ d) h = h
  IsBelowBlack-renamed (left_of q red r ∷ d) h = h
  IsBelowBlack-renamed (right_of q black r ∷ d) h = h
  IsBelowBlack-renamed (right_of q red r ∷ d) h = h

  pub Fits-renamed :
      (n : ℕ) (d : Context)
      → Fits n (d ++ (right_of x c l ∷ k))
      → Fits n (d ++ (right_of y c l ∷ k))
  Fits-renamed n [] h = other c h
    where
      other : (c : Color) → Fits n (right_of x c l ∷ k) → Fits n (right_of y c l ∷ k)
      other black h = h
      other red h = h
  Fits-renamed n (left_of q black r ∷ d) (hr, h) = (hr, Fits-renamed (suc n) d h)
  Fits-renamed n (right_of q black r ∷ d) (hr, h) = (hr, Fits-renamed (suc n) d h)
  Fits-renamed n (left_of q red r ∷ d) (br, bk, hr, h) =
      (br, IsBelowBlack-renamed d bk, hr, Fits-renamed n d h)
  Fits-renamed n (right_of q red r ∷ d) (br, bk, hr, h) =
      (br, IsBelowBlack-renamed d bk, hr, Fits-renamed n d h)

  pub went_left-renamed :
      (d : Context) → went_left (d ++ (right_of x c l ∷ k)) ≡ went_left (d ++ (right_of y c l ∷ k))
  went_left-renamed [] = refl
  went_left-renamed (left_of q cq r ∷ d) = refl
  went_left-renamed (right_of q cq r ∷ d) = refl

  -- `if (xp == node) xp = y;`
  pub above-renamed :
      (t : Tree) (s : Shape) (d : Context)
      → Spells t s (d ++ (right_of x c l ∷ k))
      → (if above (d ++ (right_of x c l ∷ k)) == x then y else above (d ++ (right_of x c l ∷ k)))
        ≡ above (d ++ (right_of y c l ∷ k))
  above-renamed t s [] h = ground arith
  above-renamed t s (left_of q cq r ∷ d) h =
      ground (arith, h.linear x, occurs_in-append x d (right_of x c l ∷ k))
  above-renamed t s (right_of q cq r ∷ d) h =
      ground (arith, h.linear x, occurs_in-append x d (right_of x c l ∷ k))
