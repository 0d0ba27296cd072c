-- ===== src/RbTree/Balance.antt =====
-- Red-black trees as shapes: balance, the sequence of the nodes, and how both pass from a focus to
-- the whole tree.
use trading_base.Base.{ℕ, suc, ◌+◌, ◌≡◌, refl, sym, List, [], ◌∷◌, ◌++◌, ◌⊎◌, inl, inr, arith}
use trading_base.RbTree.{Ptr, Color, black, red}
use trading_base.RbTree.Shape.{Shape, leaf, node, left_of, right_of, Context, occurs, occurs_in}
use mathlib.Core.List.{append_assoc}

-- A leaf counts as black.
abbrev pub IsBlack : Shape → Type 0
IsBlack leaf = Unit {0}
IsBlack (node p black l r) = Unit {0}
IsBlack (node p red l r) = ⊥

-- The context ends at a black parent, so that a red node fits below it.
abbrev pub IsBelowBlack : Context → Type 0
IsBelowBlack [] = ⊥
IsBelowBlack (left_of p black r ∷ k) = Unit {0}
IsBelowBlack (right_of p black r ∷ k) = Unit {0}
IsBelowBlack (left_of p red r ∷ k) = ⊥
IsBelowBlack (right_of p red r ∷ k) = ⊥

abbrev pub IsRoot : Context → Type 0
IsRoot [] = Unit {0}
IsRoot (f ∷ k) = ⊥

-- `n` black nodes on each path down, and no red node below a red one.
abbrev pub IsBalanced : ℕ → Shape → Type 0
IsBalanced n leaf = n ≡ 0
IsBalanced n (node p black l r) = (m : ℕ) × (n ≡ suc m) × IsBalanced m l × IsBalanced m r
IsBalanced n (node p red l r) = IsBlack l × IsBlack r × IsBalanced n l × IsBalanced n r

-- The context around a hole for a subtree with `n` black nodes on each path; the root is black.
abbrev pub Fits : ℕ → Context → Type 0
Fits n [] = Unit {0}
Fits n (left_of p black r ∷ k) = IsBalanced n r × Fits (suc n) k
Fits n (right_of p black l ∷ k) = IsBalanced n l × Fits (suc n) k
Fits n (left_of p red r ∷ k) = IsBlack r × IsBelowBlack k × IsBalanced n r × Fits n k
Fits n (right_of p red l ∷ k) = IsBlack l × IsBelowBlack k × IsBalanced n l × Fits n k

-- The whole tree.
abbrev pub plug : Shape → Context → Shape
plug s [] = s
plug s (left_of p c r ∷ k) = plug (node p c s r) k
plug s (right_of p c l ∷ k) = plug (node p c l s) k

-- The nodes from left to right.
abbrev pub inorder : Shape → List Ptr
inorder leaf = []
inorder (node p c l r) = inorder l ++ p ∷ inorder r

abbrev pub around : Context → List Ptr → List Ptr
around [] xs = xs
around (left_of p c r ∷ k) xs = around k (xs ++ p ∷ inorder r)
around (right_of p c l ∷ k) xs = around k (inorder l ++ p ∷ xs)

pub inorder-plug : (s : Shape) (k : Context) → inorder (plug s k) ≡ around k (inorder s)
inorder-plug s [] = refl
inorder-plug s (left_of p c r ∷ k) = inorder-plug (node p c s r) k
inorder-plug s (right_of p c l ∷ k) = inorder-plug (node p c l s) k

pub occurs-plug :
    (a : Ptr) (s : Shape) (k : Context) → occurs a (plug s k) ≡ occurs a s + occurs_in a k
occurs-plug a s [] = omega arith
occurs-plug a s (left_of p c r ∷ k) = omega (arith, occurs-plug a (node p c s r) k)
occurs-plug a s (right_of p c l ∷ k) = omega (arith, occurs-plug a (node p c l s) k)

pub inorder_turned :
    (x y : Ptr) (cx cy : Color) (a b c : Shape)
    → inorder (node x cx a (node y cy b c)) ≡ inorder (node y cy (node x cx a b) c)
inorder_turned x y cx cy a b c = sym (append_assoc (inorder a) (x ∷ inorder b) (y ∷ inorder c))

-- A balanced subtree in a context that takes it makes a balanced tree.
pub plug-IsBalanced :
    (n : ℕ) (s : Shape) (k : Context)
    → IsBalanced n s
    → Fits n k
    → IsBlack s ⊎ (IsBelowBlack k ⊎ IsRoot k)
    → (m : ℕ) × IsBalanced m (plug s k)
plug-IsBalanced n s [] h f v = (n, h)
plug-IsBalanced n s (left_of p black r ∷ k) h (hr, f) v =
    plug-IsBalanced (suc n) (node p black s r) k (n, refl, h, hr) f (inl tt)
plug-IsBalanced n s (right_of p black l ∷ k) h (hl, f) v =
    plug-IsBalanced (suc n) (node p black l s) k (n, refl, hl, h) f (inl tt)
plug-IsBalanced n s (left_of p red r ∷ k) h (br, bk, hr, f) (inl b) =
    plug-IsBalanced n (node p red s r) k (b, br, h, hr) f (inr (inl bk))
plug-IsBalanced n s (left_of p red r ∷ k) h (br, bk, hr, f) (inr (inl e)) = absurd e
plug-IsBalanced n s (left_of p red r ∷ k) h (br, bk, hr, f) (inr (inr e)) = absurd e
plug-IsBalanced n s (right_of p red l ∷ k) h (bl, bk, hl, f) (inl b) =
    plug-IsBalanced n (node p red l s) k (bl, b, hl, h) f (inr (inl bk))
plug-IsBalanced n s (right_of p red l ∷ k) h (bl, bk, hl, f) (inr (inl e)) = absurd e
plug-IsBalanced n s (right_of p red l ∷ k) h (bl, bk, hl, f) (inr (inr e)) = absurd e
