-- ===== src/RbTree/Valid.antt =====
-- A red-black tree as its users see it: the sequence of its nodes.
use trading_base.Base.{
  ℕ, suc, ◌+◌, ◌≤◌, ◌<◌, ◌≡◌, ◌≢◌, refl, List, [], ◌∷◌, arith, length, length-append,
}
use trading_base.RbTree.{Ptr, Tree}
use trading_base.RbTree.Shape.{
  Shape, leaf, node, left_of, right_of, Context, top, occurs, occurs_in, Spells, SameAt,
  IsTree-same, IsContext-same,
}
use trading_base.RbTree.Balance.{IsBlack, IsBalanced, inorder, plug}
use trading_base.RbTree.Sorted.{Compare, IsSorted, IsLast, All, All-parts}

-- The memory holds a red-black tree: its pointers spell a balanced tree with a black root, its nodes
-- from left to right are `xs`, in the order of their keys, and `rightmost` points to the last one.
pub record IsRbTree (compare : Compare) (t : Tree) (xs : List Ptr) : Type 0 where
  pub shape : Shape
  pub height : ℕ
  pub spells : Spells t shape []
  pub black_root : IsBlack shape
  pub balanced : IsBalanced height shape
  pub order : inorder shape ≡ xs
  pub sorted : IsSorted compare t.key xs
  pub rightmost : IsLast t.rightmost xs

abbrev pub size : Shape → ℕ
size leaf = 0
size (node p c l r) = suc (size l + size r)

pub length-inorder : (s : Shape) → length (inorder s) ≡ size s
length-inorder leaf = refl
length-inorder (node p c l r) =
    omega (arith, length-append (inorder l) (p ∷ inorder r), length-inorder l, length-inorder r)

pub size-plug : (s : Shape) (k : Context) → length k + size s ≤ size (plug s k)
size-plug s [] = omega arith
size-plug s (left_of p c r ∷ k) = omega (arith, size-plug (node p c s r) k)
size-plug s (right_of p c l ∷ k) = omega (arith, size-plug (node p c l s) k)

pub occurs-apart : (x : Ptr) (s : Shape) → All (λ a. a ≢ x) (inorder s) → occurs x s ≡ 0
occurs-apart x leaf h = refl
occurs-apart x (node p c l r) h =
    let (hl, (hp, hr)) = All-parts (λ a. a ≢ x) (inorder l) (p ∷ inorder r) h in
    ground (arith, occurs-apart x l hl, occurs-apart x r hr)

-- Only the fields of the nodes of the tree count.
pub Spells-same :
    {t : Tree} {s : Shape} {k : Context} (u : Tree)
    → u.root ≡ t.root
    → ((a : Ptr) → 0 < occurs a s + occurs_in a k → SameAt t u a)
    → Spells t s k
    → Spells u s k
Spells-same {t} {s} {k} u root same h = record {
  tree = IsTree-same t u _ s (λ a o. same a (omega arith)) h.tree;
  context = IsContext-same t u (top s) k root (λ a o. same a (omega arith)) h.context;
  linear = h.linear;
}
