-- ===== src/RbTree/Shape.antt =====
-- The tree that the pointers in memory spell, as a focus in a context, and how often a node occurs.
use trading_base.Base.{ℕ, ◌+◌, ◌≤◌, ◌<◌, ◌≡◌, ◌≢◌, ◌∙◌, List, [], ◌∷◌, ◌==◌, if◌then◌else◌, arith}
use trading_base.RbTree.{Ptr, null, Color, Tree}

pub data Shape : Type 0 where
  leaf : Shape
  node : Ptr → Color → Shape → Shape → Shape

-- A step from a hole to its parent: the hole is the left or the right child, beside its sibling.
pub data Frame : Type 0 where
  left_of : Ptr → Color → Shape → Frame
  right_of : Ptr → Color → Shape → Frame

-- The frames from the hole up to the root.
abbrev pub Context : Type 0
Context = List Frame

abbrev pub top : Shape → Ptr
top leaf = null
top (node p c l r) = p

abbrev pub above : Context → Ptr
above [] = null
above (left_of p c r ∷ k) = p
above (right_of p c l ∷ k) = p

-- Each node of the shape is in memory with its children, parent and color.
abbrev pub IsTree : Tree → Ptr → Shape → Type 0
IsTree t up leaf = Unit {0}
IsTree t up (node p c l r) =
    (p ≢ null)
    × (t.left p ≡ top l)
    × (t.right p ≡ top r)
    × (t.parent p ≡ up)
    × (t.color p ≡ c)
    × IsTree t p l
    × IsTree t p r

-- The context stands in memory around the child pointer `q`.
abbrev pub IsContext : Tree → Ptr → Context → Type 0
IsContext t q [] = t.root ≡ q
IsContext t q (left_of p c r ∷ k) =
    (p ≢ null)
    × (t.left p ≡ q)
    × (t.right p ≡ top r)
    × (t.parent p ≡ above k)
    × (t.color p ≡ c)
    × IsTree t p r
    × IsContext t p k
IsContext t q (right_of p c l ∷ k) =
    (p ≢ null)
    × (t.left p ≡ top l)
    × (t.right p ≡ q)
    × (t.parent p ≡ above k)
    × (t.color p ≡ c)
    × IsTree t p l
    × IsContext t p k

-- How often the node `a` occurs.
abbrev pub one : Ptr → Ptr → ℕ
one a p = if a == p then 1 else 0

abbrev pub occurs : Ptr → Shape → ℕ
occurs a leaf = 0
occurs a (node p c l r) = one a p + occurs a l + occurs a r

abbrev pub occurs_in : Ptr → Context → ℕ
occurs_in a [] = 0
occurs_in a (left_of p c r ∷ k) = one a p + occurs a r + occurs_in a k
occurs_in a (right_of p c l ∷ k) = one a p + occurs a l + occurs_in a k

-- No node occurs twice.
abbrev pub IsLinear : Shape → Context → Type 0
IsLinear s k = (a : Ptr) → occurs a s + occurs_in a k ≤ 1

-- The whole tree in memory, with the focus `s` in the context `k`.
pub record Spells (t : Tree) (s : Shape) (k : Context) : Type 0 where
  pub tree : IsTree t (above k) s
  pub context : IsContext t (top s) k
  pub linear : IsLinear s k

-- The fields of `a` are the same in both memories.
pub record SameAt (t u : Tree) (a : Ptr) : Type 0 where
  pub left : u.left a ≡ t.left a
  pub right : u.right a ≡ t.right a
  pub parent : u.parent a ≡ t.parent a
  pub color : u.color a ≡ t.color a

pub IsTree-same :
    (t u : Tree) (up : Ptr) (s : Shape)
    → ((a : Ptr) → 0 < occurs a s → SameAt t u a)
    → IsTree t up s
    → IsTree u up s
IsTree-same t u up leaf same h = tt
IsTree-same t u up (node p c l r) same (ne, hl, hr, hp, hc, tl, tr) =
    let at = same p (ground arith) in
    (
      ne,
      at.left ∙ hl,
      at.right ∙ hr,
      at.parent ∙ hp,
      at.color ∙ hc,
      IsTree-same t u p l (λ a o. same a (omega arith)) tl,
      IsTree-same t u p r (λ a o. same a (omega arith)) tr,
    )

-- Where the child pointer of the hole and the root are right, the rest is a matter of the nodes.
pub IsContext-same :
    (t u : Tree) (q : Ptr) (k : Context)
    → u.root ≡ t.root
    → ((a : Ptr) → 0 < occurs_in a k → SameAt t u a)
    → IsContext t q k
    → IsContext u q k
IsContext-same t u q [] root same h = root ∙ h
IsContext-same t u q (left_of p c r ∷ k) root same (ne, hl, hr, hp, hc, tr, rest) =
    let at = same p (ground arith) in
    (
      ne,
      at.left ∙ hl,
      at.right ∙ hr,
      at.parent ∙ hp,
      at.color ∙ hc,
      IsTree-same t u p r (λ a o. same a (omega arith)) tr,
      IsContext-same t u p k root (λ a o. same a (omega arith)) rest,
    )
IsContext-same t u q (right_of p c l ∷ k) root same (ne, hl, hr, hp, hc, tl, rest) =
    let at = same p (ground arith) in
    (
      ne,
      at.left ∙ hl,
      at.right ∙ hr,
      at.parent ∙ hp,
      at.color ∙ hc,
      IsTree-same t u p l (λ a o. same a (omega arith)) tl,
      IsContext-same t u p k root (λ a o. same a (omega arith)) rest,
    )
