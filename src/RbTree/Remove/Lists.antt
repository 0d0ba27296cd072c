-- ===== src/RbTree/Remove/Lists.antt =====
-- rb_tree_remove on the sequence of the nodes: one of them is taken out.
use trading_base.Base.{ℕ, ◌+◌, ◌≤◌, ◌<◌, ◌≡◌, ◌≢◌, refl, ap, List, [], ◌∷◌, ◌++◌, arith}
use trading_base.RbTree.{Ptr}
use trading_base.RbTree.Shape.{Shape, leaf, node, occurs, one}
use trading_base.RbTree.Balance.{inorder}
use trading_base.RbTree.Sorted.{Compare, All, Less, IsSorted, IsLast, All-append, All-parts}
use trading_base.RbTree.Neighbours.Previous.{last}

abbrev count : Ptr → List Ptr → ℕ
count x [] = 0
count x (y ∷ ys) = one x y + count x ys

count-append : (x : Ptr) (ys zs : List Ptr) → count x (ys ++ zs) ≡ count x ys + count x zs
count-append x [] zs = omega arith
count-append x (y ∷ ys) zs = omega (arith, count-append x ys zs)

count-inorder : (x : Ptr) (s : Shape) → count x (inorder s) ≡ occurs x s
count-inorder x leaf = refl
count-inorder x (node p c l r) =
    omega (arith, count-append x (inorder l) (p ∷ inorder r), count-inorder x l, count-inorder x r)

count-All : (x : Ptr) (ys : List Ptr) → count x ys ≡ 0 → All (λ a. a ≢ x) ys
count-All x [] h = tt
count-All x (y ∷ ys) h = (λ e. ground arith, count-All x ys (omega arith))

-- A node that occurs once is in neither part beside it.
pub apart_parts :
    (x : Ptr) (s : Shape) (ys zs : List Ptr)
    → inorder s ≡ ys ++ x ∷ zs
    → occurs x s ≤ 1
    → All (λ a. a ≢ x) ys × All (λ a. a ≢ x) zs
apart_parts x s ys zs e once =
    let n : count x ys + (one x x + count x zs) ≤ 1 =
      omega (arith, count-inorder x s, ap (count x) e, count-append x ys (x ∷ zs)) in
    (count-All x ys (ground arith), count-All x zs (ground arith))

pub occurs_inside :
    (x : Ptr) (s : Shape) (ys zs : List Ptr) → inorder s ≡ ys ++ x ∷ zs → 0 < occurs x s
occurs_inside x s ys zs e =
    let n : count x (ys ++ x ∷ zs) ≡ count x ys + (one x x + count x zs) =
      count-append x ys (x ∷ zs) in
    let o : one x x ≡ 1 = ground arith in omega (arith, count-inorder x s, ap (count x) e, n, o)

pub IsSorted-drop :
    (compare : Compare) (f : Ptr → Ptr) (xs : List Ptr) (p : Ptr) (ys : List Ptr)
    → IsSorted compare f (xs ++ p ∷ ys)
    → IsSorted compare f (xs ++ ys)
IsSorted-drop compare f [] p ys h = h.1
IsSorted-drop compare f (x ∷ xs) p ys (hx, h) =
    let (a, b) = All-parts (Less compare f x) xs (p ∷ ys) hx in
    (All-append (Less compare f x) xs ys a b.1, IsSorted-drop compare f xs p ys h)

pub IsLast-drop :
    (q : Ptr) (xs : List Ptr) (p y : Ptr) (ys : List Ptr)
    → IsLast q (xs ++ p ∷ y ∷ ys)
    → IsLast q (xs ++ y ∷ ys)
IsLast-drop q [] p y ys h = h
IsLast-drop q (x ∷ []) p y ys h = h
IsLast-drop q (x ∷ x' ∷ xs) p y ys h = IsLast-drop q (x' ∷ xs) p y ys h

IsLast-tail :
    (q : Ptr) (xs : List Ptr) (y : Ptr) (ys : List Ptr)
    → IsLast q (xs ++ y ∷ ys)
    → IsLast q (y ∷ ys)
IsLast-tail q [] y ys h = h
IsLast-tail q (x ∷ []) y ys h = h
IsLast-tail q (x ∷ x' ∷ xs) y ys h = IsLast-tail q (x' ∷ xs) y ys h

IsLast-All :
    (P : Ptr → Type 0) (q y : Ptr) (ys : List Ptr) → All P (y ∷ ys) → IsLast q (y ∷ ys) → P q
IsLast-All P q y [] h e = rw e h.0
IsLast-All P q y (z ∷ ys) h e = IsLast-All P q z ys h.1 e

pub last-IsLast : (xs : List Ptr) → IsLast (last xs) xs
last-IsLast [] = tt
last-IsLast (x ∷ []) = refl
last-IsLast (x ∷ y ∷ ys) = last-IsLast (y ∷ ys)

-- Nothing is after the last node.
pub last-none :
    (x : Ptr) (ys zs : List Ptr) → IsLast x (ys ++ x ∷ zs) → All (λ a. a ≢ x) zs → zs ≡ []
last-none x ys [] h new = refl
last-none x ys (z ∷ zs) h new =
    absurd (IsLast-All (λ a. a ≢ x) x z zs new (IsLast-tail x ys x (z ∷ zs) h) refl)

-- Another node is the last one still.
pub IsLast-without :
    (q x : Ptr) (ys zs : List Ptr) → q ≢ x → IsLast q (ys ++ x ∷ zs) → IsLast q (ys ++ zs)
IsLast-without q x ys [] ne h = absurd (ne (IsLast-tail q ys x [] h))
IsLast-without q x ys (z ∷ zs) ne h = IsLast-drop q ys x z zs h
