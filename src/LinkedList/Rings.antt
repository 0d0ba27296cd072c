-- ===== src/LinkedList/Rings.antt =====
-- The lists that the links spell, and what a change of the links does to them.
use trading_base.Base.{
  ℕ, ◌+◌, ◌≤◌, ◌<◌, ◌≡◌, ◌≢◌, refl, ◌∙◌, List, [], ◌∷◌, ◌++◌, ◌==◌, if◌then◌else◌, arith,
}
use trading_base.LinkedList.{Ptr, Links}

-- From `a` the links go forward through `xs` to `b`, and back the same way.
abbrev pub Linked : Links → Ptr → List Ptr → Ptr → Type 0
Linked m a [] b = (m.next a ≡ b) × (m.prev b ≡ a)
Linked m a (x ∷ xs) b = (m.next a ≡ x) × (m.prev x ≡ a) × Linked m x xs b

abbrev pub one : Ptr → Ptr → ℕ
one p a = if p == a then 1 else 0

abbrev pub count : Ptr → List Ptr → ℕ
count p [] = 0
count p (x ∷ xs) = one p x + count p xs

pub count-append : (p : Ptr) (xs ys : List Ptr) → count p (xs ++ ys) ≡ count p xs + count p ys
count-append p [] ys = omega arith
count-append p (x ∷ xs) ys = omega (arith, count-append p xs ys)

-- The head `h` is linked to the items `xs` in a circle, and all are different.
pub record IsRing (m : Links) (h : Ptr) (xs : List Ptr) : Type 0 where
  pub linked : Linked m h xs h
  pub once : (p : Ptr) → one p h + count p xs ≤ 1

-- The last one, and the first one.
abbrev pub end : Ptr → List Ptr → Ptr
end a [] = a
end a (x ∷ xs) = end x xs

abbrev pub start : List Ptr → Ptr → Ptr
start [] b = b
start (y ∷ ys) b = y

pub Linked-end :
    (m : Links) (a : Ptr) (xs : List Ptr) (b : Ptr) → Linked m a xs b → m.prev b ≡ end a xs
Linked-end m a [] b h = h.1
Linked-end m a (x ∷ xs) b h = Linked-end m x xs b h.2

pub Linked-start :
    (m : Links) (a : Ptr) (xs : List Ptr) (b : Ptr) → Linked m a xs b → m.next a ≡ start xs b
Linked-start m a [] b h = h.0
Linked-start m a (x ∷ xs) b h = h.0

pub Linked-last :
    (m : Links) (a : Ptr) (xs : List Ptr) (b : Ptr) → Linked m a xs b → m.next (end a xs) ≡ b
Linked-last m a [] b h = h.0
Linked-last m a (x ∷ xs) b h = Linked-last m x xs b h.2

pub Linked-at :
    (m : Links) (a : Ptr) (xs : List Ptr) (x : Ptr) (ys : List Ptr) (b : Ptr)
    → Linked m a (xs ++ x ∷ ys) b
    → (m.prev x ≡ end a xs) × (m.next x ≡ start ys b)
Linked-at m a [] x ys b h = (h.1, Linked-start m x ys b h.2)
Linked-at m a (z ∷ xs) x ys b h = Linked-at m z xs x ys b h.2

pub end-append : (a : Ptr) (xs : List Ptr) (x : Ptr) → end a (xs ++ x ∷ []) ≡ x
end-append a [] x = refl
end-append a (z ∷ xs) x = end-append z xs x

pub count-end : (a : Ptr) (xs : List Ptr) → 0 < one (end a xs) a + count (end a xs) xs
count-end a [] = ground arith
count-end a (x ∷ xs) = omega (arith, count-end x xs)

pub count-start : (ys : List Ptr) (b : Ptr) → 0 < count (start ys b) ys + one (start ys b) b
count-start [] b = ground arith
count-start (y ∷ ys) b = ground arith

-- A node that occurs is not one that does not.
pub differ : (p q n : ℕ) → 0 < n → one p q + n ≤ 1 → p ≢ q
differ p q n o h e = ground arith

pub Linked-same :
    (m u : Links) (a : Ptr) (xs : List Ptr) (b : Ptr)
    → ((p : Ptr) → 0 < one p a + count p xs → u.next p ≡ m.next p)
    → ((p : Ptr) → 0 < count p xs + one p b → u.prev p ≡ m.prev p)
    → Linked m a xs b
    → Linked u a xs b
Linked-same m u a [] b fn fp (n, p) = (fn a (ground arith) ∙ n, fp b (ground arith) ∙ p)
Linked-same m u a (x ∷ xs) b fn fp (n, p, h) = (
  fn a (ground arith) ∙ n,
  fp x (ground arith) ∙ p,
  Linked-same m u x xs b (λ q o. fn q (omega arith)) (λ q o. fp q (omega arith)) h,
)

pub Linked-join :
    (m : Links) (a : Ptr) (xs : List Ptr) (y : Ptr) (ys : List Ptr) (b : Ptr)
    → Linked m a xs y
    → Linked m (end a xs) (y ∷ ys) b
    → Linked m a (xs ++ y ∷ ys) b
Linked-join m a [] y ys b h g = g
Linked-join m a (x ∷ xs) y ys b h g = (h.0, h.1, Linked-join m x xs y ys b h.2 g)
