-- ===== src/RbTree/Sorted.antt =====
-- Sequences of nodes in the order of the comparison callback.
use trading_base.Base.{◌≡◌, ◌≢◌, refl, sym, ◌∙◌, ap, List, [], ◌∷◌, ◌++◌, true, arith}
use trading_base.Base.Int.{ℤ, is_neg, is_pos}
use trading_base.RbTree.{Ptr}
use trading_base.RbTree.Shape.{Shape, leaf, node, occurs, left_of, right_of, Context}
use trading_base.RbTree.Balance.{inorder, plug}
use mathlib.Core.List.{append_assoc, append-nil}

abbrev pub Compare : Type 0
Compare = Ptr → Ptr → ℤ

abbrev pub All : (Ptr → Type 0) → List Ptr → Type 0
All P [] = Unit {0}
All P (x ∷ xs) = P x × All P xs

-- What the comparison of keys promises: it tells a strict order.
pub record IsOrder (compare : Compare) : Type 0 where
  pub trans :
      (a b c : Ptr)
      → is_neg (compare a b) ≡ true
      → is_neg (compare b c) ≡ true
      → is_neg (compare a c) ≡ true
  pub flip : (a b : Ptr) → is_pos (compare a b) ≡ true → is_neg (compare b a) ≡ true
  pub back : (a b : Ptr) → is_neg (compare a b) ≡ true → is_pos (compare b a) ≡ true

abbrev pub Less : Compare → (Ptr → Ptr) → Ptr → Ptr → Type 0
Less compare f a b = is_neg (compare (f a) (f b)) ≡ true

abbrev pub IsSorted : Compare → (Ptr → Ptr) → List Ptr → Type 0
IsSorted compare f [] = Unit {0}
IsSorted compare f (x ∷ xs) = All (Less compare f x) xs × IsSorted compare f xs

pub All-map : (P Q : Ptr → Type 0) (xs : List Ptr) → ((a : Ptr) → P a → Q a) → All P xs → All Q xs
All-map P Q [] g h = tt
All-map P Q (x ∷ xs) g (px, h) = (g x px, All-map P Q xs g h)

pub All-of : (P : Ptr → Type 0) (xs : List Ptr) → ((a : Ptr) → P a) → All P xs
All-of P [] g = tt
All-of P (x ∷ xs) g = (g x, All-of P xs g)

pub All-append : (P : Ptr → Type 0) (xs ys : List Ptr) → All P xs → All P ys → All P (xs ++ ys)
All-append P [] ys h h' = h'
All-append P (x ∷ xs) ys (px, h) h' = (px, All-append P xs ys h h')

pub All-parts : (P : Ptr → Type 0) (xs ys : List Ptr) → All P (xs ++ ys) → All P xs × All P ys
All-parts P [] ys h = (tt, h)
All-parts P (x ∷ xs) ys (px, h) = let (l, r) = All-parts P xs ys h in ((px, l), r)

pub All-zip :
    (P Q R : Ptr → Type 0) (xs : List Ptr)
    → ((a : Ptr) → P a → Q a → R a)
    → All P xs
    → All Q xs
    → All R xs
All-zip P Q R [] g h h' = tt
All-zip P Q R (x ∷ xs) g (px, h) (qx, h') = (g x px qx, All-zip P Q R xs g h h')

-- A node that does not occur differs from all that do.
pub All-apart : (x : Ptr) (s : Shape) → occurs x s ≡ 0 → All (λ a. a ≢ x) (inorder s)
All-apart x leaf h = tt
All-apart x (node p c l r) h =
    All-append (λ a. a ≢ x) (inorder l) (p ∷ inorder r) (All-apart x l (omega arith))
      (λ e. ground arith, All-apart x r (omega arith))

module _ (compare : Compare) (f : Ptr → Ptr) where
  pub IsSorted-parts :
      (xs : List Ptr) (p : Ptr) (ys : List Ptr)
      → IsSorted compare f (xs ++ p ∷ ys)
      → IsSorted compare f xs
        × All (λ a. Less compare f a p) xs
        × All (Less compare f p) ys
        × IsSorted compare f ys
  IsSorted-parts [] p ys (h, hs) = (tt, tt, h, hs)
  IsSorted-parts (x ∷ xs) p ys (h, hs) =
      let (s, l, g, r) = IsSorted-parts xs p ys hs in
      let (hx, (hp, hy)) = All-parts (Less compare f x) xs (p ∷ ys) h in ((hx, s), (hp, l), g, r)

  -- A node goes between those below it and those above it.
  pub IsSorted-insert :
      (xs : List Ptr) (p : Ptr) (ys : List Ptr)
      → IsSorted compare f (xs ++ ys)
      → All (λ a. Less compare f a p) xs
      → All (Less compare f p) ys
      → IsSorted compare f (xs ++ p ∷ ys)
  IsSorted-insert [] p ys h l g = (g, h)
  IsSorted-insert (x ∷ xs) p ys (h, hs) (lx, l) g =
      let (hx, hy) = All-parts (Less compare f x) xs ys h in
      (All-append (Less compare f x) xs (p ∷ ys) hx (lx, hy), IsSorted-insert xs p ys hs l g)

  -- Only the keys count.
  pub IsSorted-same :
      (g : Ptr → Ptr) (xs : List Ptr)
      → All (λ a. g a ≡ f a) xs
      → IsSorted compare f xs
      → IsSorted compare g xs
  IsSorted-same g [] e h = tt
  IsSorted-same g (x ∷ xs) (ex, e) (h, hs) = (
    All-zip (λ a. g a ≡ f a) (Less compare f x) (Less compare g x) xs
        (λ a eq less. rw (ex, eq) less) e h,
    IsSorted-same g xs e hs,
  )

-- The nodes before and after a hole.
abbrev pub before : Context → List Ptr
before [] = []
before (left_of p c r ∷ k) = before k
before (right_of p c l ∷ k) = before k ++ (inorder l ++ p ∷ [])

abbrev pub after : Context → List Ptr
after [] = []
after (left_of p c r ∷ k) = p ∷ (inorder r ++ after k)
after (right_of p c l ∷ k) = after k

pub inorder-between :
    (s : Shape) (k : Context) → inorder (plug s k) ≡ before k ++ (inorder s ++ after k)
inorder-between s [] = sym (append-nil (inorder s))
inorder-between s (left_of p c r ∷ k) =
    inorder-between (node p c s r) k
    ∙ ap (λ v. before k ++ v) (append_assoc (inorder s) (p ∷ inorder r) (after k))
inorder-between s (right_of p c l ∷ k) =
    inorder-between (node p c l s) k
    ∙ ap (λ v. before k ++ v) (append_assoc (inorder l) (p ∷ inorder s) (after k))
    ∙ rw
        (
          append_assoc (before k) (inorder l ++ p ∷ []) (inorder s ++ after k),
          append_assoc (inorder l) (p ∷ []) (inorder s ++ after k),
        )
        refl

-- The last node, where there is one.
abbrev pub IsLast : Ptr → List Ptr → Type 0
IsLast q [] = Unit {0}
IsLast q (x ∷ []) = q ≡ x
IsLast q (x ∷ y ∷ ys) = IsLast q (y ∷ ys)

pub IsLast-put :
    (q p : Ptr) (xs : List Ptr) (y : Ptr) (ys : List Ptr)
    → IsLast q (xs ++ y ∷ ys)
    → IsLast q (xs ++ p ∷ y ∷ ys)
IsLast-put q p [] y ys h = h
IsLast-put q p (x ∷ []) y ys h = h
IsLast-put q p (x ∷ x' ∷ xs) y ys h = IsLast-put q p (x' ∷ xs) y ys h

pub IsLast-end : (p : Ptr) (xs : List Ptr) → IsLast p (xs ++ p ∷ [])
IsLast-end p [] = refl
IsLast-end p (x ∷ []) = refl
IsLast-end p (x ∷ x' ∷ xs) = IsLast-end p (x' ∷ xs)
