-- ===== src/Base/Arrays.antt =====
-- C arrays of pointers as lists: reads, writes and exchanges of the first `n` cells.
use Prim.Native.Nat.{ℕ, zero, suc, ◌≤◌, ◌<◌}
use mathlib.Core.Path.{◌≡◌, refl, ap}
use mathlib.Core.List.{List, [], ◌∷◌, ◌++◌, Perm}
use mathlib.Core.List.Perm
use mathlib.Core.Option.{some}
use native.Mathlib.Omega.{arith}
use trading_base.Base.Tests.{◌==◌, if◌then◌else◌}
use trading_base.Base.Lists.{length, get_elem?, get_or, set, take, length-set}

module _ {ℓ} {A : Type ℓ} where
  pub get_elem?-get_or :
      (a : List A) (i : ℕ) (d : A) → i < length a → get_elem? a i ≡ some (get_or a i d)
  get_elem?-get_or [] i d h = absurd (omega arith)
  get_elem?-get_or (x ∷ a) zero d h = refl
  get_elem?-get_or (x ∷ a) (suc i) d h = get_elem?-get_or a i d (omega arith)

  pub get_or-set :
      (a : List A) (i j : ℕ) (v d : A)
      → i < length a
      → get_or (set a i v) j d ≡ (if i == j then v else get_or a j d)
  get_or-set [] i j v d h = absurd (omega arith)
  get_or-set (x ∷ a) zero zero v d h = refl
  get_or-set (x ∷ a) (suc i) (suc j) v d h = ground (arith, get_or-set a i j v d)
  get_or-set (x ∷ a) i j v d h = ground arith

  pub get_or-take :
      (n : ℕ) (a : List A) (i : ℕ) (d : A) → i < n → get_or (take n a) i d ≡ get_or a i d
  get_or-take zero a i d h = absurd (omega arith)
  get_or-take (suc n) [] i d h = refl
  get_or-take (suc n) (x ∷ a) zero d h = refl
  get_or-take (suc n) (x ∷ a) (suc i) d h = get_or-take n a i d (omega arith)

  pub take-set : (n : ℕ) (a : List A) (i : ℕ) (v : A) → take n (set a i v) ≡ set (take n a) i v
  take-set zero a i v = refl
  take-set (suc n) [] i v = refl
  take-set (suc n) (x ∷ a) zero v = refl
  take-set (suc n) (x ∷ a) (suc i) v = ap (◌∷◌ x) (take-set n a i v)

  -- A write at or past `n` is not seen by the first `n` cells.
  pub take-set_ge : (n : ℕ) (a : List A) (i : ℕ) (v : A) → n ≤ i → take n (set a i v) ≡ take n a
  take-set_ge zero a i v h = refl
  take-set_ge (suc n) [] i v h = refl
  take-set_ge (suc n) (x ∷ a) zero v h = absurd (omega arith)
  take-set_ge (suc n) (x ∷ a) (suc i) v h = ap (◌∷◌ x) (take-set_ge n a i v (omega arith))

  pub take-suc :
      (n : ℕ) (a : List A) (d : A) → n < length a → take (suc n) a ≡ take n a ++ get_or a n d ∷ []
  take-suc n [] d h = absurd (omega arith)
  take-suc zero (x ∷ a) d h = refl
  take-suc (suc n) (x ∷ a) d h = ap (◌∷◌ x) (take-suc n a d (omega arith))

  -- A write trades the old entry for the new one.
  pub set-perm :
      (a : List A) (i : ℕ) (v d : A) → i < length a → Perm (get_or a i d ∷ set a i v) (v ∷ a)
  set-perm [] i v d h = absurd (omega arith)
  set-perm (x ∷ a) zero v d h = Perm.swap v x a
  set-perm (x ∷ a) (suc i) v d h =
      let rest = Perm.cons x (set-perm a i v d (omega arith)) in
      Perm.trans (Perm.swap x _ _) (Perm.trans rest (Perm.swap v x a))

  -- The entries at `i` and `j` change places.
  unfoldable pub exchange : List A → ℕ → ℕ → A → List A
  exchange a i j d = set (set a i (get_or a j d)) j (get_or a i d)

  pub length-exchange : (a : List A) (i j : ℕ) (d : A) → length (exchange a i j d) ≡ length a
  unfolding exchange
  length-exchange a i j d = simp length-set

  module _ (a : List A) (i j : ℕ) (d : A) (hi : i < length a) (hj : j < length a) where
    pub get_or-exchange :
        (c : ℕ)
        → get_or (exchange a i j d) c d
          ≡ (if j == c then get_or a i d else if i == c then get_or a j d else get_or a c d)
    unfolding exchange
    get_or-exchange c = rw (
      get_or-set (set a i (get_or a j d)) j c (get_or a i d) d (rw length-set hj),
      get_or-set a i c (get_or a j d) d hi,
    )

    pub exchange-perm : Perm (exchange a i j d) a
    unfolding exchange
    exchange-perm =
        let b = set a i (get_or a j d) in
        let kept : get_or b j d ≡ get_or a j d =
          ground (arith, get_or-set a i j (get_or a j d) d) in
        let second = rw kept at (set-perm b j (get_or a i d) d (rw length-set hj)) in
        Perm.cons_inv (Perm.trans second (set-perm a i (get_or a j d) d hi))

  pub take-exchange :
      (n : ℕ) (a : List A) (i j : ℕ) (d : A)
      → i < n
      → j < n
      → take n (exchange a i j d) ≡ exchange (take n a) i j d
  unfolding exchange
  take-exchange n a i j d hi hj =
      rw (take-set, take-set, get_or-take n a j d hj, get_or-take n a i d hi)

  -- Arrays that agree on their first `n` cells.
  pub take_ext :
      (n : ℕ) (a b : List A) (d : A)
      → n ≤ length a
      → n ≤ length b
      → ((i : ℕ) → i < n → get_or a i d ≡ get_or b i d)
      → take n a ≡ take n b
  take_ext zero a b d p q same = refl
  take_ext (suc n) [] b d p q same = absurd (omega arith)
  take_ext (suc n) (x ∷ a) [] d p q same = absurd (omega arith)
  take_ext (suc n) (x ∷ a) (y ∷ b) d p q same = cc (
    same 0 (omega arith),
    take_ext n a b d (omega arith) (omega arith) (λ i h. same (suc i) (omega arith)),
  )
