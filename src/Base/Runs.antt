-- ===== src/Base/Runs.antt =====
-- How a run of C code ends, and the rules for runs that end well.
use mathlib.Core.Path.{◌≡◌, refl}
use mathlib.Core.Bool.{Bool, true, false}
use mathlib.Core.Option.{Option, none, some}
use trading_base.Base.Tests.{if◌then◌else◌}

-- A value, an access outside the memory that the model knows, or the end of the loop's fuel.
pub data Run {ℓ} (A : Type ℓ) : Type ℓ where
  done : A → Run A
  fault : Run A
  stalled : Run A

infixl 5 ◌>>=◌
abbrev pub ◌>>=◌ {ℓ κ} : {A : Type ℓ} {B : Type κ} → Run A → (A → Run B) → Run B
done a >>= f = f a
fault >>= f = fault
stalled >>= f = stalled

abbrev pub or_fault {ℓ} : {A : Type ℓ} → Option A → Run A
or_fault none = fault
or_fault (some a) = done a

-- The run ends with a value that satisfies `P`: no fault, and the fuel was enough.
pub data Ends {ℓ κ} {A : Type ℓ} (P : A → Type κ) : Run A → Type (ℓ ⊔ κ) where
  ends : {a : A} → P a → Ends P (done a)

module _ {ℓ κ} {A : Type ℓ} {P : A → Type κ} where
  pub Ends-bind {ℓ' κ'} :
      {B : Type ℓ'} {Q : B → Type κ'} {r : Run A} {f : A → Run B}
      → Ends P r
      → ((a : A) → P a → Ends Q (f a))
      → Ends Q (r >>= f)
  Ends-bind (ends p) k = k _ p

  pub Ends-mono {κ'} : {Q : A → Type κ'} {r : Run A} → Ends P r → ((a : A) → P a → Q a) → Ends Q r
  Ends-mono (ends p) k = ends (k _ p)

  pub Ends-if :
      {x y : Run A} (b : Bool)
      → (b ≡ true → Ends P x)
      → (b ≡ false → Ends P y)
      → Ends P (if b then x else y)
  Ends-if true p q = p refl
  Ends-if false p q = q refl

  pub Ends-inv : {r : Run A} → Ends P r → (a : A) × (r ≡ done a) × P a
  Ends-inv (ends p) = (_, refl, p)
