-- ===== src/Allocator/Free.antt =====
-- The free items of a slab: items that were given back, and behind them those that were never used.
use trading_base.Base.{
  ℕ, zero, suc, ◌+◌, ◌*◌, ◌<◌, ◌≤◌, ◌≡◌, ◌≢◌, refl, sym, ap, subst, ◌∙◌, ◌==◌, if◌then◌else◌, List,
  [], ◌∷◌, length, arith,
}
use trading_base.LinkedList.{Ptr}
use trading_base.Allocator.{next_link}

-- k items from p on.
abbrev pub from : ℕ → ℕ → Ptr → List Ptr
from zero size p = []
from (suc k) size p = p ∷ from k size (p + size)

-- Exactly k items fit between p and the limit.
abbrev pub Fits : ℕ → ℕ → Ptr → ℕ → Type 0
Fits zero size p limit = limit < p + size
Fits (suc k) size p limit = (p + size ≤ limit) × Fits k size (p + size) limit

-- The items that the pointers `next` reach from p, for a slab that ends at the limit.
pub data Chain (next : Ptr → Ptr) (size limit : ℕ) : Ptr → List Ptr → Type 0 where
  ended : {p : Ptr} → p ≡ 0 → Chain next size limit p []
  linked :
      {p : Ptr} {xs : List Ptr}
      → p ≢ 0
      → next p ≢ next_link
      → Chain next size limit (next p) xs
      → Chain next size limit p (p ∷ xs)
  fresh :
      {p : Ptr} {xs : List Ptr} (k : ℕ)
      → p ≢ 0
      → next p ≡ next_link
      → Fits k size (p + size) limit
      → xs ≡ from k size (p + size)
      → Chain next size limit p (p ∷ xs)

abbrev pub Absent : Ptr → List Ptr → Type 0
Absent x [] = Unit {0}
Absent x (y ∷ ys) = (x ≢ y) × Absent x ys

abbrev pub Distinct : List Ptr → Type 0
Distinct [] = Unit {0}
Distinct (y ∷ ys) = Absent y ys × Distinct ys

-- Each item lies between two addresses.
abbrev pub AllIn : ℕ → ℕ → ℕ → List Ptr → Type 0
AllIn lo hi size [] = Unit {0}
AllIn lo hi size (y ∷ ys) = (lo ≤ y) × (y + size ≤ hi) × AllIn lo hi size ys

abbrev pub write : (Ptr → Ptr) → Ptr → Ptr → Ptr → Ptr
write next x v p = if p == x then v else next p

pub Chain-write :
    {next : Ptr → Ptr} {size limit : ℕ} {p : Ptr} {xs : List Ptr} (x v : Ptr)
    → Chain next size limit p xs
    → Absent x xs
    → Chain (write next x v) size limit p xs
Chain-write x v (ended e) out = ended e
Chain-write {next} {size} {limit} {p} x v (linked {xs} live other rest) (ne, out) =
    let same : write next x v p ≡ next p = ground arith in
    linked live (λ e. other (sym same ∙ e))
      (subst (λ q. Chain (write next x v) size limit q xs) (sym same) (Chain-write x v rest out))
Chain-write {next} {p} x v (fresh k live e fits is) (ne, out) =
    let same : write next x v p ≡ next p = ground arith in fresh k live (same ∙ e) fits is

from-Absent : (k size p x : ℕ) → x < p → Absent x (from k size p)
from-Absent zero size p x lt = tt
from-Absent (suc k) size p x lt =
    (omega (arith, lt), from-Absent k size (p + size) x (omega (arith, lt)))

pub from-Distinct : (k size p : ℕ) → 0 < size → Distinct (from k size p)
from-Distinct zero size p some_ = tt
from-Distinct (suc k) size p some_ =
    (from-Absent k size (p + size) p (omega (arith, some_)), from-Distinct k size (p + size) some_)

pub from-AllIn : (k size p lo hi : ℕ) → lo ≤ p → Fits k size p hi → AllIn lo hi size (from k size p)
from-AllIn zero size p lo hi le fits = tt
from-AllIn (suc k) size p lo hi le (fit, fits) =
    (le, fit, from-AllIn k size (p + size) lo hi (omega (arith, le)) fits)

pub length-from : (k size p : ℕ) → length (from k size p) ≡ k
length-from zero size p = refl
length-from (suc k) size p = ap suc (length-from k size (p + size))

times_suc : (k size : ℕ) → suc k * size ≡ k * size + size
times_suc k size = grind arith

pub Fits-times :
    (k size p limit : ℕ) → p + k * size ≤ limit → limit < p + k * size + size → Fits k size p limit
Fits-times zero size p limit le lt =
    let none_ : 0 * size ≡ 0 = grind arith in omega (arith, none_, lt)
Fits-times (suc k) size p limit le lt = (
  omega (arith, times_suc k size, le),
  Fits-times k size (p + size) limit (omega (arith, times_suc k size, le))
      (omega (arith, times_suc k size, lt)),
)
