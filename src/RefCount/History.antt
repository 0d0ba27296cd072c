-- ===== src/RefCount/History.antt =====
-- The life of a counted object under calls that do not overlap.
use trading_base.Base.{
  ℕ, zero, suc, ◌+◌, ◌%◌, ◌^◌, ◌<◌, ◌≡◌, refl, ◌==◌, if◌then◌else◌, Option, none, some, List, [],
  ◌∷◌, ◌++◌, arith,
}
use trading_base.ResultCode.{AResult, a_ok, a_e_inval}
use trading_base.RefCount.{Refcnt, Swapped, IsCas, get_loop, refcnt_get, refcnt_release}

pub data Use : Type 0 where
  get : Use
  release : Use

-- What a sequence of uses shows: the result of each, and the destructors that were called.
pub record Shown : Type 0 where
  pub results : List AResult
  pub called : List ℕ
  pub last : Refcnt

abbrev pub the_call : Option ℕ → List ℕ
the_call none = []
the_call (some d) = d ∷ []

infixl 5 ◌>>=◌
abbrev ◌>>=◌ : {A B : Type 0} → Option A → (A → Option B) → Option B
none >>= f = none
some a >>= f = f a

-- The uses of one object, each after the one before; a get that runs out of fuel stops all.
unfoldable pub uses : (ℕ → ℕ → ℕ → Swapped) → List Use → Refcnt → Option Shown
uses cas [] ref = some (record { results = []; called = []; last = ref })
uses cas (get ∷ more) ref = do
  (r, ref') ← refcnt_get cas 1 ref
  shown ← uses cas more ref'
  some (record shown { results = r ∷ shown.results })
uses cas (release ∷ more) ref = do
  shown ← uses cas more (refcnt_release ref).1
  some (record shown {
    results = (refcnt_release ref).0 ∷ shown.results;
    called = the_call (refcnt_release ref).2 ++ shown.called;
  })

-- How many references are out after the uses, from n; none comes back.
abbrev pub outstanding : ℕ → List Use → ℕ
outstanding n [] = n
outstanding zero (u ∷ more) = 0
outstanding (suc n) (get ∷ more) = outstanding (suc (suc n)) more
outstanding (suc n) (release ∷ more) = outstanding n more

-- The result of each use: good as long as a reference is out.
abbrev pub allowed : ℕ → List Use → List AResult
allowed n [] = []
allowed zero (u ∷ more) = a_e_inval ∷ allowed zero more
allowed (suc n) (get ∷ more) = a_ok ∷ allowed (suc (suc n)) more
allowed (suc n) (release ∷ more) = a_ok ∷ allowed n more

abbrev pub amount : List Use → ℕ
amount [] = 0
amount (u ∷ more) = suc (amount more)

get_live :
    (cas : ℕ → ℕ → ℕ → Swapped) (ref : Refcnt) (n : ℕ)
    → IsCas cas
    → ref.refcnt ≡ suc n
    → n + 2 < 2 ^ 32
    → refcnt_get cas 1 ref ≡ some (a_ok, record ref { refcnt = suc (suc n) })
unfolding refcnt_get get_loop IsCas
get_live cas ref n law is small =
    let fits : (suc n + 1) % 2 ^ 32 ≡ suc (suc n) = omega arith in
    rw is (rw (law (suc n) (suc n) ((suc n + 1) % 2 ^ 32)) (ground arith))

get_dead :
    (cas : ℕ → ℕ → ℕ → Swapped) (ref : Refcnt)
    → ref.refcnt ≡ 0
    → refcnt_get cas 1 ref ≡ some (a_e_inval, ref)
unfolding refcnt_get
get_dead cas ref is = ground arith

release_live :
    (ref : Refcnt) (n : ℕ)
    → ref.refcnt ≡ suc n
    → refcnt_release ref
      ≡ (a_ok, record ref { refcnt = n }, if n == 0 then ref.destructor else none)
unfolding refcnt_release
release_live ref n is = rw is (ground arith)

release_dead : (ref : Refcnt) → ref.refcnt ≡ 0 → refcnt_release ref ≡ (a_e_inval, ref, none)
unfolding refcnt_release
release_dead ref is = rw is refl

-- The destructor of an object that had n references before the uses.
abbrev pub ended : ℕ → List Use → Option ℕ → List ℕ
ended zero us destructor = []
ended (suc n) us destructor = if outstanding (suc n) us == 0 then the_call destructor else []

outstanding-zero : (us : List Use) → outstanding 0 us ≡ 0
outstanding-zero [] = refl
outstanding-zero (u ∷ more) = refl

ended-release :
    (n : ℕ) (more : List Use) (d : Option ℕ)
    → the_call (if n == 0 then d else none) ++ ended n more d ≡ ended (suc n) (release ∷ more) d
ended-release zero more none = rw (outstanding-zero more) refl
ended-release zero more (some d) = rw (outstanding-zero more) refl
ended-release (suc n) more d = ground arith

-- From a count of n references and for fewer than 2 ^ 32 - n uses that do not overlap, with one round of the swap
-- each: a use succeeds as long as a reference is out and gives A_E_INVAL after that; the count at the end is
-- the number of references that are out; and the destructor is called once if the last reference is released, and
-- otherwise, or when there was none from the start, not at all.
pub uses_lem :
    (cas : ℕ → ℕ → ℕ → Swapped) (us : List Use) (destructor : Option ℕ) (n : ℕ)
    → IsCas cas
    → n + amount us < 2 ^ 32
    → uses cas us (record { destructor = destructor; refcnt = n })
      ≡ some (record {
        results = allowed n us;
        called = ended n us destructor;
        last = record { destructor = destructor; refcnt = outstanding n us };
      })
unfolding uses
uses_lem cas [] d zero law small = refl
uses_lem cas [] d (suc n) law small = ground arith
uses_lem cas (get ∷ more) d zero law small =
    rw (get_dead cas (record { destructor = d; refcnt = 0 }) refl)
      (rw (uses_lem cas more d 0 law (omega (arith, small))) (rw (outstanding-zero more) refl))
uses_lem cas (get ∷ more) d (suc n) law small =
    rw (get_live cas (record { destructor = d; refcnt = suc n }) n law refl (omega (arith, small)))
      (rw (uses_lem cas more d (suc (suc n)) law (omega (arith, small))) refl)
uses_lem cas (release ∷ more) d zero law small =
    rw (release_dead (record { destructor = d; refcnt = 0 }) refl)
      (rw (uses_lem cas more d 0 law (omega (arith, small))) (rw (outstanding-zero more) refl))
uses_lem cas (release ∷ more) d (suc n) law small =
    rw (release_live (record { destructor = d; refcnt = suc n }) n refl)
      (rw (uses_lem cas more d n law (omega (arith, small))) (rw (ended-release n more d) refl))
