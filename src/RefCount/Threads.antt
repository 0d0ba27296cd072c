-- ===== src/RefCount/Threads.antt =====
-- tsl/refcnt.h under threads: one step for each access to the shared count.
use trading_base.Base.{
  ℕ, ◌+◌, ◌-◌, ◌%◌, ◌^◌, ◌<◌, ◌≤◌, ◌≡◌, ◌≢◌, refl, Bool, true, false, ◌==◌, if◌then◌else◌, List, [],
  ◌∷◌, Bool-cases, ==_refl, subst, inl, inr, arith,
}
use trading_base.RefCount.{Swapped, IsCas}

-- refcnt_get, in one thread.
pub data Getting : Type 0 where
  g_test : Getting  -- before the test for 0
  g_load : Getting  -- before the load of `initial`
  g_swap : (initial : ℕ) → Getting
  g_ok : Getting
  g_inval : Getting

unfoldable pub get_step : (ℕ → ℕ → ℕ → Swapped) → ℕ → Getting → ℕ × Getting
get_step cas count g_test = (count, if count == 0 then g_inval else g_load)
get_step cas count g_load = (count, g_swap count)
get_step cas count (g_swap initial) =
    let swap = cas count initial ((initial + 1) % 2 ^ 32) in
    (swap.target, if swap.value == 0 then g_inval else (if swap.result then g_ok else g_load))
get_step cas count g_ok = (count, g_ok)
get_step cas count g_inval = (count, g_inval)

-- refcnt_release, in one thread.
pub data Releasing : Type 0 where
  r_test : Releasing  -- before the test for 0
  r_load : Releasing  -- before the load of the decrement
  r_store : (loaded : ℕ) → Releasing
  r_check : Releasing  -- before the second test
  r_ok : Releasing
  r_destructor : Releasing  -- the destructor is called
  r_inval : Releasing

unfoldable pub release_step : ℕ → Releasing → ℕ × Releasing
release_step count r_test = (count, if count == 0 then r_inval else r_load)
release_step count r_load = (count, r_store count)
release_step count (r_store loaded) = ((loaded + 2 ^ 32 - 1) % 2 ^ 32, r_check)
release_step count r_check = (count, if count == 0 then r_destructor else r_ok)
release_step count r_ok = (count, r_ok)
release_step count r_destructor = (count, r_destructor)
release_step count r_inval = (count, r_inval)

-- Two threads that get, in the order of a schedule: true lets the first go on.
abbrev pub two_gets :
    (ℕ → ℕ → ℕ → Swapped) → List Bool → ℕ × Getting × Getting → ℕ × Getting × Getting
two_gets cas [] s = s
two_gets cas (true ∷ more) (count, a, b) =
    let next = get_step cas count a in two_gets cas more (next.0, next.1, b)
two_gets cas (false ∷ more) (count, a, b) =
    let next = get_step cas count b in two_gets cas more (next.0, a, next.1)

-- One thread that gets, and one that releases: true lets the one that gets go on.
abbrev pub get_and_release :
    (ℕ → ℕ → ℕ → Swapped) → List Bool → ℕ × Getting × Releasing → ℕ × Getting × Releasing
get_and_release cas [] s = s
get_and_release cas (true ∷ more) (count, a, b) =
    let next = get_step cas count a in get_and_release cas more (next.0, next.1, b)
get_and_release cas (false ∷ more) (count, a, b) =
    let next = release_step count b in get_and_release cas more (next.0, a, next.1)

-- The references that a thread has taken.
abbrev pub taken : Getting → ℕ
taken g_test = 0
taken g_load = 0
taken (g_swap initial) = 0
taken g_ok = 1
taken g_inval = 0

-- A thread has not been refused.
abbrev pub IsGood : Getting → Type 0
IsGood g_test = Unit {0}
IsGood g_load = Unit {0}
IsGood (g_swap initial) = Unit {0}
IsGood g_ok = Unit {0}
IsGood g_inval = ⊥

zero_test : (n : ℕ) → 0 < n → (n == 0) ≡ false
zero_test n live = ground arith

get_step-taken :
    (cas : ℕ → ℕ → ℕ → Swapped) (count : ℕ) (g : Getting)
    → IsCas cas
    → 0 < count
    → count + 1 < 2 ^ 32
    → IsGood g
    → IsGood (get_step cas count g).1
      × ((get_step cas count g).0 + taken g ≡ count + taken (get_step cas count g).1)
unfolding get_step IsCas
get_step-taken cas count g_test law live small good = rw (zero_test count live) (tt, refl)
get_step-taken cas count g_load law live small good = (tt, refl)
get_step-taken cas count (g_swap initial) law live small good =
    rw (law count initial ((initial + 1) % 2 ^ 32)) (
      rw (zero_test count live) (elim (Bool-cases (count == initial)) [
        | inl e ↦ let same : count ≡ initial = ground arith in rw e (tt, omega (arith, same, small))
        | inr e ↦ rw e (tt, refl)
      ]))
get_step-taken cas count g_ok law live small good = (tt, refl)
get_step-taken cas count g_inval law live small good = absurd good

taken-le : (g : Getting) → taken g ≤ 1
taken-le g_test = omega arith
taken-le g_load = omega arith
taken-le (g_swap initial) = omega arith
taken-le g_ok = omega arith
taken-le g_inval = omega arith

room :
    (a b : Getting) (n count : ℕ)
    → n + 3 < 2 ^ 32
    → count ≡ n + taken a + taken b
    → count + 1 < 2 ^ 32
room a b n count small is = omega (arith, is, taken-le a, taken-le b)

two_gets-taken :
    (cas : ℕ → ℕ → ℕ → Swapped) (schedule : List Bool) (n count : ℕ) (a b : Getting)
    → IsCas cas
    → 0 < n
    → n + 3 < 2 ^ 32
    → count ≡ n + taken a + taken b
    → IsGood a
    → IsGood b
    → (two_gets cas schedule (count, a, b)).0
        ≡ n
          + taken (two_gets cas schedule (count, a, b)).1
          + taken (two_gets cas schedule (count, a, b)).2
      × IsGood (two_gets cas schedule (count, a, b)).1
      × IsGood (two_gets cas schedule (count, a, b)).2
two_gets-taken cas [] n count a b law live small is good_a good_b = (is, good_a, good_b)
two_gets-taken cas (true ∷ more) n count a b law live small is good_a good_b =
    let step =
      get_step-taken cas count a law (omega (arith, is)) (room a b n count small is) good_a in
    two_gets-taken cas more n (get_step cas count a).0 (get_step cas count a).1 b law live small
      (omega (arith, step.1, is)) step.0 good_b
two_gets-taken cas (false ∷ more) n count a b law live small is good_a good_b =
    let step =
      get_step-taken cas count b law (omega (arith, is)) (room a b n count small is) good_b in
    two_gets-taken cas more n (get_step cas count b).0 a (get_step cas count b).1 law live small
      (omega (arith, step.1, is)) good_a step.0

-- From a count of 1 to 2 ^ 32 - 4 and in any interleaving of the loads and swaps of two threads that call
-- refcnt_get: no call is refused, and the count is the first one and the references that were taken.
pub two_gets_lem :
    (cas : ℕ → ℕ → ℕ → Swapped) (schedule : List Bool) (n : ℕ)
    → IsCas cas
    → 0 < n
    → n + 3 < 2 ^ 32
    → ((two_gets cas schedule (n, g_test, g_test)).0
        ≡ n
          + taken (two_gets cas schedule (n, g_test, g_test)).1
          + taken (two_gets cas schedule (n, g_test, g_test)).2)
      × ((two_gets cas schedule (n, g_test, g_test)).1 ≢ g_inval)
      × ((two_gets cas schedule (n, g_test, g_test)).2 ≢ g_inval)
two_gets_lem cas schedule n law live small =
    let h = two_gets-taken cas schedule n n g_test g_test law live small (omega arith) tt tt in
    (h.0, λ e. subst IsGood e h.1, λ e. subst IsGood e h.2)

-- For every count from 1 to 2 ^ 32 - 2 a refcnt_get inside a refcnt_release, after the load of its decrement,
-- is lost: both succeed, and the count is one less than before although one reference was taken and one given
-- back; from a count of 1 the destructor is called while the reference just taken is in use.
pub get_and_release-lost :
    (cas : ℕ → ℕ → ℕ → Swapped) (n : ℕ)
    → IsCas cas
    → 0 < n
    → n + 1 < 2 ^ 32
    → get_and_release cas
        (false ∷ false ∷ true ∷ true ∷ true ∷ false ∷ false ∷ [])
        (n, g_test, r_test)
      ≡ (n - 1, g_ok, if n - 1 == 0 then r_destructor else r_ok)
unfolding get_step release_step IsCas
get_and_release-lost cas n law live small =
    let less : (n + 2 ^ 32 - 1) % 2 ^ 32 ≡ n - 1 = omega arith in
    simp (zero_test n live, law n n ((n + 1) % 2 ^ 32), ==_refl n, less) refl
