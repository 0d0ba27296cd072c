-- ===== src/RefCount/Tests.antt =====
-- Runs of a reference count with a compare-and-swap written out.
use trading_base.Base.{
  ℕ, ◌+◌, ◌≡◌, ◌≢◌, refl, Bool, true, false, ◌==◌, if◌then◌else◌, List, [], ◌∷◌, none, some, arith,
}
use trading_base.ResultCode.{a_ok, a_e_inval}
use trading_base.RefCount.{Swapped, IsCas, refcnt_check, refcnt_init}
use trading_base.RefCount.History.{get, release, uses, uses_lem}
use trading_base.RefCount.Threads.{
  g_test, g_ok, g_inval, r_test, r_destructor, two_gets, taken, two_gets_lem, get_and_release,
  get_and_release-lost,
}

abbrev plain_cas : ℕ → ℕ → ℕ → Swapped
plain_cas target compare set = record {
  result = target == compare;
  target = if target == compare then set else target;
  value = target;
}

plain_cas-IsCas : IsCas plain_cas
unfolding IsCas
plain_cas-IsCas target compare set = refl

check_init : refcnt_check (refcnt_init none) ≡ 1
unfolding refcnt_check refcnt_init
check_init = refl

uses_lem_example :
    uses plain_cas
      (get ∷ release ∷ release ∷ get ∷ [])
      (record { destructor = some 64; refcnt = 1 })
    ≡ some (record {
      results = a_ok ∷ a_ok ∷ a_ok ∷ a_e_inval ∷ [];
      called = 64 ∷ [];
      last = record { destructor = some 64; refcnt = 0 };
    })
uses_lem_example =
    uses_lem plain_cas (get ∷ release ∷ release ∷ get ∷ []) (some 64) 1 plain_cas-IsCas
      (omega arith)

abbrev turns : List Bool
turns = true ∷ false ∷ true ∷ false ∷ true ∷ false ∷ false ∷ false ∷ []

two_gets_lem_example :
    ((two_gets plain_cas turns (1, g_test, g_test)).0
      ≡ 1
        + taken (two_gets plain_cas turns (1, g_test, g_test)).1
        + taken (two_gets plain_cas turns (1, g_test, g_test)).2)
    × ((two_gets plain_cas turns (1, g_test, g_test)).1 ≢ g_inval)
    × ((two_gets plain_cas turns (1, g_test, g_test)).2 ≢ g_inval)
two_gets_lem_example = two_gets_lem plain_cas turns 1 plain_cas-IsCas (omega arith) (omega arith)

get_and_release-lost_example :
    get_and_release plain_cas
      (false ∷ false ∷ true ∷ true ∷ true ∷ false ∷ false ∷ [])
      (1, g_test, r_test)
    ≡ (0, g_ok, r_destructor)
get_and_release-lost_example =
    get_and_release-lost plain_cas 1 plain_cas-IsCas (omega arith) (omega arith)
