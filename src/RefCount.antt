-- ===== src/RefCount.antt =====
-- tsl/refcnt.h: a reference count in a 32-bit word, with an optional destructor. The pointers are not NULL.
-- The compare-and-swap of Concurrency Kit is a parameter.
pub mod History
pub mod Threads
mod Tests
use trading_base.Base.{
  ℕ, zero, suc, ◌+◌, ◌-◌, ◌%◌, ◌^◌, ◌≡◌, Bool, ◌==◌, if◌then◌else◌, Option, none, some,
}
use trading_base.ResultCode.{AResult, a_ok, a_e_inval}

-- `destructor` is the function's address, none for NULL.
pub record Refcnt : Type 0 where
  pub destructor : Option ℕ
  pub refcnt : ℕ

-- ck_pr_cas_32_value: from the word, the expected and the new value, whether it has swapped, the word after it, and
-- the value that it stores for the caller.
pub record Swapped : Type 0 where
  pub result : Bool
  pub target : ℕ
  pub value : ℕ

-- The value for the caller is the one before the call, swapped or not.
pub IsCas : (ℕ → ℕ → ℕ → Swapped) → Type 0
IsCas cas =
    (target compare set : ℕ)
    → cas target compare set ≡ record {
      result = target == compare;
      target = if target == compare then set else target;
      value = target;
    }

unfoldable pub refcnt_init : Option ℕ → Refcnt
refcnt_init destruct = record { destructor = destruct; refcnt = 1 }

-- The body of the loop, with no other thread between its load and its swap; fuel for the rounds.
unfoldable pub get_loop : (ℕ → ℕ → ℕ → Swapped) → ℕ → Refcnt → Option (AResult × Refcnt)
get_loop cas zero ref = none
get_loop cas (suc fuel) ref =
    let initial = ref.refcnt in
    let swap = cas ref.refcnt initial ((initial + 1) % 2 ^ 32) in
    let ref' = record ref { refcnt = swap.target } in
    let again = get_loop cas fuel ref' in
    if swap.value == 0
    then some (a_e_inval, ref')
    else (if swap.result then some (a_ok, ref') else again)

unfoldable pub refcnt_get : (ℕ → ℕ → ℕ → Swapped) → ℕ → Refcnt → Option (AResult × Refcnt)
refcnt_get cas fuel ref = if ref.refcnt == 0 then some (a_e_inval, ref) else get_loop cas fuel ref

-- The last part is the destructor that is called.
unfoldable pub refcnt_release : Refcnt → AResult × Refcnt × Option ℕ
refcnt_release ref =
    if ref.refcnt == 0
    then (a_e_inval, ref, none)
    else (let ref' = record ref { refcnt = ref.refcnt - 1 } in
        (a_ok, ref', if ref'.refcnt == 0 then ref'.destructor else none))

-- `*valid`
unfoldable pub refcnt_check : Refcnt → ℕ
refcnt_check ref = if ref.refcnt == 0 then 0 else 1
