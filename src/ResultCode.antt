-- ===== src/ResultCode.antt =====
-- The result codes of tsl/result.h and tsl/errors.h: a 32-bit word with an error bit, a warning
-- bit, a facility and a code.
pub mod Laws
mod Tests
use Prim.Native.Nat.{bit_and, bit_or}
use trading_base.Base.{ℕ, ◌+◌, ◌-◌, ◌*◌, ◌%◌, ◌^◌, Bool, true, false, not, ◌==◌, if◌then◌else◌}

-- `(1ull << x) - 1`
abbrev pub tsl_mask : ℕ → ℕ
tsl_mask x = 2 ^ x - 1

-- `((val) & TSL_MASK(len)) << (off)`
abbrev pub tsl_deposit : ℕ → ℕ → ℕ → ℕ
tsl_deposit val off len = bit_and val (tsl_mask len) * 2 ^ off

-- `!!(err) << 31 | !!(warn) << 30 | facility | code`, read as the unsigned word of the `int32_t`.
unfoldable pub aresult_code : Bool → Bool → ℕ → ℕ → ℕ
aresult_code err warn facil code =
    bit_or
      (bit_or (bit_or (if err then 2 ^ 31 else 0) (if warn then 2 ^ 30 else 0))
        (tsl_deposit facil 16 14))
      (tsl_deposit code 0 16)

unfoldable pub aresult_error : ℕ → ℕ → ℕ
unfolding aresult_code
aresult_error facil code = aresult_code true false facil code

-- `!!((x) & (1 << 31))`
unfoldable pub afailed : ℕ → Bool
afailed x = not (bit_and x (2 ^ 31) == 0)

-- The codes that the library's functions return.
pub data AResult : Type 0 where
  a_ok : AResult
  a_e_nomem : AResult
  a_e_badargs : AResult
  a_e_notfound : AResult
  a_e_busy : AResult
  a_e_inval : AResult
  a_e_nothread : AResult
  a_e_empty : AResult
  a_e_no_socket : AResult
  a_e_noent : AResult
  a_e_inv_date : AResult
  a_e_nospc : AResult
  a_e_exist : AResult
  a_e_unknown : AResult
  a_e_done : AResult

-- The word that each macro of errors.h stands for, with the facility FACIL_SYSTEM = 0.
unfoldable pub word : AResult → ℕ
unfolding aresult_code aresult_error
word a_ok = aresult_code false false 0 0
word a_e_nomem = aresult_error 0 1
word a_e_badargs = aresult_error 0 2
word a_e_notfound = aresult_error 0 3
word a_e_busy = aresult_error 0 4
word a_e_inval = aresult_error 0 5
word a_e_nothread = aresult_error 0 6
word a_e_empty = aresult_error 0 7
word a_e_no_socket = aresult_error 0 8
word a_e_noent = aresult_error 0 9
word a_e_inv_date = aresult_error 0 10
word a_e_nospc = aresult_error 0 11
word a_e_exist = aresult_error 0 12
word a_e_unknown = aresult_error 0 13
word a_e_done = aresult_error 0 14

-- `AFAILED(ret)` at a result of the library.
abbrev pub failed : AResult → Bool
failed a_ok = false
failed _ = true
