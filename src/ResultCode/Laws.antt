-- ===== src/ResultCode/Laws.antt =====
-- The words of the result codes of tsl/errors.h.
use trading_base.Base.{◌≡◌, refl}
use trading_base.ResultCode.{AResult, word, afailed, failed, a_ok}

-- AFAILED holds of the word of exactly the results other than A_OK.
pub afailed-word : (r : AResult) → afailed (word r) ≡ failed r
unfolding afailed word
afailed-word a_ok = refl
afailed-word _ = refl
