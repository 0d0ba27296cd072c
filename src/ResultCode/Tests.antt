-- ===== src/ResultCode/Tests.antt =====
-- The law of AFAILED at one code.
use trading_base.Base.{◌≡◌, refl}
use trading_base.ResultCode.{afailed, word, failed, a_e_nospc}
use trading_base.ResultCode.Laws.{afailed-word}

nospc_word : word a_e_nospc ≡ 0x8000000b
unfolding word
nospc_word = refl

afailed-word_example : afailed (word a_e_nospc) ≡ failed a_e_nospc
afailed-word_example = afailed-word a_e_nospc
