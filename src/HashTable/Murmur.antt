-- ===== src/HashTable/Murmur.antt =====
-- The hash functions of tsl/hash_table.c, on 64-bit words. The bytes of a key are a list of numbers below 256,
-- and a word has its least byte first in memory. The out-parameters are not NULL; the debug build is
-- meant, in which TSL_ASSERT_ARG_DEBUG checks.
use Prim.Native.Nat.{bit_xor}
use trading_base.Base.{ℕ, ◌+◌, ◌*◌, ◌/◌, ◌%◌, ◌^◌, List, [], ◌∷◌, length, ◌==◌, if◌then◌else◌}
use trading_base.ResultCode.{AResult, a_ok, a_e_badargs}

-- The multiplier `m` of both functions: 0xc6a4a7935bd1e995.
abbrev murmur_m : ℕ
murmur_m = 14313749767032793493

-- `a * b` on 64-bit words.
abbrev times : ℕ → ℕ → ℕ
times a b = (a * b) % 2 ^ 64

-- `h ^= h >> r`, with r = 47.
abbrev fold_down : ℕ → ℕ
fold_down h = bit_xor h (h / 2 ^ 47)

-- `k *= m; k ^= k >> r; k *= m; h ^= k; h *= m;`
unfoldable pub mix_word : ℕ → ℕ → ℕ
mix_word h k = times (bit_xor h (times (fold_down (times k murmur_m)) murmur_m)) murmur_m

-- `h ^= h >> r; h *= m; h ^= h >> r;`
unfoldable pub finish_hash : ℕ → ℕ
finish_hash h = fold_down (times (fold_down h) murmur_m)

-- The bytes as a number, the first one from the bit `off` on.
abbrev from_bytes : ℕ → List ℕ → ℕ
from_bytes off [] = 0
from_bytes off (b ∷ bs) = b * 2 ^ off + from_bytes (off + 8) bs

-- The cases of the switch, from the last byte down.
unfoldable pub xor_tail : ℕ → ℕ → List ℕ → ℕ
xor_tail off h [] = h
xor_tail off h (b ∷ bs) = bit_xor (xor_tail (off + 8) h bs) (b * 2 ^ off)

-- The loop over whole words, and the switch over the bytes that are left.
unfoldable pub mix_bytes : ℕ → List ℕ → ℕ
unfolding mix_word xor_tail
mix_bytes h (b0 ∷ b1 ∷ b2 ∷ b3 ∷ b4 ∷ b5 ∷ b6 ∷ b7 ∷ rest) =
    mix_bytes (mix_word h (from_bytes 0 (b0 ∷ b1 ∷ b2 ∷ b3 ∷ b4 ∷ b5 ∷ b6 ∷ b7 ∷ []))) rest
mix_bytes h [] = h
mix_bytes h (b ∷ bs) = times (xor_tail 0 h (b ∷ bs)) murmur_m

-- `hash_val` is the out-parameter before the call; 0xdeadbeef is the seed.
unfoldable pub ht_murmur_hash_byte_string : List ℕ → ℕ → AResult × ℕ
unfolding mix_bytes finish_hash
ht_murmur_hash_byte_string key hash_val =
    if length key == 0
    then (a_e_badargs, hash_val)
    else (a_ok, finish_hash (mix_bytes (bit_xor 3735928559 (times (length key) murmur_m)) key))

-- 0xbebafeca is the seed.
unfoldable pub ht_murmur_hash_word : ℕ → ℕ → ℕ → AResult × ℕ
unfolding mix_word finish_hash
ht_murmur_hash_word key key_len hash_val =
    if key_len == 8
    then (a_ok, finish_hash (mix_word (bit_xor 3199925962 (times 8 murmur_m)) key))
    else (a_e_badargs, hash_val)
