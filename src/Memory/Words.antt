-- ===== src/Memory/Words.antt =====
-- Machine words: `unsigned long` and `long` as numbers below 2 ^ 64, the negative ones from 2 ^ 63.
use challenges.Common.{ℕ, ◌+◌, ◌-◌, ◌%◌, ◌^◌, ◌<◌, ◌≡◌, Bool, ltb, leb, if◌then◌else◌, arith}

-- a + b and a - b on `unsigned long`
unfoldable pub add64 : ℕ → ℕ → ℕ
add64 a b = (a + b) % 2 ^ 64

unfoldable pub sub64 : ℕ → ℕ → ℕ
sub64 a b = (a + 2 ^ 64 - b % 2 ^ 64) % 2 ^ 64

-- `n < 0` for a `long n`
unfoldable pub is_negative : ℕ → Bool
is_negative n = leb (2 ^ 63) n

-- An `int` pattern, widened to `long`.
unfoldable pub sign_extend : ℕ → ℕ
sign_extend x = if ltb x (2 ^ 31) then x else x + 2 ^ 64 - 2 ^ 32

-- `1 << k` on an `int`, widened to `long`, for k < 32. C leaves k = 31 undefined; compilers set the top
-- bit, which makes it negative.
unfoldable pub shift_one : ℕ → ℕ
unfolding sign_extend
shift_one k = sign_extend (2 ^ k % 2 ^ 32)

-- (void *) -1
abbrev pub minus_one : ℕ
minus_one = 2 ^ 64 - 1

pub sub64_of_le : (a b : ℕ) → a < 2 ^ 64 → b < a + 1 → sub64 a b ≡ a - b
unfolding sub64
sub64_of_le a b h k = omega arith

pub add64_of_lt : (a b : ℕ) → a + b < 2 ^ 64 → add64 a b ≡ a + b
unfolding add64
add64_of_lt a b h = omega arith
