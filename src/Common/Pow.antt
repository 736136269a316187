-- ===== src/Common/Pow.antt =====
-- Powers of two, and the mask of the low bits.
use Prim.Native.Nat.{
  ℕ, zero, suc, ◌+◌, ◌-◌, ◌*◌, ◌/◌, ◌%◌, ◌^◌, ◌≤◌, min, bit_and, digits, bit_and-bitwise,
}
use mathlib.Core.Path.{◌≡◌, ◌∙◌}
use native.Mathlib.Omega.{arith}
use native.Mathlib.Nat.{pow-suc, div-add-mod}

pub two_pow_suc : (n : ℕ) → 2 ^ suc n ≡ 2 * 2 ^ n
two_pow_suc n = omega (arith, pow-suc 2 n)

pub two_pow_pos : (n : ℕ) → 1 ≤ 2 ^ n
two_pow_pos zero = omega arith
two_pow_pos (suc n) = omega (arith, two_pow_suc n, two_pow_pos n)

pub two_pow_mono : (n m : ℕ) → n ≤ m → 2 ^ n ≤ 2 ^ m
two_pow_mono zero m h = two_pow_pos m
two_pow_mono (suc n) zero h = absurd (omega arith)
two_pow_mono (suc n) (suc m) h =
    omega (arith, two_pow_suc n, two_pow_suc m, two_pow_mono n m (omega arith))

mod_double : (a m : ℕ) → 1 ≤ m → a % (2 * m) ≡ a / 2 % m * 2 + a % 2
mod_double a m h = grind (arith, div-add-mod)

abbrev and_digits : ℕ → ℕ → ℕ → ℕ
and_digits = digits (λ b. zero) min

and_digits-mask : (k n a : ℕ) → a ≤ n → and_digits n a (2 ^ k - 1) ≡ a % 2 ^ k
and_digits-mask k zero zero h = omega (arith, two_pow_pos k)
and_digits-mask k zero (suc a) h = absurd (omega arith)
and_digits-mask k (suc n) zero h = omega (arith, two_pow_pos k)
and_digits-mask zero (suc n) (suc a) h =
    omega (arith, and_digits-mask zero n (suc a / 2) (omega arith))
and_digits-mask (suc k) (suc n) (suc a) h =
    let half : (2 ^ suc k - 1) / 2 ≡ 2 ^ k - 1 = omega (arith, two_pow_suc k, two_pow_pos k) in
    let odd : (2 ^ suc k - 1) % 2 ≡ 1 = omega (arith, two_pow_suc k, two_pow_pos k) in
    rw (half, odd, two_pow_suc k)
      (omega (
        arith,
        and_digits-mask k n (suc a / 2) (omega arith),
        mod_double (suc a) (2 ^ k) (two_pow_pos k),
      ))

-- A mask of `k` ones takes the remainder by `2 ^ k`.
pub bit_and-mask : (k a : ℕ) → bit_and a (2 ^ k - 1) ≡ a % 2 ^ k
bit_and-mask k a = (λ i. bit_and-bitwise a (2 ^ k - 1) i) ∙ and_digits-mask k a a (omega arith)
