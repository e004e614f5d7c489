-- ===== src/Common/Bits.antt =====
-- Masks: `x & (2^k - 1)` keeps the low `k` bits of `x`, for every `k`.
use Prim.Native.Nat.{
  ℕ, zero, suc, ◌+◌, ◌-◌, ◌*◌, ◌/◌, ◌%◌, ◌^◌, ◌≤◌, ◌<◌, min, bit_and, digits, bit_and-bitwise,
}
use mathlib.Core.Path.{◌≡◌, refl, sym, ap, ◌∙◌}
use native.Mathlib.Omega.{arith}
use native.Mathlib.Nat.{pow-suc, add-mul-mod_self_right, mod-eq_of_lt, mod-lt, div-add-mod}

-- The digit recursion behind `bit_and`, on fuel `n`.
abbrev low_digits : ℕ → ℕ → ℕ → ℕ
low_digits n a b = digits (λ _. zero) min n a b

low_digits_enough : (n m a b : ℕ) → a ≤ n → a ≤ m → low_digits n a b ≡ low_digits m a b
low_digits_enough zero zero a b p q = refl
low_digits_enough zero (suc m) zero b p q = refl
low_digits_enough zero (suc m) (suc a) b p q = absurd (omega arith)
low_digits_enough (suc n) zero zero b p q = refl
low_digits_enough (suc n) zero (suc a) b p q = absurd (omega arith)
low_digits_enough (suc n) (suc m) zero b p q = refl
low_digits_enough (suc n) (suc m) (suc a) b p q =
    omega (arith, low_digits_enough n m (suc a / 2) (b / 2) (omega arith) (omega arith))

bit_and-zero_left : (b : ℕ) → bit_and 0 b ≡ 0
bit_and-zero_left b = bit_and-bitwise 0 b

-- The lowest bit splits off.
pub bit_and-halves : (a b : ℕ) → bit_and a b ≡ bit_and (a / 2) (b / 2) * 2 + min (a % 2) (b % 2)
bit_and-halves zero b = omega (arith, bit_and-zero_left b, bit_and-zero_left (b / 2))
bit_and-halves (suc a) b = omega (
  arith,
  bit_and-bitwise (suc a) b,
  bit_and-bitwise (suc a / 2) (b / 2),
  low_digits_enough a (suc a / 2) (suc a / 2) (b / 2) (omega arith) (omega arith),
)

bit_and-zero_right : (n a : ℕ) → a ≤ n → bit_and a 0 ≡ 0
bit_and-zero_right n zero h = bit_and-zero_left 0
bit_and-zero_right zero (suc a) h = absurd (omega arith)
bit_and-zero_right (suc n) (suc a) h =
    omega (arith, bit_and-halves (suc a) 0, bit_and-zero_right n (suc a / 2) (omega arith))

pub pow_pos : (k : ℕ) → 0 < 2 ^ k
pow_pos zero = omega arith
pow_pos (suc k) = omega (arith, pow_pos k, pow-suc 2 k)

-- A remainder by `2 p`, bit by bit.
pub mod_twice : (a p : ℕ) → 0 < p → (a / 2 % p) * 2 + a % 2 ≡ a % (p * 2)
mod_twice a p h =
    sym (mod-eq_of_lt small)
    ∙ sym (add-mul-mod_self_right low (a / 2 / p) (p * 2))
    ∙ ap (λ n. n % (p * 2)) whole
  where
    low : ℕ
    low = (a / 2 % p) * 2 + a % 2

    small : low < p * 2
    small = omega (arith, mod-lt (a / 2) {m = p} h)

    whole : low + a / 2 / p * (p * 2) ≡ a
    whole = omega (arith, div-add-mod (a / 2) p)

-- A mask of `k` ones is a remainder by `2 ^ k`.
pub bit_and-mask : (k x : ℕ) → bit_and x (2 ^ k - 1) ≡ x % 2 ^ k
bit_and-mask zero x = omega (arith, bit_and-zero_right x x (omega arith))
bit_and-mask (suc k) x =
    bit_and-halves x (2 ^ suc k - 1)
    ∙ rw (half, odd, bit_and-mask k (x / 2), low, pow-suc) (mod_twice x (2 ^ k) (pow_pos k))
  where
    half : (2 ^ suc k - 1) / 2 ≡ 2 ^ k - 1
    half = omega (arith, pow_pos k, pow-suc 2 k)

    odd : (2 ^ suc k - 1) % 2 ≡ 1
    odd = omega (arith, pow_pos k, pow-suc 2 k)

    low : min (x % 2) 1 ≡ x % 2
    low = omega arith

pub pow_mono : (j k : ℕ) → j ≤ k → 2 ^ j ≤ 2 ^ k
pow_mono zero k h = pow_pos k
pow_mono (suc j) zero h = absurd (omega arith)
pow_mono (suc j) (suc k) h = omega (arith, pow_mono j k (omega arith), pow-suc 2 j, pow-suc 2 k)
