-- ===== src/Prelude/Bits.antt =====
-- `bit_or` of words with no bit in common, from the digit recursion that it stands for.
use Prim.Native.Nat.{
  ℕ, zero, suc, ◌+◌, ◌*◌, ◌/◌, ◌%◌, ◌^◌, ◌≤◌, ◌<◌, max, bit_or, digits, bit_or-bitwise,
}
use mathlib.Core.Path.{◌≡◌, refl, ap}
use native.Mathlib.Omega.{arith}

abbrev or_rounds : ℕ → ℕ → ℕ → ℕ
or_rounds rounds a b = digits (λ c. c) max rounds a b

-- Rounds beyond those that `a` needs change nothing.
or_rounds-enough : (n m a b : ℕ) → a ≤ n → a ≤ m → or_rounds n a b ≡ or_rounds m a b
or_rounds-enough zero zero a b p q = refl
or_rounds-enough zero (suc m) zero b p q = refl
or_rounds-enough zero (suc m) (suc a) b p q = absurd (omega arith)
or_rounds-enough (suc n) zero zero b p q = refl
or_rounds-enough (suc n) zero (suc a) b p q = absurd (omega arith)
or_rounds-enough (suc n) (suc m) zero b p q = refl
or_rounds-enough (suc n) (suc m) (suc a) b p q =
    omega (arith, or_rounds-enough n m (suc a / 2) (b / 2) (omega arith) (omega arith))

zero-bit_or : (b : ℕ) → bit_or 0 b ≡ b
zero-bit_or b = bit_or-bitwise 0 b

-- The lowest digit and the rest.
bit_or-halves : (a b : ℕ) → bit_or a b ≡ bit_or (a / 2) (b / 2) * 2 + max (a % 2) (b % 2)
bit_or-halves zero b = omega (arith, zero-bit_or b, zero-bit_or (b / 2))
bit_or-halves (suc a) b = omega (
  arith,
  bit_or-bitwise (suc a) b,
  bit_or-bitwise (suc a / 2) (b / 2),
  or_rounds-enough a (suc a / 2) (suc a / 2) (b / 2) (omega arith) (omega arith),
)

power_twice : (k : ℕ) → 2 ^ suc k ≡ 2 ^ k * 2
power_twice k = omega arith

shifted_twice : (k b : ℕ) → b * 2 ^ suc k ≡ b * 2 ^ k * 2
shifted_twice k b = rw (power_twice k) (grind arith)

-- A word of `k` bits and one that is shifted by `k`.
pub bit_or-shifted : (k a b : ℕ) → a < 2 ^ k → bit_or a (b * 2 ^ k) ≡ a + b * 2 ^ k
bit_or-shifted zero zero b h = omega (arith, zero-bit_or (b * 2 ^ 0))
bit_or-shifted zero (suc a) b h = absurd (omega arith)
bit_or-shifted (suc k) a b h =
    let even : b * 2 ^ suc k ≡ b * 2 ^ k * 2 = shifted_twice k b in
    let half : b * 2 ^ suc k / 2 ≡ b * 2 ^ k = omega (arith, even) in
    omega (
      arith,
      even,
      bit_or-halves a (b * 2 ^ suc k),
      ap (bit_or (a / 2)) half,
      bit_or-shifted k (a / 2) b (omega (arith, power_twice k, h)),
    )
