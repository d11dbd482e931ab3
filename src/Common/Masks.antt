-- ===== src/Common/Masks.antt =====
-- `x & mask` for a mask of low ones, by which the hash tables wrap their positions.
use Prim.Native.Nat.{
  ℕ, zero, suc, ◌+◌, ◌-◌, ◌*◌, ◌/◌, ◌%◌, ◌^◌, ◌≤◌, ◌<◌, min, digits, bit_and, bit_and-bitwise,
}
use mathlib.Core.Path.{◌≡◌, ap, ◌∙◌}
use native.Mathlib.Omega.{arith}
use native.Mathlib.Nat.{pow-suc, one-le-pow}

double_mod : (p q a : ℕ) → 0 < p → q ≡ 2 * p → a % q ≡ (a / 2) % p * 2 + a % 2
double_mod p q a h e = rw e (grind arith)

-- the digits of a that the low k ones keep, with fuel
kept_digits : (fuel k a : ℕ) → a ≤ fuel → digits (λ b. zero) min fuel a (2 ^ k - 1) ≡ a % 2 ^ k
kept_digits zero k zero h = omega arith
kept_digits zero k (suc a) h = absurd (omega arith)
kept_digits (suc fuel) k zero h = omega arith
kept_digits (suc fuel) zero (suc a) h =
    omega (arith, kept_digits fuel zero (suc a / 2) (omega arith))
kept_digits (suc fuel) (suc k) (suc a) h =
    let half : (2 ^ suc k - 1) / 2 ≡ 2 ^ k - 1 = omega (arith, pow-suc 2 k, one-le-pow k 2) in
    let odd : (2 ^ suc k - 1) % 2 ≡ 1 = omega (arith, pow-suc 2 k, one-le-pow k 2) in
    let bit : min (suc a % 2) 1 ≡ suc a % 2 = omega arith in
    let double =
      double_mod (2 ^ k) (2 ^ suc k) (suc a) (one-le-pow k 2 (omega arith))
        (omega (arith, pow-suc 2 k)) in
    rw (half, odd, bit, double)
      (ap (λ (t : ℕ). t * 2 + suc a % 2) (kept_digits fuel k (suc a / 2) (omega arith)))

pub bit_and_mask : (k a : ℕ) → bit_and a (2 ^ k - 1) ≡ a % 2 ^ k
bit_and_mask k a = bit_and-bitwise a (2 ^ k - 1) ∙ kept_digits a k a (omega arith)
