-- ===== src/Base/Bits.antt =====
-- `&` with a mask of low ones is a remainder, and `|` of disjoint fields is a sum.
use Prim.Native.Nat.{
  ℕ, zero, suc, ◌+◌, ◌-◌, ◌*◌, ◌/◌, ◌%◌, ◌^◌, ◌≤◌, ◌<◌, min, max, bit_and, bit_or, digits,
  bit_and-bitwise, bit_or-bitwise,
}
use mathlib.Core.Path.{◌≡◌, refl, sym, ap, ◌∙◌}
use native.Mathlib.Nat.{
  pow-suc, mul_assoc, one-le-pow, div-add-mod', mod-lt, mod-eq_of_lt, mul-add-mod_self_right,
}
use native.Mathlib.Omega.{arith}

-- The last digit of `a` and the remainder of the others.
double_mod : (k a : ℕ) → a / 2 % 2 ^ k * 2 + min (a % 2) 1 ≡ a % 2 ^ suc k
double_mod k a =
    sym (mod-eq_of_lt small)
    ∙ sym (mul-add-mod_self_right (a / 2 / 2 ^ k) (2 ^ k * 2) rest)
    ∙ ap (◌%◌ whole) (sym (pow-suc 2 k))
    ∙ ap (λ (t : ℕ). t % 2 ^ suc k) exact
  where
    rest : ℕ
    rest = a / 2 % 2 ^ k * 2 + min (a % 2) 1

    whole : ℕ
    whole = a / 2 / 2 ^ k * (2 ^ k * 2) + rest

    small : rest < 2 ^ k * 2
    small = omega (arith, mod-lt (a / 2) {m = 2 ^ k} (one-le-pow k 2 (omega arith)))

    exact : whole ≡ a
    exact = omega (arith, div-add-mod' (a / 2) (2 ^ k), mul_assoc (a / 2 / 2 ^ k) (2 ^ k) 2)

-- The digit recursion that the two operations share, once it has enough fuel.
module _ (last : ℕ → ℕ) (join : ℕ → ℕ → ℕ) where
  digits-zero : (fuel b : ℕ) → digits last join fuel zero b ≡ last b
  digits-zero zero b = refl
  digits-zero (suc fuel) b = refl

  digits_enough :
      (a b less more : ℕ)
      → a ≤ less
      → less ≤ more
      → digits last join more a b ≡ digits last join less a b
  digits_enough zero b less more low high = digits-zero more b ∙ sym (digits-zero less b)
  digits_enough (suc a) b zero more low high = absurd (omega (arith, low))
  digits_enough (suc a) b (suc less) zero low high = absurd (omega (arith, high))
  digits_enough (suc a) b (suc less) (suc more) low high =
      let halved =
        digits_enough (suc a / 2) (b / 2) less more (omega (arith, low)) (omega (arith, high)) in
      omega (arith, halved)

bit_and_halves : (a b : ℕ) → bit_and a b ≡ min (a % 2) (b % 2) + 2 * bit_and (a / 2) (b / 2)
bit_and_halves zero b = omega (arith, bit_and-bitwise 0 b, bit_and-bitwise (0 / 2) (b / 2))
bit_and_halves (suc a) b =
    let same =
      digits_enough (λ _. 0) min (suc a / 2) (b / 2) (suc a / 2) a (omega arith) (omega arith) in
    omega (arith, same, bit_and-bitwise (suc a) b, bit_and-bitwise (suc a / 2) (b / 2))

bit_or_halves : (a b : ℕ) → bit_or a b ≡ max (a % 2) (b % 2) + 2 * bit_or (a / 2) (b / 2)
bit_or_halves zero b = omega (arith, bit_or-bitwise 0 b, bit_or-bitwise (0 / 2) (b / 2))
bit_or_halves (suc a) b =
    let same =
      digits_enough (λ d. d) max (suc a / 2) (b / 2) (suc a / 2) a (omega arith) (omega arith) in
    omega (arith, same, bit_or-bitwise (suc a) b, bit_or-bitwise (suc a / 2) (b / 2))

bit_or-zero_below : (n a : ℕ) → a ≤ n → bit_or a 0 ≡ a
bit_or-zero_below n zero h = refl
bit_or-zero_below zero (suc a) h = absurd (omega arith)
bit_or-zero_below (suc n) (suc a) h =
    omega (arith, bit_or_halves (suc a) 0, bit_or-zero_below n (suc a / 2) (omega arith))

bit_and-zero_below : (n a : ℕ) → a ≤ n → bit_and a 0 ≡ 0
bit_and-zero_below n zero h = refl
bit_and-zero_below zero (suc a) h = absurd (omega arith)
bit_and-zero_below (suc n) (suc a) h =
    omega (arith, bit_and_halves (suc a) 0, bit_and-zero_below n (suc a / 2) (omega arith))

bit_or_double : (x low : ℕ) → bit_or x (low / 2) ≡ x + low / 2 → bit_or (x * 2) low ≡ x * 2 + low
bit_or_double x low h =
    let halve : x * 2 / 2 ≡ x = omega arith in
    bit_or_halves (x * 2) low ∙ rw (halve, h) (omega arith)

-- A field above `k` bits joined with one that fits in them.
pub bit_or_disjoint :
    (k high low : ℕ) → low < 2 ^ k → bit_or (high * 2 ^ k) low ≡ high * 2 ^ k + low
bit_or_disjoint zero high low h =
    let none_low : low ≡ 0 = omega arith in
    rw none_low (bit_or-zero_below (high * 1) (high * 1) (omega arith) ∙ omega arith)
bit_or_disjoint (suc k) high low h =
    rw (pow-suc 2 k, ← mul_assoc high (2 ^ k) 2)
      (bit_or_double (high * 2 ^ k) low
        (bit_or_disjoint k high (low / 2) (omega (arith, pow-suc 2 k))))

-- The mask of `k` low ones keeps the remainder.
pub bit_and_mask : (k a : ℕ) → bit_and a (2 ^ k - 1) ≡ a % 2 ^ k
bit_and_mask zero a = bit_and-zero_below a a (omega arith) ∙ omega arith
bit_and_mask (suc k) a =
    let half_mask : (2 ^ suc k - 1) / 2 ≡ 2 ^ k - 1 = omega (arith, pow-suc 2 k) in
    let odd_mask : (2 ^ suc k - 1) % 2 ≡ 1 = omega (arith, pow-suc 2 k, one-le-pow k 2) in
    bit_and_halves a (2 ^ suc k - 1)
    ∙ rw (half_mask, odd_mask, bit_and_mask k (a / 2)) (omega (arith, double_mod k a))
