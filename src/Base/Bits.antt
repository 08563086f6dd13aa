-- ===== src/Base/Bits.antt =====
-- `&` and `|` of C on machine words, as arithmetic.
use Prim.Native.Nat.{
  ℕ, zero, suc, ◌+◌, ◌*◌, ◌/◌, ◌%◌, ◌^◌, ◌≤◌, ◌<◌, min, max, bit_and, bit_or, digits,
  bit_and-bitwise, bit_or-bitwise,
}
use mathlib.Core.Path.{◌≡◌, refl, ◌∙◌}
use native.Mathlib.Nat.{pow-suc}
use native.Mathlib.Omega.{arith}

-- What a mask takes of the numbers up to `n`.
abbrev Masks : ℕ → ℕ → Type 0
Masks mask m = (n x : ℕ) → x ≤ n → digits (λ y. 0) min n x mask ≡ x % m

mask_none : Masks 0 1
mask_none zero x h = omega arith
mask_none (suc n) zero h = omega arith
mask_none (suc n) (suc x) h = omega (arith, mask_none n (suc x / 2) (omega arith))

-- One more bit of a mask; the second part says that it is one.
longer :
    (mask m : ℕ)
    → Masks mask m
    → ((x : ℕ) → x / 2 % m * 2 + x % 2 ≡ x % (m * 2))
    → Masks (mask * 2 + 1) (m * 2)
longer mask m p step zero x h =
    let e : x ≡ 0 = omega arith in rw e (omega (arith, step 0, p 0 0 (omega arith)))
longer mask m p step (suc n) zero h = omega (arith, step 0, p 0 0 (omega arith))
longer mask m p step (suc n) (suc x) h =
    let low : (mask * 2 + 1) / 2 ≡ mask = omega arith in
    let bit : min (suc x % 2) ((mask * 2 + 1) % 2) ≡ suc x % 2 = omega arith in
    rw (low, bit, p n (suc x / 2) (omega arith)) (step (suc x))

mask_7 : Masks 0x7f 128
mask_7 =
    longer 63 64
      (longer 31 32
        (longer 15 16
          (longer 7 8
            (longer 3 4 (longer 1 2 (longer 0 1 mask_none (λ x. omega arith)) (λ x. omega arith))
              (λ x. omega arith))
            (λ x. omega arith))
          (λ x. omega arith))
        (λ x. omega arith))
      (λ x. omega arith)

-- `x & 0x7f`
pub and_0x7f : (a : ℕ) → bit_and a 0x7f ≡ a % 128
and_0x7f a = bit_and-bitwise a 0x7f ∙ mask_7 a a (omega arith)

-- `x & 0xff`
pub and_0xff : (a : ℕ) → bit_and a 0xff ≡ a % 256
and_0xff a = bit_and-bitwise a 0xff ∙ longer 127 128 mask_7 (λ x. omega arith) a a (omega arith)

or_nothing : (n x : ℕ) → x ≤ n → digits (λ y. y) max n x 0 ≡ x
or_nothing zero x h = omega arith
or_nothing (suc n) zero h = refl
or_nothing (suc n) (suc x) h = omega (arith, or_nothing n (suc x / 2) (omega arith))

-- Digits that stand at or above place `k` beside digits below it.
or_apart : (k n x a b : ℕ) → x ≤ n → x ≡ a * 2 ^ k → b < 2 ^ k → digits (λ y. y) max n x b ≡ x + b
or_apart zero n x a b h e l =
    let none_below : b ≡ 0 = omega arith in rw none_below (or_nothing n x h ∙ omega arith)
or_apart (suc k) zero x a b h e l = omega arith
or_apart (suc k) (suc n) zero a b h e l = omega arith
or_apart (suc k) (suc n) (suc x) a b h e l =
    let even : suc x ≡ a * 2 ^ k * 2 = e ∙ double in
    let rest =
      or_apart k n (suc x / 2) a (b / 2) (omega arith) (omega arith) (omega (arith, pow-suc 2 k)) in
    omega (arith, rest)
  where
    double : a * 2 ^ suc k ≡ a * 2 ^ k * 2
    double = rw (pow-suc 2 k) (omega arith)

-- `x << k | y` for `y` below `2 ^ k`: the bits do not overlap.
pub or_shift : (k a b : ℕ) → b < 2 ^ k → bit_or (a * 2 ^ k) b ≡ a * 2 ^ k + b
or_shift k a b h =
    bit_or-bitwise (a * 2 ^ k) b ∙ or_apart k (a * 2 ^ k) (a * 2 ^ k) a b (omega arith) refl h

pub zero-bit_or : (b : ℕ) → bit_or 0 b ≡ b
zero-bit_or b = bit_or-bitwise 0 b
