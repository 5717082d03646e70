-- ===== src/Base/Bits.antt =====
-- `&` and `|` of C at variables. Each is fixed by its lowest digit and its half; from these two
-- facts come the value of a single bit, masks of low bits, and fields that do not overlap.
use Prim.Native.Nat.{
  ℕ, zero, suc, ◌+◌, ◌-◌, ◌*◌, ◌/◌, ◌%◌, ◌^◌, ◌≤◌, ◌<◌, min, max, bit_and, bit_or, digits,
  bit_and-bitwise, bit_or-bitwise,
}
use mathlib.Core.Path.{◌≡◌, refl, sym, ap, ◌∙◌}
use mathlib.Core.Logic.{◌≢◌}
use native.Mathlib.Nat.{
  pow-suc, one-le-pow, div-add-mod, mod-eq_of_lt, div-div-eq-div-mul, zero-div,
}
use native.Mathlib.Omega.{arith}

-- The fuel of the digit recursion does not matter once it is large enough.
more_fuel :
    (z : ℕ → ℕ) (f : ℕ → ℕ → ℕ) (k j a b : ℕ) → a ≤ k → a ≤ j → digits z f k a b ≡ digits z f j a b
more_fuel z f zero zero a b p q = refl
more_fuel z f zero (suc j) zero b p q = refl
more_fuel z f zero (suc j) (suc a) b p q = absurd (omega arith)
more_fuel z f (suc k) zero zero b p q = refl
more_fuel z f (suc k) zero (suc a) b p q = absurd (omega arith)
more_fuel z f (suc k) (suc j) zero b p q = refl
more_fuel z f (suc k) (suc j) (suc a) b p q =
    ap (λ (t : ℕ). t * 2 + f (suc a % 2) (b % 2))
      (more_fuel z f k j (suc a / 2) (b / 2) (omega arith) (omega arith))

pub bit_or-step : (a b : ℕ) → bit_or a b ≡ bit_or (a / 2) (b / 2) * 2 + max (a % 2) (b % 2)
bit_or-step zero b = omega (arith, bit_or-bitwise 0 b, bit_or-bitwise 0 (b / 2))
bit_or-step (suc a) b = omega (
  arith,
  bit_or-bitwise (suc a) b,
  bit_or-bitwise (suc a / 2) (b / 2),
  more_fuel (λ y. y) max a (suc a / 2) (suc a / 2) (b / 2) (omega arith) (omega arith),
)

pub bit_and-step : (a b : ℕ) → bit_and a b ≡ bit_and (a / 2) (b / 2) * 2 + min (a % 2) (b % 2)
bit_and-step zero b = omega (arith, bit_and-bitwise 0 b, bit_and-bitwise 0 (b / 2))
bit_and-step (suc a) b = omega (
  arith,
  bit_and-bitwise (suc a) b,
  bit_and-bitwise (suc a / 2) (b / 2),
  more_fuel (λ y. 0) min a (suc a / 2) (suc a / 2) (b / 2) (omega arith) (omega arith),
)

-- Bit `k` of `x`, as 0 or 1.
abbrev pub bit : ℕ → ℕ → ℕ
bit x k = x / 2 ^ k % 2

halve : (x k : ℕ) → x / 2 ^ suc k ≡ x / 2 / 2 ^ k
halve x k =
    ap (λ (t : ℕ). x / t) (omega (arith, pow-suc 2 k)) ∙ sym (div-div-eq-div-mul x 2 (2 ^ k))

-- Bit `k` of `a | b` and of `a & b`, for every bit.
pub bit-bit_or : (k a b : ℕ) → bit (bit_or a b) k ≡ max (bit a k) (bit b k)
bit-bit_or zero a b = omega (arith, bit_or-step a b)
bit-bit_or (suc k) a b =
    rw (halve (bit_or a b) k, halve a k, halve b k, half) (bit-bit_or k (a / 2) (b / 2))
  where
    half : bit_or a b / 2 ≡ bit_or (a / 2) (b / 2)
    half = omega (arith, bit_or-step a b)

pub bit-bit_and : (k a b : ℕ) → bit (bit_and a b) k ≡ min (bit a k) (bit b k)
bit-bit_and zero a b = omega (arith, bit_and-step a b)
bit-bit_and (suc k) a b =
    rw (halve (bit_and a b) k, halve a k, halve b k, half) (bit-bit_and k (a / 2) (b / 2))
  where
    half : bit_and a b / 2 ≡ bit_and (a / 2) (b / 2)
    half = omega (arith, bit_and-step a b)

pub bit_and-zero : (k a : ℕ) → a ≤ k → bit_and a 0 ≡ 0
bit_and-zero k zero h = refl
bit_and-zero zero (suc a) h = absurd (omega arith)
bit_and-zero (suc k) (suc a) h =
    omega (arith, bit_and-step (suc a) 0, bit_and-zero k (suc a / 2) (omega arith))

pub bit_or-zero : (k a : ℕ) → a ≤ k → bit_or a 0 ≡ a
bit_or-zero k zero h = refl
bit_or-zero zero (suc a) h = absurd (omega arith)
bit_or-zero (suc k) (suc a) h =
    omega (arith, bit_or-step (suc a) 0, bit_or-zero k (suc a / 2) (omega arith))

-- `|` commutes.
pub bit_or_comm : (k a b : ℕ) → a ≤ k → b ≤ k → bit_or a b ≡ bit_or b a
bit_or_comm zero a b p q = ap (λ t. bit_or t b) same ∙ ap (λ t. bit_or b t) (sym same)
  where
    same : a ≡ b
    same = omega arith
bit_or_comm (suc k) a b p q = omega (
  arith,
  bit_or-step a b,
  bit_or-step b a,
  bit_or_comm k (a / 2) (b / 2) (omega arith) (omega arith),
)

mod_halve : (k a : ℕ) → a % 2 ^ suc k ≡ a / 2 % 2 ^ k * 2 + a % 2
mod_halve k a = omega (arith, div-add-mod a (2 ^ suc k), div-add-mod (a / 2) (2 ^ k), product)
  where
    product : 2 ^ suc k * (a / 2 ^ suc k) ≡ 2 * (2 ^ k * (a / 2 / 2 ^ k))
    product = rw (halve a k, pow-suc 2 k) (omega arith)

-- A mask of `k` ones keeps the `k` low bits.
pub bit_and-mask : (k a : ℕ) → bit_and a (2 ^ k - 1) ≡ a % 2 ^ k
bit_and-mask zero a = bit_and-zero a a (omega arith) ∙ omega arith
bit_and-mask (suc k) a = omega (
  arith,
  bit_and-step a (2 ^ suc k - 1),
  ap (λ t. bit_and (a / 2) t) mask,
  bit_and-mask k (a / 2),
  pow-suc 2 k,
  one-le-pow k 2,
  mod_halve k a,
)
  where
    mask : (2 ^ suc k - 1) / 2 ≡ 2 ^ k - 1
    mask = omega (arith, pow-suc 2 k, one-le-pow k 2)

-- `hi << k | lo` is a sum when `lo` has `k` bits.
pub bit_or-fields : (k hi lo : ℕ) → lo < 2 ^ k → bit_or (hi * 2 ^ k) lo ≡ hi * 2 ^ k + lo
bit_or-fields zero hi zero h = bit_or-zero (hi * 1) (hi * 1) (omega arith) ∙ omega arith
bit_or-fields zero hi (suc lo) h = absurd (omega arith)
bit_or-fields (suc k) hi lo h = omega (
  arith,
  bit_or-step (hi * 2 ^ suc k) lo,
  ap (λ t. bit_or t (lo / 2)) shifted,
  bit_or-fields k hi (lo / 2) (omega (arith, pow-suc 2 k)),
  twice,
)
  where
    twice : hi * 2 ^ suc k ≡ 2 * (hi * 2 ^ k)
    twice = omega (arith, ap (λ (t : ℕ). hi * t) (pow-suc 2 k))

    shifted : hi * 2 ^ suc k / 2 ≡ hi * 2 ^ k
    shifted = omega (arith, twice)

-- A mask of ones from bit `k` on clears the `k` low bits.
pub bit_and-high :
    (k n x : ℕ) → x < 2 ^ k * 2 ^ n → bit_and x (2 ^ k * (2 ^ n - 1)) ≡ x / 2 ^ k * 2 ^ k
bit_and-high zero n x h =
    ap (λ t. bit_and x t) (omega arith)
    ∙ bit_and-mask n x
    ∙ omega (arith, mod-eq_of_lt {n = x} {m = 2 ^ n} (omega arith))
bit_and-high (suc k) n x h = omega (
  arith,
  bit_and-step x (2 ^ suc k * (2 ^ n - 1)),
  ap (λ t. bit_and (x / 2) t) half,
  bit_and-high k n (x / 2) fits,
  halve x k,
  even,
  product,
)
  where
    even : 2 ^ suc k * (2 ^ n - 1) ≡ 2 * (2 ^ k * (2 ^ n - 1))
    even = rw pow-suc (omega arith)

    half : 2 ^ suc k * (2 ^ n - 1) / 2 ≡ 2 ^ k * (2 ^ n - 1)
    half = omega (arith, even)

    fits : x / 2 < 2 ^ k * 2 ^ n
    fits = let e : 2 ^ suc k * 2 ^ n ≡ 2 * (2 ^ k * 2 ^ n) = rw pow-suc (omega arith) in omega arith

    product : x / 2 ^ suc k * 2 ^ suc k ≡ 2 * (x / 2 / 2 ^ k * 2 ^ k)
    product = rw (halve x k, pow-suc 2 k) (omega arith)

pow_half : (k : ℕ) → 2 ^ suc k / 2 ≡ 2 ^ k
pow_half k = omega (arith, pow-suc 2 k)

-- A power of two has one bit.
pub bit_pow_self : (k : ℕ) → bit (2 ^ k) k ≡ 1
bit_pow_self zero = refl
bit_pow_self (suc k) = rw (halve (2 ^ suc k) k, pow_half k) (bit_pow_self k)

pub bit_pow_ne : (k j : ℕ) → j ≢ k → bit (2 ^ k) j ≡ 0
bit_pow_ne zero zero ne = absurd (ne refl)
bit_pow_ne zero (suc j) ne = rw (halve 1 j) (omega (arith, zero-div (2 ^ j)))
bit_pow_ne (suc k) zero ne = omega (arith, pow-suc 2 k)
bit_pow_ne (suc k) (suc j) ne =
    rw (halve (2 ^ suc k) j, pow_half k) (bit_pow_ne k j (λ e. ne (ap suc e)))

-- The low bits of a number are those of its low part.
pub bit-mod : (n k x : ℕ) → k < n → bit (x % 2 ^ n) k ≡ bit x k
bit-mod zero k x h = absurd (omega arith)
bit-mod (suc n) zero x h = omega (arith, mod_halve n x)
bit-mod (suc n) (suc k) x h =
    rw (halve (x % 2 ^ suc n) k, halve x k, low) (bit-mod n k (x / 2) (omega arith))
  where
    low : x % 2 ^ suc n / 2 ≡ x / 2 % 2 ^ n
    low = omega (arith, mod_halve n x)
