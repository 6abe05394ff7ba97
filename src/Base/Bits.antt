-- ===== src/Base/Bits.antt =====
-- Binary digits of a number, and what `&`, `|` and `^` do to each.
pub mod Masks
use Prim.Native.Nat.{
  ℕ, zero, suc, ◌+◌, ◌-◌, ◌*◌, ◌/◌, ◌%◌, ◌^◌, ◌≤◌, ◌<◌, min, max, digits, differ, bit_and, bit_or,
  bit_xor, bit_and-bitwise, bit_or-bitwise, bit_xor-bitwise,
}
use mathlib.Core.Path.{◌≡◌, refl}
use mathlib.Core.Bool.{Bool, true, false}
use native.Mathlib.Nat.{div-div-eq-div-mul, pow-suc, mul_comm}
use native.Mathlib.Omega.{arith}
use cop5614nachos.Base.Tests.{◌==◌, ==_iff, if◌then◌else◌}

-- Digit `k` of `x`, the lowest being digit 0.
unfoldable pub bit : ℕ → ℕ → ℕ
bit x zero = x % 2
bit x (suc k) = bit (x / 2) k

pub bit-lt : (x k : ℕ) → bit x k < 2
unfolding bit
bit-lt x zero = omega arith
bit-lt x (suc k) = bit-lt (x / 2) k

-- One step of the recursion that defines a native operation, for any digit operation.
module _ (z : ℕ → ℕ) (f : ℕ → ℕ → ℕ) where
  enough_digits : (n m a b : ℕ) → a ≤ n → a ≤ m → digits z f n a b ≡ digits z f m a b
  enough_digits zero zero a b h k = refl
  enough_digits zero (suc m) zero b h k = refl
  enough_digits zero (suc m) (suc a) b h k = absurd (omega arith)
  enough_digits (suc n) zero zero b h k = refl
  enough_digits (suc n) zero (suc a) b h k = absurd (omega arith)
  enough_digits (suc n) (suc m) zero b h k = refl
  enough_digits (suc n) (suc m) (suc a) b h k =
      omega (arith, enough_digits n m (suc a / 2) (b / 2) (omega arith) (omega arith))

  lowest_digit :
      (a b : ℕ)
      → digits z f (suc a) (suc a) b
        ≡ digits z f (suc a / 2) (suc a / 2) (b / 2) * 2 + f (suc a % 2) (b % 2)
  lowest_digit a b =
      omega (arith, enough_digits a (suc a / 2) (suc a / 2) (b / 2) (omega arith) (omega arith))

and_step : (a b : ℕ) → bit_and a b ≡ bit_and (a / 2) (b / 2) * 2 + min (a % 2) (b % 2)
and_step zero b = omega (arith, bit_and-bitwise 0 b, bit_and-bitwise 0 (b / 2))
and_step (suc a) b = omega (
  arith,
  bit_and-bitwise (suc a) b,
  bit_and-bitwise (suc a / 2) (b / 2),
  lowest_digit (λ y. 0) min a b,
)

or_step : (a b : ℕ) → bit_or a b ≡ bit_or (a / 2) (b / 2) * 2 + max (a % 2) (b % 2)
or_step zero b = omega (arith, bit_or-bitwise 0 b, bit_or-bitwise 0 (b / 2))
or_step (suc a) b = omega (
  arith,
  bit_or-bitwise (suc a) b,
  bit_or-bitwise (suc a / 2) (b / 2),
  lowest_digit (λ y. y) max a b,
)

-- Exclusive or of two digits.
abbrev pub xor_digit : ℕ → ℕ → ℕ
xor_digit a b = (a + b) % 2

differ_table : (a b : ℕ) → a < 2 → b < 2 → differ a b ≡ xor_digit a b
differ_table zero b h k = omega arith
differ_table (suc zero) zero h k = refl
differ_table (suc zero) (suc zero) h k = refl
differ_table (suc zero) (suc (suc b)) h k = absurd (omega arith)
differ_table (suc (suc a)) b h k = absurd (omega arith)

xor_step : (a b : ℕ) → bit_xor a b ≡ bit_xor (a / 2) (b / 2) * 2 + xor_digit (a % 2) (b % 2)
xor_step zero b = omega (arith, bit_xor-bitwise 0 b, bit_xor-bitwise 0 (b / 2))
xor_step (suc a) b = omega (
  arith,
  bit_xor-bitwise (suc a) b,
  bit_xor-bitwise (suc a / 2) (b / 2),
  lowest_digit (λ y. y) differ a b,
  differ_table (suc a % 2) (b % 2) (omega arith) (omega arith),
)

pub bit-and : (a b k : ℕ) → bit (bit_and a b) k ≡ min (bit a k) (bit b k)
unfolding bit
bit-and a b zero = omega (arith, and_step a b)
bit-and a b (suc k) =
    let half : bit_and a b / 2 ≡ bit_and (a / 2) (b / 2) = omega (arith, and_step a b) in
    rw half (bit-and (a / 2) (b / 2) k)

pub bit-or : (a b k : ℕ) → bit (bit_or a b) k ≡ max (bit a k) (bit b k)
unfolding bit
bit-or a b zero = omega (arith, or_step a b)
bit-or a b (suc k) =
    let half : bit_or a b / 2 ≡ bit_or (a / 2) (b / 2) = omega (arith, or_step a b) in
    rw half (bit-or (a / 2) (b / 2) k)

pub bit-xor : (a b k : ℕ) → bit (bit_xor a b) k ≡ xor_digit (bit a k) (bit b k)
unfolding bit
bit-xor a b zero = omega (arith, xor_step a b)
bit-xor a b (suc k) =
    let half : bit_xor a b / 2 ≡ bit_xor (a / 2) (b / 2) = omega (arith, xor_step a b) in
    rw half (bit-xor (a / 2) (b / 2) k)

-- A digit in the form that arithmetic reads.
pub bit-div : (x k : ℕ) → bit x k ≡ x / 2 ^ k % 2
unfolding bit
bit-div x zero = omega arith
bit-div x (suc k) =
    rw (pow-suc 2 k, mul_comm (2 ^ k) 2, ← div-div-eq-div-mul x 2 (2 ^ k)) (bit-div (x / 2) k)

and-zero : (n a : ℕ) → a ≤ n → bit_and a 0 ≡ 0
and-zero zero zero h = refl
and-zero zero (suc a) h = absurd (omega arith)
and-zero (suc n) zero h = refl
and-zero (suc n) (suc a) h = omega (arith, and_step (suc a) 0, and-zero n (suc a / 2) (omega arith))

-- A mask of one digit picks that digit.
pub and-pow : (a k : ℕ) → bit_and a (2 ^ k) ≡ bit a k * 2 ^ k
unfolding bit
and-pow a zero = omega (arith, and_step a 1, and-zero (a / 2) (a / 2) (omega arith))
and-pow a (suc k) =
    let half : 2 ^ suc k / 2 ≡ 2 ^ k = omega (arith, pow-suc 2 k) in
    let step : bit_and a (2 ^ suc k)
        ≡ bit_and (a / 2) (2 ^ suc k / 2) * 2 + min (a % 2) (2 ^ suc k % 2) =
      and_step a (2 ^ suc k) in
    grind (arith, step, half, and-pow (a / 2) k, pow-suc 2 k)

and-bounded : (n a b : ℕ) → b ≤ n → bit_and a b ≤ b
and-bounded n a zero h = omega (arith, and-zero a a (omega arith))
and-bounded zero a (suc b) h = absurd (omega arith)
and-bounded (suc n) a (suc b) h =
    omega (arith, and_step a (suc b), and-bounded n (a / 2) (suc b / 2) (omega arith))

-- A mask bounds the result.
pub and-le : (a b : ℕ) → bit_and a b ≤ b
and-le a b = and-bounded b a b (omega arith)

or-zero : (n a : ℕ) → a ≤ n → bit_or a 0 ≡ a
or-zero zero zero h = refl
or-zero zero (suc a) h = absurd (omega arith)
or-zero (suc n) zero h = refl
or-zero (suc n) (suc a) h = omega (arith, or_step (suc a) 0, or-zero n (suc a / 2) (omega arith))

-- Setting the lowest digit of an even number.
pub or-one : (a : ℕ) → a % 2 ≡ 0 → bit_or a 1 ≡ a + 1
or-one a even = omega (arith, or_step a 1, or-zero (a / 2) (a / 2) (omega arith))

-- A mask of all `n` digits changes nothing.
pub and-mask : (n a : ℕ) → a < 2 ^ n → bit_and a (2 ^ n - 1) ≡ a
and-mask zero a lt = omega (arith, and-zero a a (omega arith))
and-mask (suc n) a lt =
    let half : (2 ^ suc n - 1) / 2 ≡ 2 ^ n - 1 = omega (arith, pow-suc 2 n) in
    let low : (2 ^ suc n - 1) % 2 ≡ 1 = omega (arith, pow-suc 2 n) in
    let step = and_step a (2 ^ suc n - 1) in
    omega (arith, (rw half at step), low, and-mask n (a / 2) (omega (arith, pow-suc 2 n)))

-- With the lowest digit masked off, only 0 and 1 give 0.
pub and-even : (a : ℕ) → a < 2 ^ 32 → bit_and a 0xffff_fffe ≡ a / 2 * 2
and-even a lt = omega (arith, and_step a 0xffff_fffe, and-mask 31 (a / 2) (omega arith))

-- A test that `n` evaluations decide.
holds_up_to : (ℕ → Bool) → ℕ → Bool
holds_up_to p zero = true
holds_up_to p (suc n) = if p n then holds_up_to p n else false

-- What the evaluation says of each number below the bound.
by_table : (p : ℕ → Bool) (n k : ℕ) → k < n → holds_up_to p n ≡ true → p k ≡ true
unfolding holds_up_to
by_table p zero k lt table = absurd (omega arith)
by_table p (suc n) k lt table = ground (arith, by_table p n k)

abbrev one_digit : ℕ → ℕ → Bool
one_digit j k = bit (2 ^ j) k == (if k == j then 1 else 0)

abbrev all_but_one : ℕ → ℕ → Bool
all_but_one j k = bit (2 ^ 32 - 1 - 2 ^ j) k == (if k == j then 0 else 1)

one_digit_table : holds_up_to (λ j. holds_up_to (one_digit j) 32) 32 ≡ true
unfolding holds_up_to bit
one_digit_table = refl

all_but_one_table : holds_up_to (λ j. holds_up_to (all_but_one j) 32) 32 ≡ true
unfolding holds_up_to bit
all_but_one_table = refl

-- The digits of `1 << j` and of `~(1 << j)` in a 32-bit word.
pub bit-pow : (j k : ℕ) → j < 32 → k < 32 → bit (2 ^ j) k ≡ (if k == j then 1 else 0)
bit-pow j k hj hk =
    let row = by_table (λ i. holds_up_to (one_digit i) 32) 32 j hj one_digit_table in
    (==_iff _ _).0 (by_table (one_digit j) 32 k hk row)

pub bit-pow_not :
    (j k : ℕ) → j < 32 → k < 32 → bit (2 ^ 32 - 1 - 2 ^ j) k ≡ (if k == j then 0 else 1)
bit-pow_not j k hj hk =
    let row = by_table (λ i. holds_up_to (all_but_one i) 32) 32 j hj all_but_one_table in
    (==_iff _ _).0 (by_table (all_but_one j) 32 k hk row)
