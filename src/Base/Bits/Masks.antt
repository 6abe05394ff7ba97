-- ===== src/Base/Bits/Masks.antt =====
-- Masks of several digits, and the `|` of numbers that share none.
use Prim.Native.Nat.{
  ℕ, zero, suc, ◌+◌, ◌-◌, ◌*◌, ◌/◌, ◌%◌, ◌^◌, ◌<◌, bit_and, bit_or, bit_or-bitwise,
}
use mathlib.Core.Path.{◌≡◌, ap, sym, ◌∙◌}
use native.Mathlib.Nat.{div-div-eq-div-mul, div-add-mod, pow-suc, mul_comm, mul_assoc}
use native.Mathlib.Omega.{arith}
use cop5614nachos.Base.Bits.{and_step, or_step, and-zero}

pub mod-double : (m w : ℕ) → ((w % (2 * m)) / 2 ≡ (w / 2) % m) × (w % (2 * m) % 2 ≡ w % 2)
mod-double m w =
    let split = div-add-mod w (2 * m) in
    let half = div-add-mod (w / 2) m in
    let same = div-div-eq-div-mul w 2 m in
    let twice : 2 * m * (w / (2 * m)) ≡ 2 * (m * (w / 2 / m)) =
      rw same (mul_assoc 2 m (w / (2 * m))) in
    omega arith

pow-double : (n : ℕ) → 2 ^ suc n ≡ 2 * 2 ^ n
pow-double n = simp (pow-suc, mul_comm)

pow-pos : (n : ℕ) → 0 < 2 ^ n
pow-pos zero = omega arith
pow-pos (suc n) = omega (arith, pow-double n, pow-pos n)

-- A mask of the low `n` digits takes the remainder.
pub and-below : (n a : ℕ) → bit_and a (2 ^ n - 1) ≡ a % 2 ^ n
and-below zero a = omega (arith, and-zero a a (omega arith))
and-below (suc n) a =
    let half : (2 ^ suc n - 1) / 2 ≡ 2 ^ n - 1 = omega (arith, pow-double n) in
    let low : (2 ^ suc n - 1) % 2 ≡ 1 = omega (arith, pow-double n, pow-pos n) in
    let step = and_step a (2 ^ suc n - 1) in
    let (upper, lower) = mod-double (2 ^ n) a in
    let same : a % 2 ^ suc n ≡ a % (2 * 2 ^ n) = ap (λ m. a % m) (pow-double n) in
    omega (arith, (rw half at step), low, and-below n (a / 2), upper, lower, same)

-- A mask that ends in a zero.
and-even_mask : (a b : ℕ) → bit_and a (2 * b) ≡ 2 * bit_and (a / 2) b
and-even_mask a b =
    let half : 2 * b / 2 ≡ b = omega arith in
    let step = and_step a (2 * b) in omega (arith, (rw half at step))

-- A number that ends in any digit, and one that ends in a zero.
or-even : (a b : ℕ) → bit_or a (2 * b) ≡ 2 * bit_or (a / 2) b + a % 2
or-even a b =
    let half : 2 * b / 2 ≡ b = omega arith in
    let step = or_step a (2 * b) in omega (arith, (rw half at step))

pow-mul : (k b : ℕ) → 2 ^ suc k * b ≡ 2 * (2 ^ k * b)
pow-mul k b = ap (λ m. m * b) (pow-double k) ∙ mul_assoc 2 (2 ^ k) b

-- A mask of digits from `k` on.
pub and-shifted : (k a b : ℕ) → bit_and a (2 ^ k * b) ≡ 2 ^ k * bit_and (a / 2 ^ k) b
and-shifted zero a b =
    let one : 2 ^ 0 * b ≡ b = omega arith in
    let same : a / 2 ^ 0 ≡ a = omega arith in rw (one, same) (omega arith)
and-shifted (suc k) a b =
    ap (λ m. bit_and a m) (pow-mul k b)
    ∙ and-even_mask a (2 ^ k * b)
    ∙ ap (λ m. 2 * m)
        (and-shifted k (a / 2) b
          ∙ ap (λ q. 2 ^ k * bit_and q b)
              (div-div-eq-div-mul a 2 (2 ^ k) ∙ ap (λ m. a / m) (sym (pow-double k))))
    ∙ sym (pow-mul k (bit_and (a / 2 ^ suc k) b))

-- `|` with digits from `k` on adds them to a number below.
pub or-shifted : (k a b : ℕ) → a < 2 ^ k → bit_or a (2 ^ k * b) ≡ a + 2 ^ k * b
or-shifted zero a b lt =
    let none : a ≡ 0 = omega arith in
    let one : 2 ^ 0 * b ≡ b = omega arith in rw (none, one) (omega (arith, bit_or-bitwise 0 b))
or-shifted (suc k) a b lt =
    let twice = pow-mul k b in
    let small : a / 2 < 2 ^ k = omega (arith, pow-double k) in
    let step = ap (λ m. bit_or a m) twice ∙ or-even a (2 ^ k * b) in
    omega (arith, step, or-shifted k (a / 2) b small, twice)
