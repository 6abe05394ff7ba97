-- ===== src/Machine/Mips/Mult/Product.antt =====
-- `Mult` computes the product.
use native.Mathlib.Nat.{mul-le-mul}
use cop5614nachos.Base.{
  ℕ, ◌-◌, ◌*◌, ◌%◌, ◌^◌, ◌<◌, ◌≡◌, inl, inr, refl, Bool, true, false, ◌==◌, if◌then◌else◌, arith,
  Bool-cases,
}
use cop5614nachos.Machine.Mips.Word.{word_size, is_negative, negate, magnitude}
use cop5614nachos.Machine.Mips.Mult.{differ_in_sign, mult_loop, mult, negate_double}
use cop5614nachos.Machine.Mips.Mult.Digits.{double}
use cop5614nachos.Machine.Mips.Mult.Rounds.{mult_loop-product, mult_loop-word}

product-lt : (a b : ℕ) → a < word_size → b < word_size → a * b < 2 ^ 64
product-lt a b ha hb = omega (
  arith,
  mul-le-mul {n₁ = a} {m₁ = b} {n₂ = 0xffff_ffff} {m₂ = 0xffff_ffff} (omega arith) (omega arith),
)

mult_loop-all :
    (a b : ℕ) → a < word_size → b < word_size → double (mult_loop 32 a 0 b (0, 0)) ≡ a * b
mult_loop-all a b ha hb =
    let total = product-lt a b ha hb in
    let e =
      mult_loop-product 32 a a 0 b (0, 0) (omega arith) ha ha (inl refl) hb (omega arith)
        (omega arith) (omega arith) in
    omega arith

double-negate_double :
    (w : ℕ × ℕ)
    → w.1 < word_size
    → double w < 2 ^ 64
    → double (negate_double w) ≡ (2 ^ 64 - double w) % 2 ^ 64
double-negate_double w h1 h2 = ground arith

-- `Mult` of two words as unsigned numbers stores their 64-bit product.
pub mult-product : (a b : ℕ) → a < word_size → b < word_size → double (mult a b false) ≡ a * b
unfolding mult
mult-product a b ha hb = elim (Bool-cases (a == 0)) [
  | inl e ↦ let z : a ≡ 0 = ground arith in rw z (omega arith)
  | inr ne ↦ elim (Bool-cases (b == 0)) [
    | inl e ↦ let z : b ≡ 0 = ground arith in rw (ne, z) (omega arith)
    | inr ne' ↦ rw (ne, ne') (mult_loop-all a b ha hb)
  ]
]

magnitude-negate : (a : ℕ) → a < word_size → (if is_negative a then negate a else a) ≡ magnitude a
magnitude-negate a lt = ground arith

signed :
    (flipped : Bool) (w : ℕ × ℕ) {product : ℕ}
    → w.1 < word_size
    → product < 2 ^ 64
    → double w ≡ product
    → double (if flipped then negate_double w else w)
      ≡ (if flipped then (2 ^ 64 - product) % 2 ^ 64 else product)
signed true w h1 h2 e = rw (← e) (double-negate_double w h1 (omega arith))
signed false w h1 h2 e = e

-- `Mult` of two words as signed numbers stores the 64-bit two's complement of their product: the
-- product of the magnitudes, negated when the signs differ.
pub mult-signed_product :
    (a b : ℕ)
    → a < word_size
    → b < word_size
    → double (mult a b true) ≡ (
        if differ_in_sign a b
        then (2 ^ 64 - magnitude a * magnitude b) % 2 ^ 64
        else magnitude a * magnitude b)
unfolding mult
mult-signed_product a b ha hb = elim (Bool-cases (a == 0)) [
  | inl e ↦ let z : a ≡ 0 = ground arith in rw z (ground arith)
  | inr ne ↦ elim (Bool-cases (b == 0)) [
    | inl e ↦ let z : b ≡ 0 = ground arith in rw (ne, z) (ground arith)
    | inr ne' ↦
        let x = magnitude a in
        let y = magnitude b in
        let low : x < word_size = ground arith in
        let low' : y < word_size = ground arith in
        let all = mult_loop-all x y low low' in
        let product = product-lt x y low low' in
        let word = mult_loop-word 32 x 0 y (0, 0) (omega arith) in
        rw (ne, ne', magnitude-negate a ha, magnitude-negate b hb)
          (signed (differ_in_sign a b) (mult_loop 32 x 0 y (0, 0)) word product all)
  ]
]
