-- ===== src/Machine/Mips/Mult/Digits.antt =====
-- One round of the loop of `Mult`: a digit of `a`, the sum and the shifted `b`.
use cop5614nachos.Base.{
  ℕ, suc, ◌+◌, ◌*◌, ◌/◌, ◌%◌, ◌^◌, ◌≤◌, ◌<◌, ◌≡◌, ◌⊎◌, inl, inr, ◌∙◌, ap, refl, false, ltb, ◌==◌,
  bit_and, arith, Bool-cases,
}
use native.Mathlib.Nat.{pow-suc, pow-le-pow_right}
use cop5614nachos.Base.Bits.{and-pow, bit-div, or-one, and-even}
use cop5614nachos.Machine.Mips.Word.{word_size, sign_bit, is_negative, shift_left, shift_right}
use cop5614nachos.Machine.Mips.Mult.{add_double, shifted_hi, mult_loop}

-- The number that a pair of words stands for.
abbrev pub double : ℕ × ℕ → ℕ
double w = w.0 * word_size + w.1

bit_and-one : (a : ℕ) → bit_and a 1 ≡ a % 2
bit_and-one a = omega (arith, and-pow a 0, bit-div a 0)

bit_and-sign : (a : ℕ) → a < word_size → (bit_and a sign_bit == 0) ≡ ltb a sign_bit
bit_and-sign a lt = ground (arith, and-pow a 31, bit-div a 31)

-- One digit of `a`: the sum, and the doubled `b`.
pub double-add_double :
    (b_hi b_lo hi lo : ℕ)
    → b_lo < word_size
    → lo < word_size
    → hi * word_size + lo + (b_hi * word_size + b_lo) < 2 ^ 64
    → double (add_double b_hi b_lo hi lo) ≡ hi * word_size + lo + (b_hi * word_size + b_lo)
double-add_double b_hi b_lo hi lo h1 h2 h3 = ground arith

shifted_hi-half :
    (b_hi b_lo : ℕ)
    → b_hi * word_size + b_lo < 2 ^ 63
    → b_lo < word_size
    → shifted_hi b_hi b_lo ≡ b_hi * 2 + b_lo / sign_bit
shifted_hi-half b_hi b_lo h1 h2 =
    rw (bit_and-sign b_lo h2) (ground (arith, or-one (shift_left b_hi 1) (omega arith)))

pub double-shifted :
    (b_hi b_lo : ℕ)
    → b_hi * word_size + b_lo < 2 ^ 63
    → b_lo < word_size
    → shifted_hi b_hi b_lo * word_size + shift_left b_lo 1 ≡ (b_hi * word_size + b_lo) * 2
double-shifted b_hi b_lo h1 h2 = omega (arith, shifted_hi-half b_hi b_lo h1 h2)

-- `a` holds the digits `c` that are left, `rounds` of them: above them zeros or, for a negative `a`, ones.
abbrev pub Holds : ℕ → ℕ → ℕ → Type 0
Holds rounds a c = (a ≡ c) ⊎ (a + 2 ^ rounds ≡ c + word_size)

pub last_round : (n : ℕ) → n < 32 → (n ≡ 31) ⊎ (2 ^ suc n ≤ sign_bit)
last_round n lt = elim (Bool-cases (n == 31)) [
  | inl e ↦ inl (ground arith)
  | inr ne ↦ inr (pow-le-pow_right {n = 2} (omega arith) {i = suc n} {j = 31} (ground arith))
]

pub Holds-shifted :
    (n a c : ℕ)
    → n < 32
    → a < word_size
    → c < 2 ^ suc n
    → Holds (suc n) a c
    → Holds n (shift_right a 1) (c / 2)
Holds-shifted n a c h lt fits (inl e) = elim (Bool-cases (is_negative a)) [
  | inr pos ↦ inl (ground arith)
  | inl neg ↦ elim (last_round n h) [
    | inl at ↦ inr (rw (neg, at) (ground arith))
    | inr small ↦ absurd (ground arith)
  ]
]
Holds-shifted n a c h lt fits (inr e) =
    let p = pow-suc 2 n in
    elim (Bool-cases (is_negative a)) [
      | inr pos ↦ elim (last_round n h) [
        | inl at ↦ let e' = rw at at e in inl (rw pos (omega arith))
        | inr small ↦ absurd (ground arith)
      ]
      | inl neg ↦ inr (rw neg (omega (arith, p)))
    ]

product_of_digits : (q r b : ℕ) → (q * 2 + r) * b ≡ q * (b * 2) + r * b
product_of_digits q r b = omega arith

pub product-halved : (c b : ℕ) → c * b ≡ c / 2 * (b * 2) + c % 2 * b
product-halved c b =
    let digits : c ≡ c / 2 * 2 + c % 2 = omega arith in
    ap (λ (x : ℕ). x * b) digits ∙ product_of_digits (c / 2) (c % 2) b

pub mult_loop-zero : (a b_hi b_lo : ℕ) (sum : ℕ × ℕ) → mult_loop 0 a b_hi b_lo sum ≡ sum
unfolding mult_loop
mult_loop-zero a b_hi b_lo sum = refl

pub mult_loop-last :
    (rounds a b_hi b_lo : ℕ) (sum : ℕ × ℕ)
    → a % 2 ≡ 1
    → a / 2 ≡ 0
    → a < word_size
    → mult_loop (suc rounds) a b_hi b_lo sum ≡ add_double b_hi b_lo sum.0 sum.1
unfolding mult_loop
mult_loop-last rounds a b_hi b_lo sum odd done lt =
    rw (bit_and-one a, odd, and-even a lt, done) refl

pub mult_loop-odd :
    (rounds a b_hi b_lo : ℕ) (sum : ℕ × ℕ)
    → a % 2 ≡ 1
    → (a / 2 * 2 == 0) ≡ false
    → a < word_size
    → mult_loop (suc rounds) a b_hi b_lo sum
      ≡ mult_loop rounds
          (shift_right a 1)
          (shifted_hi b_hi b_lo)
          (shift_left b_lo 1)
          (add_double b_hi b_lo sum.0 sum.1)
unfolding mult_loop
mult_loop-odd rounds a b_hi b_lo sum odd more lt = rw (bit_and-one a, odd, and-even a lt, more) refl

pub mult_loop-even :
    (rounds a b_hi b_lo : ℕ) (sum : ℕ × ℕ)
    → a % 2 ≡ 0
    → mult_loop (suc rounds) a b_hi b_lo sum
      ≡ mult_loop rounds (shift_right a 1) (shifted_hi b_hi b_lo) (shift_left b_lo 1) sum
unfolding mult_loop
mult_loop-even rounds a b_hi b_lo sum even = rw (bit_and-one a, even) refl
