-- ===== src/Machine/Mips/Mult.antt =====
-- `Mult` of machine/mipssim.cc: the 64-bit product of two words, digit by digit.
pub mod Digits
pub mod Product
pub mod Rounds
use cop5614nachos.Base.{
  ℕ, zero, suc, ◌+◌, ◌-◌, ◌*◌, ◌/◌, ◌%◌, ◌^◌, Bool, true, false, not, ◌&&◌, ◌||◌, ltb, leb, ◌==◌,
  if◌then◌else◌, bit_and, bit_or,
}
use cop5614nachos.Machine.Mips.Word.{
  word_size, sign_bit, is_negative, negate, plus, complement, shift_left, shift_right,
}

-- `lo += bLo`, with the carry, and `hi += bHi`; the result is `(hi, lo)`.
abbrev pub add_double : ℕ → ℕ → ℕ → ℕ → ℕ × ℕ
add_double b_hi b_lo hi lo =
    let lo' = plus lo b_lo in (plus (if ltb lo' b_lo then plus hi 1 else hi) b_hi, lo')

-- `bHi <<= 1`, with the top digit of `bLo` moved in.
abbrev pub shifted_hi : ℕ → ℕ → ℕ
shifted_hi b_hi b_lo =
    let shifted = shift_left b_hi 1 in
    if bit_and b_lo sign_bit == 0 then shifted else bit_or shifted 1

-- The rounds of the loop, with `a`, `bHi`, `bLo` and the pair of `hi` and `lo`, which is the result.
unfoldable pub mult_loop : ℕ → ℕ → ℕ → ℕ → ℕ × ℕ → ℕ × ℕ
mult_loop zero a b_hi b_lo sum = sum
mult_loop (suc rounds) a b_hi b_lo sum =
    let odd : Bool = not (bit_and a 1 == 0) in
    let sum' : ℕ × ℕ = if odd then add_double b_hi b_lo sum.0 sum.1 else sum in
    let rest = mult_loop rounds (shift_right a 1) (shifted_hi b_hi b_lo) (shift_left b_lo 1) sum' in
    if odd && (bit_and a 0xffff_fffe == 0) then sum' else rest

-- The two's complement of the double word `(hi, lo)`.
abbrev pub negate_double : ℕ × ℕ → ℕ × ℕ
negate_double w =
    let lo' = plus (complement w.1) 1 in
    (if lo' == 0 then plus (complement w.0) 1 else complement w.0, lo')

-- Both `negative = !negative`.
abbrev pub differ_in_sign : ℕ → ℕ → Bool
differ_in_sign a b = if is_negative a then not (is_negative b) else is_negative b

-- `Mult(a, b, signedArith, hiPtr, loPtr)`: the two words that it stores.
unfoldable pub mult : ℕ → ℕ → Bool → ℕ × ℕ
unfolding mult_loop
mult a b signed_arith =
    if a == 0 || b == 0
    then (0, 0)
    else let a' = if signed_arith then (if is_negative a then negate a else a) else a in
      let b' = if signed_arith then (if is_negative b then negate b else b) else b in
      let flipped = if signed_arith then differ_in_sign a b else false in
      let product = mult_loop 32 a' 0 b' (0, 0) in
      if flipped then negate_double product else product
