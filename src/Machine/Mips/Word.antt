-- ===== src/Machine/Mips/Word.antt =====
-- The `int` operations of machine/mipssim.cc on 32-bit words, a negative value as its two's complement.
use cop5614nachos.Base.{
  ℕ, ◌+◌, ◌-◌, ◌*◌, ◌/◌, ◌%◌, ◌^◌, Bool, false, Option, none, some, ltb, leb, if◌then◌else◌,
}

abbrev pub word_size : ℕ
word_size = 2 ^ 32

abbrev pub sign_bit : ℕ
sign_bit = 0x8000_0000

-- `x < 0`
abbrev pub is_negative : ℕ → Bool
is_negative x = leb sign_bit x

-- `-x`
abbrev pub negate : ℕ → ℕ
negate x = (word_size - x) % word_size

-- `x + y`, wrapped around.
abbrev pub plus : ℕ → ℕ → ℕ
plus x y = (x + y) % word_size

-- `x - y`
abbrev pub minus : ℕ → ℕ → ℕ
minus x y = (x + (word_size - y)) % word_size

-- `~x`
abbrev pub complement : ℕ → ℕ
complement x = word_size - 1 - x

-- `x << k`
abbrev pub shift_left : ℕ → ℕ → ℕ
shift_left x k = x * 2 ^ k % word_size

-- `x >> k` of an `int`, which keeps the sign.
abbrev pub shift_right : ℕ → ℕ → ℕ
shift_right x k = if is_negative x then complement (complement x / 2 ^ k) else x / 2 ^ k

-- `x < y` of two `int`s.
abbrev pub less : ℕ → ℕ → Bool
less x y = ltb ((x + sign_bit) % word_size) ((y + sign_bit) % word_size)

-- The magnitude of an `int`.
abbrev pub magnitude : ℕ → ℕ
magnitude x = if is_negative x then word_size - x else x

-- `x / y` and `x % y` of two `int`s, truncated towards zero, `y` not 0. The quotient of the least
-- `int` by -1 overflows and traps on the host.
unfoldable pub divide : ℕ → ℕ → Option (ℕ × ℕ)
divide x y =
    let q = magnitude x / magnitude y in
    let r = magnitude x % magnitude y in
    if (if is_negative x then is_negative y else false)
    then (if leb sign_bit q then none else some (q, negate r))
    else if is_negative x
    then some (negate q, negate r)
    else if is_negative y
    then some (negate q, r)
    else some (q, r)
