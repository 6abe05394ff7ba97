-- ===== src/Bitmap.antt =====
-- userprog/bitmap.cc and bitmap.h: the bitmap that hands out frames, process numbers, table slots
-- and disk sectors. A bit number is a natural number, `ASSERT` failing is `none`, and the answer
-- -1 of `Find` is an inner `none`. Words are 32 bits, below `2 ^ 32`.
pub mod Bits
pub mod Search
pub mod Counting
use cop5614nachos.Base.{
  ℕ, zero, suc, ◌+◌, ◌-◌, ◌/◌, ◌%◌, ◌^◌, Bool, true, false, not, Option, none, some, bit_and,
  bit_or, ltb, ◌==◌, if◌then◌else◌, ◌>>=◌, ◌>>◌, assert, Array, update,
}
use cop5614nachos.Utility.{div_round_up}

abbrev pub bits_in_word : ℕ
bits_in_word = 32

pub record BitMap : Type 0 where
  pub num_bits : ℕ
  pub num_words : ℕ
  pub map : Array ℕ

-- `1 << k` and `~(1 << k)` as unsigned words.
abbrev pub mask : ℕ → ℕ
mask k = 2 ^ k

abbrev pub mask_not : ℕ → ℕ
mask_not k = 2 ^ 32 - 1 - 2 ^ k

abbrev pub word_of : BitMap → ℕ → ℕ
word_of b which = b.map (which / bits_in_word)

unfoldable pub mark : BitMap → ℕ → Option BitMap
mark b which = do
  assert (ltb which b.num_bits)
  some (record b {
    map =
        update b.map (which / bits_in_word)
          (bit_or (word_of b which) (mask (which % bits_in_word)));
  })

unfoldable pub clear : BitMap → ℕ → Option BitMap
clear b which = do
  assert (ltb which b.num_bits)
  some (record b {
    map =
        update b.map (which / bits_in_word)
          (bit_and (word_of b which) (mask_not (which % bits_in_word)));
  })

unfoldable pub test : BitMap → ℕ → Option Bool
test b which = do
  assert (ltb which b.num_bits)
  some (not (bit_and (word_of b which) (mask (which % bits_in_word)) == 0))

-- `for (i = i; i < i + rounds; i++)` of `Find`.
unfoldable pub find_loop : ℕ → ℕ → BitMap → Option (Option ℕ × BitMap)
find_loop zero i b = some (none, b)
find_loop (suc rounds) i b =
    let rest = find_loop rounds (i + 1) b in
    do t ← test b i; if t then rest else do b' ← mark b i; some (some i, b')

unfoldable pub find : BitMap → Option (Option ℕ × BitMap)
unfolding find_loop
find b = find_loop b.num_bits 0 b

unfoldable pub num_clear_loop : ℕ → ℕ → ℕ → BitMap → Option ℕ
num_clear_loop zero i count b = some count
num_clear_loop (suc rounds) i count b = do
  t ← test b i
  num_clear_loop rounds (i + 1) (if t then count else count + 1) b

unfoldable pub num_clear : BitMap → Option ℕ
unfolding num_clear_loop
num_clear b = num_clear_loop b.num_bits 0 0 b

unfoldable pub clear_loop : ℕ → ℕ → BitMap → Option BitMap
clear_loop zero i b = some b
clear_loop (suc rounds) i b = do b' ← clear b i; clear_loop rounds (i + 1) b'

-- `new unsigned int[numWords]` holds anything: `garbage`.
unfoldable pub bit_map : ℕ → Array ℕ → Option BitMap
unfolding clear_loop
bit_map nitems garbage =
    clear_loop nitems 0
      (record { num_bits = nitems; num_words = div_round_up nitems bits_in_word; map = garbage })
