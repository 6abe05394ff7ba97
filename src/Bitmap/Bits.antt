-- ===== src/Bitmap/Bits.antt =====
-- A bitmap seen as a function from bit numbers to Booleans, and `Mark`, `Clear` and `Test` on it.
use native.Mathlib.Nat.{pow-suc}
use cop5614nachos.Base.{
  ℕ, zero, suc, ◌/◌, ◌%◌, ◌^◌, ◌<◌, ◌≡◌, refl, Bool, true, false, some, bit_and, arith, ◌==◌,
  if◌then◌else◌, bit_or, update,
}
use cop5614nachos.Base.Bits.{bit, bit-lt, bit-and, bit-or, bit-pow, bit-pow_not, and-pow}
use cop5614nachos.Bitmap.{BitMap, bits_in_word, mask, mask_not, word_of, mark, clear, test}

-- Bit `i` is in use.
unfoldable pub is_set : BitMap → ℕ → Bool
is_set b i = bit (word_of b i) (i % bits_in_word) == 1

-- The bitmaps that `Mark` and `Clear` leave.
unfoldable pub marked : BitMap → ℕ → BitMap
marked b i = record b {
  map = update b.map (i / bits_in_word) (bit_or (word_of b i) (mask (i % bits_in_word)));
}

unfoldable pub cleared : BitMap → ℕ → BitMap
cleared b i = record b {
  map = update b.map (i / bits_in_word) (bit_and (word_of b i) (mask_not (i % bits_in_word)));
}

pub mark-marked : (b : BitMap) (i : ℕ) → i < b.num_bits → mark b i ≡ some (marked b i)
unfolding mark marked
mark-marked b i h = ground arith

pub clear-cleared : (b : BitMap) (i : ℕ) → i < b.num_bits → clear b i ≡ some (cleared b i)
unfolding clear cleared
clear-cleared b i h = ground arith

pub num_bits-marked : (b : BitMap) (i : ℕ) → (marked b i).num_bits ≡ b.num_bits
unfolding marked
num_bits-marked b i = refl

pub num_words-marked : (b : BitMap) (i : ℕ) → (marked b i).num_words ≡ b.num_words
unfolding marked
num_words-marked b i = refl

pub num_bits-cleared : (b : BitMap) (i : ℕ) → (cleared b i).num_bits ≡ b.num_bits
unfolding cleared
num_bits-cleared b i = refl

pub num_words-cleared : (b : BitMap) (i : ℕ) → (cleared b i).num_words ≡ b.num_words
unfolding cleared
num_words-cleared b i = refl

pow-pos : (k : ℕ) → 0 < 2 ^ k
pow-pos zero = omega arith
pow-pos (suc k) = omega (arith, pow-suc 2 k, pow-pos k)

-- `Test` of a bit inside the map succeeds and answers whether it is set.
pub test-is_set : (b : BitMap) (i : ℕ) → i < b.num_bits → test b i ≡ some (is_set b i)
unfolding test is_set
test-is_set b i h =
    grind (arith, and-pow (word_of b i) (i % 32), bit-lt (word_of b i) (i % 32), pow-pos (i % 32))

pub is_set-marked :
    (b : BitMap) (i j : ℕ) → is_set (marked b i) j ≡ (if j == i then true else is_set b j)
unfolding is_set marked
is_set-marked b i j = ground (
  arith,
  bit-or (word_of b i) (mask (i % 32)) (j % 32),
  bit-pow (i % 32) (j % 32),
  bit-lt (word_of b i) (j % 32),
)

pub is_set-cleared :
    (b : BitMap) (i j : ℕ) → is_set (cleared b i) j ≡ (if j == i then false else is_set b j)
unfolding is_set cleared
is_set-cleared b i j = ground (
  arith,
  bit-and (word_of b i) (mask_not (i % 32)) (j % 32),
  bit-pow_not (i % 32) (j % 32),
  bit-lt (word_of b i) (j % 32),
)

-- `Mark` of a bit inside the map succeeds, keeps the size, sets that bit and changes no other.
pub mark-is_set :
    (b : BitMap) (i : ℕ)
    → i < b.num_bits
    → (b' : BitMap) × (mark b i ≡ some b')
      × (b'.num_bits ≡ b.num_bits)
      × ((j : ℕ) → is_set b' j ≡ (if j == i then true else is_set b j))
mark-is_set b i lt = (marked b i, mark-marked b i lt, num_bits-marked b i, is_set-marked b i)

-- `Clear` of a bit inside the map succeeds, keeps the size, clears that bit and changes no other.
pub clear-is_set :
    (b : BitMap) (i : ℕ)
    → i < b.num_bits
    → (b' : BitMap) × (clear b i ≡ some b')
      × (b'.num_bits ≡ b.num_bits)
      × ((j : ℕ) → is_set b' j ≡ (if j == i then false else is_set b j))
clear-is_set b i lt = (cleared b i, clear-cleared b i lt, num_bits-cleared b i, is_set-cleared b i)
