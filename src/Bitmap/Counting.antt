-- ===== src/Bitmap/Counting.antt =====
-- `NumClear` counts the clear bits, and `Find` and `Clear` move that count by one.
use cop5614nachos.Base.{
  ℕ, zero, suc, ◌+◌, ◌≤◌, ◌<◌, ◌≡◌, refl, ◌≢◌, true, false, Option, none, some, arith, Bool-cases,
  ◌==◌, if◌then◌else◌, inl, inr,
}
use cop5614nachos.Bitmap.{BitMap, num_clear_loop, num_clear, find}
use cop5614nachos.Bitmap.Bits.{is_set, marked, cleared, test-is_set, is_set-marked, is_set-cleared}
use cop5614nachos.Bitmap.Search.{Found, full, free, find-Found}

-- The clear bits among the `rounds` bits from `i` on.
unfoldable pub clear_bits : BitMap → ℕ → ℕ → ℕ
clear_bits b zero i = 0
clear_bits b (suc rounds) i = (if is_set b i then 0 else 1) + clear_bits b rounds (i + 1)

-- The number of clear bits.
abbrev pub free_bits : BitMap → ℕ
free_bits b = clear_bits b b.num_bits 0

num_clear_loop-clear_bits :
    (rounds i count : ℕ) (b : BitMap)
    → i + rounds ≤ b.num_bits
    → num_clear_loop rounds i count b ≡ some (count + clear_bits b rounds i)
unfolding num_clear_loop clear_bits
num_clear_loop-clear_bits zero i count b h = ground arith
num_clear_loop-clear_bits (suc rounds) i count b h = rw (test-is_set b i (omega arith)) (
    ground
      (arith, num_clear_loop-clear_bits rounds (i + 1) (if is_set b i then count else count + 1) b))

-- `NumClear` never stops, and answers the number of clear bits.
pub num_clear-free_bits : (b : BitMap) → num_clear b ≡ some (free_bits b)
unfolding num_clear
num_clear-free_bits b = ground (arith, num_clear_loop-clear_bits b.num_bits 0 0 b)

pub clear_bits-same :
    (b c : BitMap) (rounds i : ℕ)
    → ((j : ℕ) → i ≤ j → j < i + rounds → is_set c j ≡ is_set b j)
    → clear_bits c rounds i ≡ clear_bits b rounds i
unfolding clear_bits
clear_bits-same b c zero i h = refl
clear_bits-same b c (suc rounds) i h = ground (
  arith,
  h i (omega arith) (omega arith),
  clear_bits-same b c rounds (i + 1) (λ j le lt. h j (omega arith) (omega arith)),
)

clear_bits-flip :
    (b c : BitMap) (k rounds i : ℕ)
    → i ≤ k
    → k < i + rounds
    → is_set b k ≡ false
    → is_set c k ≡ true
    → ((j : ℕ) → j ≢ k → is_set c j ≡ is_set b j)
    → clear_bits b rounds i ≡ clear_bits c rounds i + 1
unfolding clear_bits
clear_bits-flip b c k zero i le lt clear set same = absurd (omega arith)
clear_bits-flip b c k (suc rounds) i le lt clear set same = elim (Bool-cases (i == k)) [
  | inl e ↦
      let at : i ≡ k = ground arith in
      let rest = clear_bits-same b c rounds (i + 1) λ j le' lt'. same j (omega arith) in
      ground (arith, rest)
  | inr ne ↦
      let at : i ≢ k = ground arith in
      ground (
        arith,
        same i at,
        clear_bits-flip b c k rounds (i + 1) (omega arith) (omega arith) clear set same,
      )
]

-- Marking a clear bit takes one from the count.
pub free_bits-marked :
    (b : BitMap) (k : ℕ)
    → k < b.num_bits
    → is_set b k ≡ false
    → free_bits b ≡ free_bits (marked b k) + 1
unfolding marked
free_bits-marked b k lt clear =
    clear_bits-flip b (marked b k) k b.num_bits 0 (omega arith) (omega arith) clear
      (ground (arith, is_set-marked b k k)) λ j ne. ground (arith, is_set-marked b k j)

-- Clearing a bit in use gives one back.
pub free_bits-cleared :
    (b : BitMap) (k : ℕ)
    → k < b.num_bits
    → is_set b k ≡ true
    → free_bits (cleared b k) ≡ free_bits b + 1
unfolding cleared
free_bits-cleared b k lt set =
    clear_bits-flip (cleared b k) b k b.num_bits 0 (omega arith) (omega arith)
      (ground (arith, is_set-cleared b k k)) set λ j ne. ground (arith, is_set-cleared b k j)

clear_bits-none :
    (b : BitMap) (rounds i : ℕ)
    → ((j : ℕ) → i ≤ j → j < i + rounds → is_set b j ≡ true)
    → clear_bits b rounds i ≡ 0
unfolding clear_bits
clear_bits-none b zero i h = refl
clear_bits-none b (suc rounds) i h = ground (
  arith,
  h i (omega arith) (omega arith),
  clear_bits-none b rounds (i + 1) (λ j le lt. h j (omega arith) (omega arith)),
)

clear_bits-pos :
    (b : BitMap) (k rounds i : ℕ)
    → i ≤ k
    → k < i + rounds
    → is_set b k ≡ false
    → 0 < clear_bits b rounds i
unfolding clear_bits
clear_bits-pos b k zero i le lt clear = absurd (omega arith)
clear_bits-pos b k (suc rounds) i le lt clear = elim (Bool-cases (i == k)) [
  | inl e ↦ let at : i ≡ k = ground arith in ground arith
  | inr ne ↦ ground (arith, clear_bits-pos b k rounds (i + 1) (ground arith) (omega arith) clear)
]

-- What `Find` answers, by the count of clear bits.
pub data Taken (b : BitMap) : Option ℕ × BitMap → Type 0 where
  nothing : free_bits b ≡ 0 → Taken b (none, b)
  slot :
      (k : ℕ)
      → k < b.num_bits
      → is_set b k ≡ false
      → free_bits b ≡ free_bits (marked b k) + 1
      → Taken b (some k, marked b k)

Found-Taken : (b : BitMap) {r : Option ℕ × BitMap} → Found b 0 r → Taken b r
Found-Taken b (full used) =
    nothing (clear_bits-none b b.num_bits 0 λ j le lt. used j le (omega arith))
Found-Taken b (free k le lt clear used) = slot k lt clear (free_bits-marked b k lt clear)

-- `Find` always answers. With a bit free it hands out a clear one, in use afterwards, and the count of
-- clear bits falls by one; with none free it answers -1 and changes nothing.
pub find-Taken : (b : BitMap) → (r : Option ℕ × BitMap) × (find b ≡ some r) × Taken b r
find-Taken b = let (r, e, f) = find-Found b in (r, e, Found-Taken b f)

-- With a bit free `Find` marks one.
abbrev pub Marks : BitMap → ℕ → Type 0
Marks b k =
    (find b ≡ some (some k, marked b k))
    × (k < b.num_bits)
    × (is_set b k ≡ false)
    × (free_bits b ≡ free_bits (marked b k) + 1)

Taken-Marks :
    (b : BitMap) {r : Option ℕ × BitMap}
    → find b ≡ some r
    → Taken b r
    → 0 < free_bits b
    → (k : ℕ) × Marks b k
Taken-Marks b e (nothing zero_free) pos = absurd (omega arith)
Taken-Marks b e (slot k lt clear one) pos = (k, (e, lt, clear, one))

pub find-Marks : (b : BitMap) → 0 < free_bits b → (k : ℕ) × Marks b k
find-Marks b pos = let (r, e, t) = find-Taken b in Taken-Marks b e t pos

Taken-none :
    (b : BitMap) {r : Option ℕ × BitMap}
    → find b ≡ some r
    → Taken b r
    → free_bits b ≡ 0
    → find b ≡ some (none, b)
Taken-none b e (nothing zero_free) none_free = e
Taken-none b e (slot k lt clear one) none_free = absurd (omega arith)

-- With none free it answers -1.
pub find-none : (b : BitMap) → free_bits b ≡ 0 → find b ≡ some (none, b)
find-none b none_free = let (r, e, t) = find-Taken b in Taken-none b e t none_free
