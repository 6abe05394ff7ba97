-- ===== src/Bitmap/Search.antt =====
-- `Find` takes the first clear bit; the constructor clears every bit.
use cop5614nachos.Base.{
  ℕ, zero, suc, ◌+◌, ◌≤◌, ◌<◌, ◌≡◌, refl, inl, inr, true, false, Option, none, some, arith,
  Bool-cases, ◌==◌, Array,
}
use cop5614nachos.Bitmap.{BitMap, clear, find_loop, find, clear_loop, bit_map}
use cop5614nachos.Bitmap.Bits.{
  is_set, marked, cleared, mark-marked, clear-cleared, test-is_set, num_bits-cleared,
  is_set-cleared,
}

-- What a search from bit `i` finds: nothing, and then all bits from `i` on are in use, or the first
-- clear bit, which it marks.
pub data Found (b : BitMap) (i : ℕ) : Option ℕ × BitMap → Type 0 where
  full : ((j : ℕ) → i ≤ j → j < b.num_bits → is_set b j ≡ true) → Found b i (none, b)
  free :
      (k : ℕ)
      → i ≤ k
      → k < b.num_bits
      → is_set b k ≡ false
      → ((j : ℕ) → i ≤ j → j < k → is_set b j ≡ true)
      → Found b i (some k, marked b k)

abbrev pub Finds : BitMap → ℕ → Option (Option ℕ × BitMap) → Type 0
Finds b i r = (found : Option ℕ × BitMap) × (r ≡ some found) × Found b i found

Found-earlier :
    (b : BitMap) (i : ℕ) {r : Option ℕ × BitMap}
    → is_set b i ≡ true
    → Found b (i + 1) r
    → Found b i r
Found-earlier b i here (full used) = full λ j le lt. elim (Bool-cases (i == j)) [
  | inl e ↦ ground (arith, here)
  | inr ne ↦ used j (ground arith) lt
]
Found-earlier b i here (free k le lt clear used) = free k (omega arith) lt clear λ j le' lt'.
    elim (Bool-cases (i == j)) [ inl e ↦ ground (arith, here) | inr ne ↦ used j (ground arith) lt' ]

find_loop-Found :
    (rounds i : ℕ) (b : BitMap) → i + rounds ≡ b.num_bits → Finds b i (find_loop rounds i b)
unfolding find_loop
find_loop-Found zero i b h = ((none, b), refl, full λ j le lt. absurd (omega arith))
find_loop-Found (suc rounds) i b h = elim (Bool-cases (is_set b i)) [
  | inl used ↦
      let (r, e, f) = find_loop-Found rounds (i + 1) b (omega arith) in
      (r, rw (test-is_set b i (omega arith), used) e, Found-earlier b i used f)
  | inr unused ↦ (
    (some i, marked b i),
    rw (test-is_set b i (omega arith), unused, mark-marked b i (omega arith)) refl,
    free i (omega arith) (omega arith) unused λ j le lt. absurd (omega arith),
  )
]

-- `Find` always answers: the first clear bit, now marked, or -1 when every bit is in use.
pub find-Found : (b : BitMap) → Finds b 0 (find b)
unfolding find
find-Found b = find_loop-Found b.num_bits 0 b (omega arith)

clear_loop-is_set :
    (rounds i : ℕ) (b : BitMap)
    → i + rounds ≡ b.num_bits
    → (c : BitMap) × (clear_loop rounds i b ≡ some c)
      × (c.num_bits ≡ b.num_bits)
      × ((j : ℕ) → j < i → is_set c j ≡ is_set b j)
      × ((j : ℕ) → i ≤ j → j < b.num_bits → is_set c j ≡ false)
unfolding clear_loop
clear_loop-is_set zero i b h = (b, refl, refl, λ j lt. refl, λ j le lt. absurd (omega arith))
clear_loop-is_set (suc rounds) i b h =
    let same : (cleared b i).num_bits ≡ b.num_bits = num_bits-cleared b i in
    let (c, e, n, below, above) = clear_loop-is_set rounds (i + 1) (cleared b i) (omega arith) in
    (
      c,
      rw (clear-cleared b i (omega arith)) e,
      omega arith,
      λ j lt. ground (arith, below j (omega arith), is_set-cleared b i j),
      λ j le lt. elim (Bool-cases (j == i)) [
        | inl e' ↦ ground (arith, below j (ground arith), is_set-cleared b i j)
        | inr ne ↦ above j (ground arith) (omega arith)
      ],
    )

-- Whatever the new words held, a new bitmap has every bit clear.
pub bit_map-is_set :
    (nitems : ℕ) (garbage : Array ℕ)
    → (c : BitMap) × (bit_map nitems garbage ≡ some c)
      × (c.num_bits ≡ nitems)
      × ((j : ℕ) → j < nitems → is_set c j ≡ false)
unfolding bit_map
bit_map-is_set nitems garbage =
    let start : 0 + nitems ≡ nitems = omega arith in
    let (c, e, n, below, above) = clear_loop-is_set nitems 0 _ start in
    (c, e, n, λ j lt. above j (omega arith) lt)
