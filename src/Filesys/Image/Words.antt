-- ===== src/Filesys/Image/Words.antt =====
-- Words and entries that are written are read back.
use native.Mathlib.Nat.{pow-suc, mul_comm}
use cop5614nachos.Base.Bits.Masks.{mod-double}
use cop5614nachos.Base.{ℕ, zero, suc, ◌+◌, ◌*◌, ◌/◌, ◌%◌, ◌^◌, ◌<◌, ◌≡◌, arith, Array}
use cop5614nachos.Base.Bits.{bit}
use cop5614nachos.Filesys.Directory.{DirectoryEntry}
use cop5614nachos.Filesys.Image.{word_byte, bytes_of, words_of, entry_byte, table_bytes, table_of}

-- The bytes of a word make the word again, without what 32 bits do not hold.
pub words_of-bytes_of : (words : Array ℕ) (i : ℕ) → words_of (bytes_of words) i ≡ words i % 2 ^ 32
unfolding bytes_of word_byte
words_of-bytes_of words i =
    let place : (j : ℕ) → j < 4 → (4 * i + j) / 4 ≡ i = λ j lt. omega arith in
    let byte : (j : ℕ) → j < 4 → (4 * i + j) % 4 ≡ j = λ j lt. omega arith in ground arith

-- The digits below the `n`th are those of the word.
pub bit-mod : (n k w : ℕ) → k < n → bit (w % 2 ^ n) k ≡ bit w k
unfolding bit
bit-mod zero k w lt = elim lt [ ]
bit-mod (suc n) zero w lt =
    let double : 2 ^ suc n ≡ 2 * 2 ^ n = simp (pow-suc, mul_comm) in
    rw double (mod-double (2 ^ n) w).1
bit-mod (suc n) (suc k) w lt =
    let double : 2 ^ suc n ≡ 2 * 2 ^ n = simp (pow-suc, mul_comm) in
    rw (double, (mod-double (2 ^ n) w).0) (bit-mod n k (w / 2) (omega arith))

pub entry_of-table_bytes :
    (table : Array DirectoryEntry) (padding : Array ℕ) (i : ℕ)
    → ((table_of (table_bytes table padding) i).in_use ≡ (table i).in_use)
      × ((table_of (table_bytes table padding) i).sector ≡ (table i).sector % 2 ^ 32)
      × ((k : ℕ) → k < 10 → (table_of (table_bytes table padding) i).name k ≡ (table i).name k)
unfolding table_bytes entry_byte word_byte
entry_of-table_bytes table padding i =
    let place : (j : ℕ) → j < 20 → (20 * i + j) / 20 ≡ i = λ j lt. omega arith in
    let byte : (j : ℕ) → j < 20 → (20 * i + j) % 20 ≡ j = λ j lt. omega arith in
    (ground (arith), ground (arith), λ k lt. ground (arith, place (8 + k), byte (8 + k)))
