-- ===== src/Filesys/FileSystem/Formatted.antt =====
-- What the disk holds between two operations of the file system.
use native.Mathlib.Omega.{arith}
use cop5614nachos.Base.{
  ℕ, zero, suc, ◌+◌, ◌/◌, ◌%◌, ◌^◌, ◌<◌, ◌≡◌, ◌≢◌, refl, ap, sym, ◌∙◌, true, some, Array, inl, inr,
  >>=-next, >>=-eq-some,
}
use cop5614nachos.Base.Text.{same_text}
use cop5614nachos.Bitmap.{BitMap, clear, clear_loop, bit_map}
use cop5614nachos.Bitmap.Bits.{is_set}
use cop5614nachos.Bitmap.Counting.{free_bits, clear_bits, clear_bits-same}
use cop5614nachos.Bitmap.Search.{bit_map-is_set}
use cop5614nachos.Filesys.Disk.{num_sectors}
use cop5614nachos.Filesys.FileHeader.{FileHeader, IsFile}
use cop5614nachos.Filesys.Directory.{Directory, directory, same_name, find}
use cop5614nachos.Filesys.Directory.Names.{
  same_name-sym, IsUnique, index-same, index-cases, find-none, find-some,
}
use cop5614nachos.Filesys.Image.Fetching.{
  SameEntry, stored_table, stored_words, fetch_map-stored, fetch_directory-stored,
}
use cop5614nachos.Filesys.Image.Words.{bit-mod}
use cop5614nachos.Filesys.FileSystem.{FileSystem, Fresh, fetched_directory, fetched_map}

-- The directory and the free map that the disk holds.
abbrev pub stored_directory : FileSystem → Directory
stored_directory fs = record { table_size = 10; table = stored_table fs.directory_file.hdr fs.disk }

abbrev pub stored_map : FileSystem → BitMap
stored_map fs = record {
  num_bits = num_sectors;
  num_words = 32;
  map = stored_words fs.free_map_file.hdr fs.disk;
}

-- The sectors of a file are in use.
abbrev pub Occupies : FileHeader → BitMap → Type 0
Occupies h b = (i : ℕ) → i < h.sectors → is_set b (h.data_sectors i) ≡ true

-- The two open files describe a file of the map's 128 bytes and one of the directory's 200 bytes,
-- which share no sector and occupy their sectors, and every entry in use names a sector of the disk
-- that is in use.
pub record IsFormatted (fs : FileSystem) : Type 0 where
  pub map_file : IsFile fs.free_map_file.hdr
  pub map_size : fs.free_map_file.hdr.num_bytes ≡ 128
  pub directory_file : IsFile fs.directory_file.hdr
  pub directory_size : fs.directory_file.hdr.num_bytes ≡ 200
  pub apart :
      (i j : ℕ)
      → i < fs.free_map_file.hdr.sectors
      → j < fs.directory_file.hdr.sectors
      → fs.free_map_file.hdr.data_sectors i ≢ fs.directory_file.hdr.data_sectors j
  pub map_used : Occupies fs.free_map_file.hdr (stored_map fs)
  pub directory_used : Occupies fs.directory_file.hdr (stored_map fs)
  pub entries :
      (i : ℕ)
      → i < 10
      → ((stored_directory fs).table i).in_use ≡ true
      → (((stored_directory fs).table i).sector < num_sectors)
        × (is_set (stored_map fs) ((stored_directory fs).table i).sector ≡ true)

-- Texts that agree are compared alike.
same_text-same :
    (n i : ℕ) (a b c : Array ℕ)
    → ((k : ℕ) → k < i + n → a k ≡ b k)
    → same_text n i a c ≡ same_text n i b c
unfolding same_text
same_text-same zero i a b c same = refl
same_text-same (suc n) i a b c same =
    ground
      (arith, same i (omega arith), same_text-same n (i + 1) a b c (λ k lt. same k (omega arith)))

same_name-same :
    (a b a' b' : Array ℕ)
    → ((k : ℕ) → k < 10 → a' k ≡ a k)
    → ((k : ℕ) → k < 10 → b' k ≡ b k)
    → same_name a' b' ≡ true
    → same_name a b ≡ true
same_name-same a b a' b' left right same =
    let one = sym (same_text-same 9 0 a' a b' (λ k lt. left k (omega arith))) ∙ same in
    let two =
      sym (same_text-same 9 0 b' b a (λ k lt. right k (omega arith))) ∙ same_name-sym a b' one in
    same_name-sym b a two

-- Directories of the same entries both have unique names or neither.
pub SameEntry-IsUnique :
    (d d' : Directory)
    → d'.table_size ≡ d.table_size
    → ((i : ℕ) → i < d'.table_size → SameEntry (d'.table i) (d.table i))
    → IsUnique d
    → IsUnique d'
SameEntry-IsUnique d d' size same u = record {
  unique = λ i j hi hj ui uj e.
      u.unique i j (omega (arith, size)) (omega (arith, size)) (sym (same i hi).in_use ∙ ui)
        (sym (same j hj).in_use ∙ uj)
        (same_name-same (d.table i).name (d.table j).name (d'.table i).name (d'.table j).name
          (same i hi).name (same j hj).name e);
}

-- Directories of the same entries find the same.
pub find-SameEntry :
    (d d' : Directory) (name : Array ℕ)
    → d'.table_size ≡ d.table_size
    → ((i : ℕ) → i < d.table_size → SameEntry (d'.table i) (d.table i))
    → find d' name ≡ find d name
find-SameEntry d d' name size same =
    let index = index-same d d' name size λ j lt. ground (
      arith,
      (same j lt).in_use,
      same_text-same 9 0 (d'.table j).name (d.table j).name name
          (λ k small. (same j lt).name k (omega arith)),
    ) in
    elim (index-cases d name) [
      | inl (e, out) ↦ find-none d' name (index ∙ e) ∙ sym (find-none d name e)
      | inr (k, e, f) ↦
          find-some d' name (index ∙ e)
          ∙ ap some ((same k (omega (arith, f.to))).sector (ground (arith, f.passes)))
          ∙ sym (find-some d name e)
    ]

-- A bitmap is seen through its words.
pub is_set-same :
    (b b' : BitMap) (s : ℕ) → b'.map (s / 32) ≡ b.map (s / 32) → is_set b' s ≡ is_set b s
unfolding is_set
is_set-same b b' s same = rw same refl

-- A word that was cut at 32 bits has the same digits.
pub is_set-words :
    (b b' : BitMap) (s : ℕ) → b'.map (s / 32) ≡ b.map (s / 32) % 2 ^ 32 → is_set b' s ≡ is_set b s
unfolding is_set
is_set-words b b' s same = rw (same, bit-mod 32 (s % 32) (b.map (s / 32)) (omega arith)) refl

clear_loop-num_words :
    (rounds i : ℕ) (b c : BitMap) → clear_loop rounds i b ≡ some c → c.num_words ≡ b.num_words
unfolding clear_loop clear
clear_loop-num_words zero i b c e = ground arith
clear_loop-num_words (suc rounds) i b c e =
    let (b', step, rest) = >>=-eq-some (clear b i) (λ b'. clear_loop rounds (i + 1) b') e in
    ground (arith, clear_loop-num_words rounds (i + 1) b' c rest)

abbrev pub fresh_map : Array ℕ → BitMap
fresh_map garbage = record { num_bits = num_sectors; num_words = 32; map = garbage }

pub bit_map-num_words :
    (garbage : Array ℕ) {b : BitMap} → bit_map num_sectors garbage ≡ some b → b.num_words ≡ 32
unfolding bit_map
bit_map-num_words garbage {b} e = clear_loop-num_words num_sectors 0 (fresh_map garbage) b e

module _ (fresh : Fresh) (fs : FileSystem) (formatted : IsFormatted fs) where
  -- What the operations see of the directory and of the free map.
  pub fetched_directory-stored :
      (d : Directory) × (fetched_directory fresh fs ≡ some d)
      × (d.table_size ≡ 10)
      × ((i : ℕ) → i < 10 → SameEntry (d.table i) ((stored_directory fs).table i))
  unfolding fetched_directory directory
  fetched_directory-stored =
      fetch_directory-stored fs.directory_file.hdr fs.disk formatted.directory_file
        (directory 10 fresh.entries) (fresh.garbage 0) fresh.padding formatted.directory_size
        (omega arith)

  pub fetched_map-stored :
      (b : BitMap) × (fetched_map fresh fs ≡ some b)
      × (b.num_bits ≡ num_sectors)
      × (b.num_words ≡ 32)
      × ((s : ℕ) → s < num_sectors → is_set b s ≡ is_set (stored_map fs) s)
      × (free_bits b ≡ free_bits (stored_map fs))
  unfolding fetched_map
  fetched_map-stored =
      let (b0, e0, bits, clean) = bit_map-is_set num_sectors fresh.words in
      let words = bit_map-num_words fresh.words e0 in
      let (b, e, same_bits, same_words, same) =
        fetch_map-stored fs.free_map_file.hdr fs.disk formatted.map_file b0 (fresh.garbage 1)
          (omega (arith, words, formatted.map_size)) (omega (arith, words)) in
      let sets : (s : ℕ) → s < num_sectors → is_set b s ≡ is_set (stored_map fs) s =
        λ s lt. is_set-same (stored_map fs) b s (same (s / 32) (omega (arith, words))) in
      let size : b.num_bits ≡ num_sectors = same_bits ∙ bits in
      (
        b,
        >>=-next _ e0 e,
        size,
        same_words ∙ words,
        sets,
        ap (λ n. clear_bits b n 0) size
            ∙ clear_bits-same (stored_map fs) b num_sectors 0 (λ j le lt. sets j (omega arith)),
      )
