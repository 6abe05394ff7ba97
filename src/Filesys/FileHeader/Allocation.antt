-- ===== src/Filesys/FileHeader/Allocation.antt =====
-- What `FileHeader::Allocate` of filesys/filehdr.cc takes from the free map.
use cop5614nachos.Base.{
  lt→ltb, ℕ, zero, suc, ◌+◌, ◌*◌, ◌≤◌, ◌<◌, ◌≡◌, ◌≢◌, refl, sym, ◌∙◌, inl, inr, true, false, some,
  ltb, Array, update, arith, Bool-cases, ◌==◌, le-cases,
}
use cop5614nachos.Utility.{div_round_up}
use cop5614nachos.Bitmap
use cop5614nachos.Bitmap.{BitMap}
use cop5614nachos.Bitmap.Bits.{is_set, marked, is_set-marked, num_bits-marked, num_words-marked}
use cop5614nachos.Bitmap.Counting.{free_bits, find-Marks, num_clear-free_bits}
use cop5614nachos.Filesys.Disk.{sector_size, num_sectors}
use cop5614nachos.Filesys.FileHeader.{FileHeader, num_direct, allocate_loop, allocate, IsFile}

-- Positions `i` to `i + rounds` of the table were filled with distinct sectors that were free.
pub record Allocated (rounds i : ℕ) (map map' : BitMap) (table table' : Array ℕ) : Type 0 where
  pub size : map'.num_bits ≡ map.num_bits
  pub words : map'.num_words ≡ map.num_words
  pub before : (j : ℕ) → j < i → table' j ≡ table j
  pub on_map : (j : ℕ) → i ≤ j → j < i + rounds → table' j < map.num_bits
  pub was_free : (j : ℕ) → i ≤ j → j < i + rounds → is_set map (table' j) ≡ false
  pub now_used : (j : ℕ) → i ≤ j → j < i + rounds → is_set map' (table' j) ≡ true
  pub distinct : (j k : ℕ) → i ≤ j → j < k → k < i + rounds → table' j ≢ table' k
  pub others :
      (s : ℕ) → ((j : ℕ) → i ≤ j → j < i + rounds → table' j ≢ s) → is_set map' s ≡ is_set map s
  pub kept : (s : ℕ) → is_set map s ≡ true → is_set map' s ≡ true
  pub count : free_bits map ≡ free_bits map' + rounds

allocate_loop-step :
    (rounds i : ℕ) (map : BitMap) (table : Array ℕ) {k : ℕ} {map' : BitMap}
    → Bitmap.find map ≡ some (some k, map')
    → i < num_direct
    → allocate_loop (suc rounds) i map table ≡ allocate_loop rounds (i + 1) map' (update table i k)
unfolding allocate_loop
allocate_loop-step rounds i map table e lt = rw (e, lt→ltb i num_direct lt) refl

Allocated-suc :
    (rounds i k : ℕ) (map map' : BitMap) (table table' : Array ℕ)
    → k < map.num_bits
    → is_set map k ≡ false
    → free_bits map ≡ free_bits (marked map k) + 1
    → Allocated rounds (i + 1) (marked map k) map' (update table i k) table'
    → Allocated (suc rounds) i map map' table table'
Allocated-suc rounds i k map map' table table' lt clear one a =
    let here : table' i ≡ k = ground (arith, a.before i) in
    let same = num_bits-marked map k in
    let used : is_set map' k ≡ true = ground (arith, a.kept k, is_set-marked map k k) in
    record {
      size = omega (arith, a.size);
      words = a.words ∙ num_words-marked map k;
      before = λ j lt'. ground (arith, a.before j);
      on_map = λ j le lt'. elim (le-cases i j le) [
        | inl e ↦ rw (e, here) lt
        | inr next ↦ omega (arith, a.on_map j next (omega arith), same)
      ];
      was_free = λ j le lt'. elim (le-cases i j le) [
        | inl e ↦ rw (e, here) clear
        | inr next ↦ ground (arith, a.was_free j next (omega arith), is_set-marked map k (table' j))
      ];
      now_used = λ j le lt'. elim (le-cases i j le) [
        | inl e ↦ rw (e, here) used
        | inr next ↦ a.now_used j next (omega arith)
      ];
      distinct = λ j l le lt' ltk. elim (le-cases i j le) [
        | inl e ↦ λ eq.
            let first : table' l ≡ k = sym eq ∙ rw (e, here) refl in
            ground (arith, a.was_free l (omega arith) (omega arith), is_set-marked map k (table' l))
        | inr next ↦ a.distinct j l next lt' (omega arith)
      ];
      others = λ s out.
          let other : k ≢ s = λ e. out i (omega arith) (omega arith) (here ∙ e) in
          ground (
            arith,
            a.others s (λ j le lt'. out j (omega arith) (omega arith)),
            is_set-marked map k s,
          );
      kept = λ s set. a.kept s (ground (arith, is_set-marked map k s));
      count = omega (arith, one, a.count);
    }

-- With enough bits free and room in the table, the loop fills its part of the table.
pub allocate_loop-Allocated :
    (rounds i : ℕ) (map : BitMap) (table : Array ℕ)
    → rounds ≤ free_bits map
    → i + rounds ≤ num_direct
    → (map' : BitMap) × (table' : Array ℕ) × (allocate_loop rounds i map table
        ≡ some (map', table'))
      × Allocated rounds i map map' table table'
unfolding allocate_loop
allocate_loop-Allocated zero i map table h fits = (
  map,
  table,
  refl,
  record {
    size = refl;
    words = refl;
    before = λ j lt. refl;
    on_map = λ j le lt. absurd (omega arith);
    was_free = λ j le lt. absurd (omega arith);
    now_used = λ j le lt. absurd (omega arith);
    distinct = λ j k le lt lt'. absurd (omega arith);
    others = λ s out. refl;
    kept = λ s set. set;
    count = omega arith;
  },
)
allocate_loop-Allocated (suc rounds) i map table h fits =
    let (k, found) = find-Marks map (omega arith) in
    let (e, lt, clear, one) = found in
    let (map', table', e', a) =
      allocate_loop-Allocated rounds (i + 1) (marked map k) (update table i k) (omega arith)
        (omega arith) in
    (
      map',
      table',
      allocate_loop-step rounds i map table e (omega arith) ∙ e',
      Allocated-suc rounds i k map map' table table' lt clear one a,
    )

-- `Allocate` with enough free sectors and a size that the header can hold: it says TRUE, and the header holds distinct sectors that were
-- free, now in use, while every other sector of the map stays as it was.
pub allocate-Allocated :
    (h : FileHeader) (map : BitMap) (file_size : ℕ)
    → let wanted = div_round_up file_size sector_size in
      wanted ≤ free_bits map
      → file_size ≤ num_direct * sector_size
      → (map' : BitMap) × (table : Array ℕ) × (allocate h map file_size
          ≡ some (
            true,
            map',
            record h { num_bytes = file_size; sectors = wanted; data_sectors = table },
          ))
        × Allocated wanted 0 map map' h.data_sectors table
unfolding allocate
allocate-Allocated h map file_size enough small =
    let wanted = div_round_up file_size sector_size in
    let (map', table, e, a) =
      allocate_loop-Allocated wanted 0 map h.data_sectors enough (ground arith) in
    let test : ltb (free_bits map) wanted ≡ false = ground arith in
    (map', table, rw (num_clear-free_bits map, test, e) refl, a)

-- `Allocate` with too few free sectors says FALSE, leaves the map alone, and has set the sizes of
-- the header but none of its sectors.
pub allocate-full :
    (h : FileHeader) (map : BitMap) (file_size : ℕ)
    → free_bits map < div_round_up file_size sector_size
    → allocate h map file_size
      ≡ some (
        false,
        map,
        record h { num_bytes = file_size; sectors = div_round_up file_size sector_size },
      )
unfolding allocate
allocate-full h map file_size few =
    let test : ltb (free_bits map) (div_round_up file_size sector_size) ≡ true = ground arith in
    rw (num_clear-free_bits map, test) refl

-- On a map of the whole disk, and for a size that the table of the header can hold, the new header
-- describes a file.
pub Allocated-IsFile :
    (h : FileHeader) (map map' : BitMap) (file_size : ℕ) (table : Array ℕ)
    → map.num_bits ≡ num_sectors
    → file_size ≤ num_direct * sector_size
    → let wanted = div_round_up file_size sector_size in
      Allocated wanted 0 map map' h.data_sectors table
      → IsFile (record h { num_bytes = file_size; sectors = wanted; data_sectors = table })
Allocated-IsFile h map map' file_size table whole small a = record {
  room = ground arith;
  direct = ground arith;
  on_disk = λ i lt. omega (arith, a.on_map i (omega arith) (omega arith));
  distinct = λ i j hi hj same. elim (Bool-cases (i == j)) [
    | inl e ↦ ground arith
    | inr ne ↦ elim (Bool-cases (ltb i j)) [
      | inl lt ↦ absurd (a.distinct i j (omega arith) (ground arith) (omega arith) same)
      | inr ge ↦ absurd (a.distinct j i (omega arith) (ground arith) (omega arith) (sym same))
    ]
  ];
}
