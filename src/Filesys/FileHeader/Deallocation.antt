-- ===== src/Filesys/FileHeader/Deallocation.antt =====
-- `FileHeader::Deallocate` of filesys/filehdr.cc gives back what `Allocate` took.
use cop5614nachos.Base.{
  lt→ltb, ◌*◌, ℕ, zero, suc, ◌+◌, ◌≤◌, ◌<◌, ◌≡◌, ◌≢◌, refl, sym, ◌∙◌, inl, inr, true, false, some,
  arith, le-cases, index_of,
}
use cop5614nachos.Utility.{div_round_up}
use cop5614nachos.Bitmap.{BitMap}
use cop5614nachos.Bitmap.Bits.{
  is_set, cleared, is_set-cleared, num_bits-cleared, num_words-cleared, test-is_set, clear-cleared,
}
use cop5614nachos.Bitmap.Counting.{free_bits}
use cop5614nachos.Filesys.Disk.{sector_size}
use cop5614nachos.Filesys.FileHeader.{FileHeader, num_direct, allocate, deallocate_loop, deallocate}
use cop5614nachos.Filesys.FileHeader.Allocation.{allocate-Allocated}

-- `Deallocate` clears the sectors of the table from `i` on, which must be in use and distinct.
pub deallocate_loop-cleared :
    (rounds i : ℕ) (h : FileHeader) (map : BitMap)
    → ((j : ℕ) → i ≤ j → j < i + rounds → h.data_sectors j < map.num_bits)
    → ((j : ℕ) → i ≤ j → j < i + rounds → is_set map (h.data_sectors j) ≡ true)
    → ((j k : ℕ) → i ≤ j → j < k → k < i + rounds → h.data_sectors j ≢ h.data_sectors k)
    → i + rounds ≤ num_direct
    → (map' : BitMap) × (deallocate_loop rounds i h map ≡ some map')
      × (map'.num_bits ≡ map.num_bits)
      × (map'.num_words ≡ map.num_words)
      × ((j : ℕ) → i ≤ j → j < i + rounds → is_set map' (h.data_sectors j) ≡ false)
      × ((s : ℕ) → is_set map s ≡ false → is_set map' s ≡ false)
      × ((s : ℕ)
          → ((j : ℕ) → i ≤ j → j < i + rounds → h.data_sectors j ≢ s)
          → is_set map' s ≡ is_set map s)
unfolding deallocate_loop
deallocate_loop-cleared zero i h map on used apart fits =
    (map, refl, refl, refl, λ j le lt. absurd (omega arith), λ s clear. clear, λ s out. refl)
deallocate_loop-cleared (suc rounds) i h map on used apart fits =
    let here = h.data_sectors i in
    let lt : here < map.num_bits = on i (omega arith) (omega arith) in
    let set : is_set map here ≡ true = used i (omega arith) (omega arith) in
    let next = cleared map here in
    let same : next.num_bits ≡ map.num_bits = num_bits-cleared map here in
    let (map', e, size, words, gone, kept, others) =
      deallocate_loop-cleared rounds (i + 1) h next
        (λ j le lt'. omega (arith, on j (omega arith) (omega arith)))
        (λ j le lt'.
          let ne = apart i j (omega arith) (omega arith) (omega arith) in
          ground
            (arith, used j (omega arith) (omega arith), is_set-cleared map here (h.data_sectors j)))
        (λ j k le lt' lk. apart j k (omega arith) lt' (omega arith)) (omega arith) in
    (
      map',
      rw
          (
            lt→ltb i num_direct (omega arith),
            test-is_set map here lt,
            set,
            clear-cleared map here lt,
          )
          e,
      omega arith,
      words ∙ num_words-cleared map here,
      λ j le lt'. elim (le-cases i j le) [
        | inl eq ↦ rw eq (ground (arith, kept here, is_set-cleared map here here))
        | inr later ↦ gone j later (omega arith)
      ],
      λ s clear. ground (arith, kept s, is_set-cleared map here s),
      λ s out.
          let ne = out i (omega arith) (omega arith) in
          ground (
            arith,
            others s (λ j le lt'. out j (omega arith) (omega arith)),
            is_set-cleared map here s,
          ),
    )

-- With enough free sectors and a size that a header can hold, `Allocate` succeeds, and deallocating the header that it filled gives
-- every sector back: the map has the size and the bits it had.
pub deallocate-allocate :
    (h : FileHeader) (map : BitMap) (file_size : ℕ)
    → let wanted = div_round_up file_size sector_size in
      wanted ≤ free_bits map
      → file_size ≤ num_direct * sector_size
      → (map' map'' : BitMap) × (h' : FileHeader) × (allocate h map file_size
          ≡ some (true, map', h'))
        × (deallocate h' map' ≡ some map'')
        × (map''.num_bits ≡ map.num_bits)
        × ((s : ℕ) → is_set map'' s ≡ is_set map s)
unfolding deallocate
deallocate-allocate h map file_size enough small =
    let wanted = div_round_up file_size sector_size in
    let (map', table, e, a) = allocate-Allocated h map file_size enough small in
    let h' : FileHeader = record h {
      num_bytes = file_size;
      sectors = wanted;
      data_sectors = table;
    } in
    let (map'', e', size, words, gone, kept, others) =
      deallocate_loop-cleared wanted 0 h' map' (λ j le lt. omega (arith, a.size, a.on_map j le lt))
        a.now_used a.distinct (ground arith) in
    let restored : (s : ℕ) → is_set map'' s ≡ is_set map s = λ s. elim (index_of wanted 0 table s) [
      | inl (j, le, lt, at) ↦ rw (← at) (gone j le lt ∙ sym (a.was_free j le lt))
      | inr out ↦ others s out ∙ a.others s out
    ] in
    (map', map'', h', e, e', omega (arith, a.size, size), restored)
