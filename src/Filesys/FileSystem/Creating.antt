-- ===== src/Filesys/FileSystem/Creating.antt =====
-- `Create`: when it succeeds.
use cop5614nachos.Base.{
  ℕ, ◌+◌, ◌*◌, ◌≤◌, ◌<◌, ◌≡◌, ◌≢◌, refl, ap, sym, ◌∙◌, true, false, not, none, some, arith, ◌==◌,
  if_false, Array, >>=-next,
}
use cop5614nachos.Utility.{div_round_up}
use cop5614nachos.Bitmap
use cop5614nachos.Bitmap.{BitMap}
use cop5614nachos.Bitmap.Bits.{is_set, marked, num_words-marked}
use cop5614nachos.Bitmap.Counting.{free_bits, find-Marks}
use cop5614nachos.Filesys.Disk.{num_sectors, sector_size}
use cop5614nachos.Filesys.FileHeader.{FileHeader, num_direct, allocate}
use cop5614nachos.Filesys.FileHeader.Allocation.{allocate-Allocated}
use cop5614nachos.Filesys.Directory.{Directory, find, add}
use cop5614nachos.Filesys.Directory.Adding.{added, add-Added}
use cop5614nachos.Filesys.FileSystem.{
  FileSystem, Fresh, minus_one, int_of, find_sector, fetched_directory, fetched_map, flush_new,
  create_in, create,
}
use cop5614nachos.Filesys.FileSystem.Formatted.{
  IsFormatted, stored_directory, stored_map, find-SameEntry, fetched_directory-stored,
  fetched_map-stored,
}
use cop5614nachos.Filesys.FileSystem.Flushing.{flush_new-Flushed}
use cop5614nachos.Filesys.FileSystem.CreatedDisk.{flushed-Created}
use cop5614nachos.Filesys.FileSystem.Created.{Created, add-true, entries-added}

-- The calls of a `Create` that succeeds.
create-steps :
    (fresh : Fresh) (fs fs' : FileSystem) (name : Array ℕ) (size : ℕ) (d d' : Directory)
    (b b' b'' : BitMap) (k : ℕ) (hdr : FileHeader)
    → fetched_directory fresh fs ≡ some d
    → find d name ≡ none
    → fetched_map fresh fs ≡ some b
    → Bitmap.find b ≡ some (some k, b')
    → add d name k ≡ (true, d')
    → allocate fresh.blank b' size ≡ some (true, b'', hdr)
    → flush_new fresh hdr k d' b'' fs ≡ some fs'
    → create fresh name size fs ≡ some (true, fs')
unfolding create create_in
create-steps fresh fs fs' name size d d' b b' b'' k hdr de seen be found entered allocated flushed =
    let unseen : not (find_sector d name == minus_one) ≡ false =
      ap (λ o. not (int_of o == minus_one)) seen in
    >>=-next _ de (
      if_false _ _ unseen
      ∙ >>=-next _ be
          (>>=-next _ found (rw entered (>>=-next _ allocated (>>=-next _ flushed refl)))))

module _ (fresh : Fresh) (fs : FileSystem) (formatted : IsFormatted fs) (name : Array ℕ)
    (size : ℕ) where
  -- A name that is not there, an entry that is not in use, a sector for the header and enough for the
  -- data, and a size that the header can hold.
  pub create-Created :
      (i : ℕ)
      → find (stored_directory fs) name ≡ none
      → i < 10
      → ((stored_directory fs).table i).in_use ≡ false
      → div_round_up size sector_size + 1 ≤ free_bits (stored_map fs)
      → size ≤ num_direct * sector_size
      → (fs' : FileSystem) × (sector : ℕ) × (create fresh name size fs ≡ some (true, fs'))
        × Created name size fs fs' sector
  unfolding create create_in
  create-Created i absent slot unused room small =
      let (d, de, dsize, dsame) = fetched_directory-stored fresh fs formatted in
      let (b, be, bbits, bwords, bsame, bfree) = fetched_map-stored fresh fs formatted in
      let seen : find d name ≡ none =
        find-SameEntry (stored_directory fs) d name dsize dsame ∙ absent in
      let (k, (found, kbits, kfree, kcount)) = find-Marks b (omega (arith, bfree)) in
      let on_disk : k < num_sectors = omega (arith, bbits) in
      let (d', entered) =
        add-true d name k i seen (omega (arith, dsize)) ((dsame i slot).in_use ∙ unused) in
      let (at, place, shape) = add-Added d name k entered in
      let entered' : add d name k ≡ (true, added d name k at) =
        entered ∙ ap (λ t. (true, t)) shape in
      let (map', table, allocated, a) =
        allocate-Allocated fresh.blank (marked b k) size (omega (arith, bfree, kcount)) small in
      let hdr : FileHeader = record {
        num_bytes = size;
        sectors = div_round_up size sector_size;
        data_sectors = table;
      } in
      let was_free : is_set (stored_map fs) k ≡ false = sym (bsame k on_disk) ∙ kfree in
      let not_dir : (j : ℕ)
          → j < fs.directory_file.hdr.sectors
          → fs.directory_file.hdr.data_sectors j ≢ k =
        λ j lt e.
          ground (arith, formatted.directory_used j lt, ap (λ t. is_set (stored_map fs) t) e) in
      let not_map : (j : ℕ)
          → j < fs.free_map_file.hdr.sectors
          → fs.free_map_file.hdr.data_sectors j ≢ k =
        λ j lt e. ground (arith, formatted.map_used j lt, ap (λ t. is_set (stored_map fs) t) e) in
      let new_entries = entries-added fs d name k at dsame formatted on_disk in
      let (fs', flushed, f) =
        flush_new-Flushed fresh fs formatted hdr k (added d name k at) map' on_disk not_dir not_map
          dsize (λ j lt held. omega (arith, (new_entries j lt held).0))
          (a.words ∙ num_words-marked b k ∙ bwords) in
      (
        fs',
        k,
        create-steps fresh fs fs' name size d (added d name k at) b (marked b k) map' k hdr de seen
            be found entered' allocated flushed,
        flushed-Created fs formatted name size small d dsize dsame b bsame bbits k at on_disk kfree
            map' _ table a fs' f entered',
      )
