-- ===== src/Filesys/FileSystem/Removing.antt =====
-- `Remove`: what it frees, and that it undoes `Create`.
use cop5614nachos.Base.{
  ℕ, ◌+◌, ◌*◌, ◌/◌, ◌^◌, ◌≤◌, ◌<◌, ◌≡◌, ◌≢◌, refl, ap, sym, ◌∙◌, true, false, none, some, inl, inr,
  arith, ◌==◌, if◌then◌else◌, if_true, if_false, Array, Bool-cases, >>=-next, index_of,
}
use cop5614nachos.Utility.{div_round_up}
use cop5614nachos.Bitmap
use cop5614nachos.Bitmap.{BitMap}
use cop5614nachos.Bitmap.Bits.{is_set, cleared, is_set-cleared, num_words-cleared, clear-cleared}
use cop5614nachos.Bitmap.Counting.{free_bits}
use cop5614nachos.Filesys.Disk.{num_sectors, sector_size}
use cop5614nachos.Filesys.FileHeader.{FileHeader, IsFile, num_direct, deallocate, file_byte}
use cop5614nachos.Filesys.FileHeader.Deallocation.{deallocate_loop-cleared}
use cop5614nachos.Filesys.Directory.{Directory, same_name, names, find_index, find}
use cop5614nachos.Base.Loops.{first-same}
use cop5614nachos.Filesys.Directory.Names.{
  IsUnique, same_name_self, same_name_trans, same_name-sym, index-cases, find-none, find-some,
}
use cop5614nachos.Filesys.Directory.Removing.{removed, remove-true, find-remove}
use cop5614nachos.Filesys.Image.{fetch_header}
use cop5614nachos.Filesys.Image.Fetching.{
  SameEntry, words_of-same, write_back_directory-stored, write_back_map-stored,
}
use cop5614nachos.Filesys.FileSystem.{FileSystem, Fresh, minus_one, int_of, create, remove_name}
use cop5614nachos.Filesys.FileSystem.Formatted.{
  IsFormatted, Occupies, stored_directory, stored_map, find-SameEntry, SameEntry-IsUnique,
  fetched_directory-stored, fetched_map-stored, is_set-words,
}
use cop5614nachos.Filesys.FileSystem.Flushing.{file_byte-same}
use cop5614nachos.Filesys.FileSystem.Creating.{create-Created}
use cop5614nachos.Filesys.FileSystem.Opening.{find-on_disk}

-- What `Remove` of a file with header `h` in `sector` leaves.
pub record Removed (name : Array ℕ) (h : FileHeader) (sector : ℕ) (fs fs' : FileSystem)
    : Type 0 where
  pub found :
      (name' : Array ℕ)
      → find (stored_directory fs') name'
        ≡ (if same_name name name' then none else find (stored_directory fs) name')
  pub freed : is_set (stored_map fs') sector ≡ false
  pub data_freed : (i : ℕ) → i < h.sectors → is_set (stored_map fs') (h.data_sectors i) ≡ false
  pub others :
      (s : ℕ)
      → s < num_sectors
      → s ≢ sector
      → ((i : ℕ) → i < h.sectors → h.data_sectors i ≢ s)
      → is_set (stored_map fs') s ≡ is_set (stored_map fs) s

-- Names that are the same to `strncmp` find the same.
find-same_name :
    (d : Directory) (name name' : Array ℕ)
    → same_name name name' ≡ true
    → find d name ≡ find d name'
unfolding find find_index
find-same_name d name name' same =
    let index : find_index d name ≡ find_index d name' =
      first-same d.table_size 0 (names d name) (names d name') (λ j le lt. ground (
        arith,
        same_name_trans name name' (d.table j).name,
        same_name-sym name (d.table j).name,
        same_name-sym name' (d.table j).name,
        same_name-sym (d.table j).name name,
        same_name-sym (d.table j).name name',
      )) in
    elim (index-cases d name) [
      | inl (e, out) ↦ find-none d name e ∙ sym (find-none d name' (sym index ∙ e))
      | inr (k, e, f) ↦ find-some d name e ∙ sym (find-some d name' (sym index ∙ e))
    ]

not_minus_one : (s : ℕ) → s < num_sectors → (s == minus_one) ≡ false
not_minus_one s lt = ground arith

-- The sectors of the entries that are left.
removed-small :
    (fs : FileSystem) (d : Directory) (k : ℕ)
    → IsFormatted fs
    → ((i : ℕ) → i < 10 → SameEntry (d.table i) ((stored_directory fs).table i))
    → (i : ℕ) → i < 10
    → ((removed d k).table i).in_use ≡ true
    → ((removed d k).table i).sector < 2 ^ 32
removed-small fs d k formatted same i lt held = elim (Bool-cases (i == k)) [
  | inl at ↦ absurd (ground arith)
  | inr other ↦
      let stored : ((stored_directory fs).table i).in_use ≡ true =
        ground (arith, (same i lt).in_use) in
      let small = (formatted.entries i lt stored).0 in
      let at = (same i lt).sector stored in rw other (omega (arith, small, at))
]

-- `Deallocate`, then `Clear` of the sector of the header.
released :
    (h : FileHeader) (b : BitMap) (sector : ℕ)
    → b.num_bits ≡ num_sectors
    → sector < num_sectors
    → IsFile h
    → Occupies h b
    → (b' : BitMap) × (deallocate h b ≡ some b')
      × (b'.num_bits ≡ num_sectors)
      × (b'.num_words ≡ b.num_words)
      × (is_set (cleared b' sector) sector ≡ false)
      × ((i : ℕ) → i < h.sectors → is_set (cleared b' sector) (h.data_sectors i) ≡ false)
      × ((s : ℕ)
          → s ≢ sector
          → ((i : ℕ) → i < h.sectors → h.data_sectors i ≢ s)
          → is_set (cleared b' sector) s ≡ is_set b s)
unfolding deallocate
released h b sector bits on_disk file used =
    let (b', e, size, words, gone, kept, others) =
      deallocate_loop-cleared h.sectors 0 h b
        (λ j le lt. omega (arith, bits, file.on_disk j (omega arith)))
        (λ j le lt. used j (omega arith))
        (λ j k le lt lt' same. omega (arith, file.distinct j k (omega arith) (omega arith) same))
        (omega (arith, file.direct)) in
    (
      b',
      e,
      size ∙ bits,
      words,
      ground (arith, is_set-cleared b' sector sector),
      λ i lt.
          ground (
            arith,
            gone i (omega arith) (omega arith),
            is_set-cleared b' sector (h.data_sectors i),
          ),
      λ s ne out.
          ground (arith, is_set-cleared b' sector s) ∙ others s (λ j le lt. out j (omega arith)),
    )

module _ (fresh : Fresh) (fs : FileSystem) (formatted : IsFormatted fs)
    (u : IsUnique (stored_directory fs)) (name : Array ℕ) where
  -- `Remove` of a name that is there, whose header describes a file on sectors in use.
  pub remove_name-Removed :
      (sector : ℕ) (h : FileHeader)
      → find (stored_directory fs) name ≡ some sector
      → fetch_header sector fs.disk (fresh.garbage 2) ≡ some h
      → IsFile h
      → Occupies h (stored_map fs)
      → (fs' : FileSystem) × (remove_name fresh name fs ≡ some (true, fs'))
        × Removed name h sector fs fs'
  unfolding remove_name
  remove_name-Removed sector h there header file used =
      let dir = fs.directory_file.hdr in
      let mp = fs.free_map_file.hdr in
      let (d, de, dsize, dsame) = fetched_directory-stored fresh fs formatted in
      let (b, be, bbits, bwords, bsame, bfree) = fetched_map-stored fresh fs formatted in
      let seen : find d name ≡ some sector =
        find-SameEntry (stored_directory fs) d name dsize dsame ∙ there in
      let on_disk : sector < num_sectors = (find-on_disk fs name formatted there).0 in
      let unique =
        SameEntry-IsUnique (stored_directory fs) d dsize (λ i lt. dsame i (omega (arith, dsize)))
          u in
      let (b', be', bits', words', gone, data_gone, rest) =
        released h b sector bbits on_disk file
          (λ i lt. bsame (h.data_sectors i) (file.on_disk i lt) ∙ used i lt) in
      let (k, entered) = remove-true d name seen in
      let (disk1, e1, words1, out1) =
        write_back_map-stored mp fs.disk formatted.map_file (cleared b' sector) fresh.garbage
          (omega (arith, num_words-cleared b' sector, words', bwords, formatted.map_size))
          (omega (arith, num_words-cleared b' sector, words', bwords)) in
      let (disk2, e2, table2, out2) =
        write_back_directory-stored dir disk1 formatted.directory_file (removed d k) fresh.garbage
          fresh.padding (omega (arith, dsize, formatted.directory_size)) (omega (arith, dsize))
          (λ i lt held. removed-small fs d k formatted dsame i (omega (arith, dsize)) held) in
      let fs' : FileSystem = record fs { disk = disk2 } in
      let bit : (s : ℕ)
          → s < num_sectors
          → is_set (stored_map fs') s ≡ is_set (cleared b' sector) s =
        λ s lt. is_set-words (cleared b' sector) (stored_map fs') s (
          words_of-same (file_byte mp disk2) (file_byte mp disk1) 32 (s / 32)
            (λ x lt'.
              file_byte-same mp disk1 disk2 x formatted.map_file
                (λ j small.
                  out2 (mp.data_sectors j)
                    (λ i lt'' same. formatted.apart j i small lt'' (sym same)))
                (omega (arith, formatted.map_size)))
            (omega arith)
          ∙ words1 (s / 32) (omega (arith, num_words-cleared b' sector, words', bwords))) in
      (
        fs',
        >>=-next _ de (
            if_false _ _ (ap (λ o. int_of o == minus_one) seen ∙ not_minus_one sector on_disk)
            ∙ >>=-next _ (ap (λ o. fetch_header (int_of o) fs.disk (fresh.garbage 2)) seen ∙ header)
                (>>=-next _ be (
                  >>=-next _ be' (
                    >>=-next _
                      (ap (λ o. Bitmap.clear b' (int_of o)) seen
                        ∙ clear-cleared b' sector (omega (arith, bits')))
                      (>>=-next _ e1 (rw entered (>>=-next _ e2 refl))))))),
        record {
          found = λ name'.
              find-SameEntry (removed d k) (stored_directory fs') name' (sym dsize)
                (λ i lt. table2 i lt)
              ∙ (find-remove d name unique entered).1 name'
              ∙ ap (λ o. if same_name name name' then none else o)
                  (find-SameEntry (stored_directory fs) d name' dsize dsame);
          freed = bit sector on_disk ∙ gone;
          data_freed = λ i lt. bit (h.data_sectors i) (file.on_disk i lt) ∙ data_gone i lt;
          others = λ s lt ne out. bit s lt ∙ rest s ne out ∙ bsame s lt;
        },
      )

-- On a formatted disk whose directory has no name twice, where `Create` of a name succeeds because it
-- is not there, an entry is not in use, the free sectors suffice and a header can hold the size:
-- `Remove` of the name then says TRUE, after it every name finds what it found before the `Create`,
-- and every sector is in use or free as it was before.
pub remove_name-create :
    (fresh fresh' : Fresh) (fs : FileSystem) (name : Array ℕ) (size i : ℕ)
    → IsFormatted fs
    → IsUnique (stored_directory fs)
    → find (stored_directory fs) name ≡ none
    → i < 10
    → ((stored_directory fs).table i).in_use ≡ false
    → div_round_up size sector_size + 1 ≤ free_bits (stored_map fs)
    → size ≤ num_direct * sector_size
    → (fs' fs'' : FileSystem) × (create fresh name size fs ≡ some (true, fs'))
      × (remove_name fresh' name fs' ≡ some (true, fs''))
      × ((name' : Array ℕ) → find (stored_directory fs'') name' ≡ find (stored_directory fs) name')
      × ((s : ℕ) → s < num_sectors → is_set (stored_map fs'') s ≡ is_set (stored_map fs) s)
remove_name-create fresh fresh' fs name size i formatted u absent slot unused room small =
    let (fs', k, e, c) =
      create-Created fresh fs formatted name size i absent slot unused room small in
    let there : find (stored_directory fs') name ≡ some k =
      c.found name ∙ if_true _ _ (same_name_self name) in
    let (h, fetched, file, bytes, was_free, apart, used, rest) = c.header (fresh'.garbage 2) in
    let (fs'', e', r) =
      remove_name-Removed fresh' fs' c.formatted (c.unique u) name k h there fetched file used in
    (
      fs',
      fs'',
      e,
      e',
      λ name'. r.found name' ∙ elim (Bool-cases (same_name name name')) [
        | inl same ↦
            if_true _ _ same ∙ sym absent ∙ find-same_name (stored_directory fs) name name' same
        | inr other ↦ if_false _ _ other ∙ c.found name' ∙ if_false _ _ other
      ],
      λ s lt. elim (Bool-cases (s == k)) [
        | inl at ↦ let same : s ≡ k = ground arith in rw same (r.freed ∙ sym c.was_free)
        | inr other ↦
            let ne : s ≢ k = ground arith in
            elim (index_of h.sectors 0 h.data_sectors s) [
              | inl (j, le, below, at) ↦
                  rw (← at) (r.data_freed j (omega arith) ∙ sym (was_free j (omega arith)))
              | inr out ↦
                  let out' : (j : ℕ) → j < h.sectors → h.data_sectors j ≢ s =
                    λ j below. out j (omega arith) (omega arith) in
                  r.others s lt ne out' ∙ rest s lt ne out'
            ]
      ],
    )
