-- ===== src/Filesys/FileSystem/Opening.antt =====
-- `Open` after `Create`, and the names that are refused.
use cop5614nachos.Base.{
  ℕ, ◌+◌, ◌*◌, ◌<◌, ◌≤◌, ◌≡◌, ◌≢◌, ◌⊎◌, refl, ap, subst, ◌∙◌, Bool, true, false, not, none, some,
  inl, inr, arith, ltb, lt→ltb, ltb→lt, ◌==◌, if_true, if_false, Array, >>=-next, Option-cases,
  Bool-cases,
}
use cop5614nachos.Utility.{div_round_up}
use cop5614nachos.Bitmap.{BitMap}
use cop5614nachos.Bitmap.Bits.{is_set, marked}
use cop5614nachos.Bitmap.Counting.{free_bits, find-Marks}
use cop5614nachos.Bitmap.Counting.{find-none as find-none_free}
use cop5614nachos.Filesys.Disk.{num_sectors, sector_size}
use cop5614nachos.Filesys.FileHeader.{FileHeader, IsFile, num_direct}
use cop5614nachos.Filesys.FileHeader.Allocation.{allocate-full}
use cop5614nachos.Filesys.Directory.{Directory, same_name, find, add}
use cop5614nachos.Filesys.Directory.Names.{index-cases, find-none, find-some, same_name_self}
use cop5614nachos.Filesys.Directory.Adding.{add-false, add-cases}
use cop5614nachos.Filesys.OpenFile.Position.{OpenFile}
use cop5614nachos.Filesys.Image.{fetch_header}
use cop5614nachos.Filesys.FileSystem.{
  FileSystem, Fresh, minus_one, int_of, open_file, fetched_map, create_in, create, open_name,
}
use cop5614nachos.Filesys.FileSystem.Formatted.{
  IsFormatted, stored_directory, stored_map, find-SameEntry, fetched_directory-stored,
  fetched_map-stored,
}
use cop5614nachos.Filesys.FileSystem.Creating.{create-Created}

none_left : (n : ℕ) → ltb 0 n ≡ false → n ≡ 0
none_left n h = ground arith

two_answers : {r : Bool × Directory} {d d' : Directory} → r ≡ (false, d) → r ≢ (true, d')
two_answers e e' = cc

-- A name that is found names a sector of the disk.
pub find-on_disk :
    (fs : FileSystem) (name : Array ℕ) {s : ℕ}
    → IsFormatted fs
    → find (stored_directory fs) name ≡ some s
    → (s < num_sectors) × (is_set (stored_map fs) s ≡ true)
find-on_disk fs name {s} formatted found = elim (index-cases (stored_directory fs) name) [
  | inl (e, out) ↦ ground (arith, find-none (stored_directory fs) name e)
  | inr (k, e, f) ↦
      let at = find-some (stored_directory fs) name e in
      let here : ((stored_directory fs).table k).sector ≡ s = ground (arith, at, found) in
      let both = formatted.entries k (omega (arith, f.to)) (ground (arith, f.passes)) in
      subst (λ t. (t < num_sectors) × (is_set (stored_map fs) t ≡ true)) here both
]

module _ (fresh : Fresh) (fs : FileSystem) (formatted : IsFormatted fs) (name : Array ℕ) where
  -- `Open` of a name that is not there returns NULL.
  pub open_name-missing :
      find (stored_directory fs) name ≡ none → open_name fresh name fs ≡ some none
  unfolding open_name
  open_name-missing absent =
      let (d, de, dsize, dsame) = fetched_directory-stored fresh fs formatted in
      let seen = find-SameEntry (stored_directory fs) d name dsize dsame ∙ absent in
      >>=-next _ de (if_true _ _ (ap (λ o. not (ltb (int_of o) 0x8000_0000)) seen))

  -- `Open` of a name that is there reads the header from its sector.
  pub open_name-found :
      {s : ℕ} {h : FileHeader}
      → find (stored_directory fs) name ≡ some s
      → fetch_header s fs.disk (fresh.garbage 1) ≡ some h
      → open_name fresh name fs ≡ some (some (record { hdr = h; seek_position = 0 }))
  unfolding open_name open_file
  open_name-found {s} {h} found header =
      let (d, de, dsize, dsame) = fetched_directory-stored fresh fs formatted in
      let seen = find-SameEntry (stored_directory fs) d name dsize dsame ∙ found in
      let valid : ltb s 0x8000_0000 ≡ true =
        lt→ltb s 0x8000_0000 (omega (arith, (find-on_disk fs name formatted found).0)) in
      >>=-next _ de (
        if_false _ _ (ap (λ o. not (ltb (int_of o) 0x8000_0000)) seen ∙ ap not valid)
        ∙ >>=-next _
            (ap (λ o. open_file (int_of o) fs.disk (fresh.garbage 1)) seen ∙ >>=-next _ header refl)
            refl)

-- On a formatted disk, with a name that is not there, an entry of the directory that is not in use,
-- free sectors for the header and the data, and a size that a header can hold: `Create` says TRUE,
-- and a later `Open` of the name returns a file of that size, at position 0, whose header describes
-- distinct sectors of the disk that were free before. Every other name finds what it found, the disk
-- is formatted again, and no sector that was in use changes, but for those that hold the directory
-- and the free map.
pub open_name-create :
    (fresh fresh' : Fresh) (fs : FileSystem) (name : Array ℕ) (size i : ℕ)
    → IsFormatted fs
    → find (stored_directory fs) name ≡ none
    → i < 10
    → ((stored_directory fs).table i).in_use ≡ false
    → div_round_up size sector_size + 1 ≤ free_bits (stored_map fs)
    → size ≤ num_direct * sector_size
    → (fs' : FileSystem) × (f : OpenFile) × (create fresh name size fs ≡ some (true, fs'))
      × (open_name fresh' name fs' ≡ some (some f))
      × (f.hdr.num_bytes ≡ size)
      × (f.seek_position ≡ 0)
      × IsFile f.hdr
      × ((j : ℕ) → j < f.hdr.sectors → is_set (stored_map fs) (f.hdr.data_sectors j) ≡ false)
      × ((name' : Array ℕ)
          → same_name name name' ≡ false
          → find (stored_directory fs') name' ≡ find (stored_directory fs) name')
      × IsFormatted fs'
      × ((t : ℕ)
          → is_set (stored_map fs) t ≡ true
          → ((j : ℕ) → j < fs.directory_file.hdr.sectors → fs.directory_file.hdr.data_sectors j ≢ t)
          → ((j : ℕ) → j < fs.free_map_file.hdr.sectors → fs.free_map_file.hdr.data_sectors j ≢ t)
          → fs'.disk t ≡ fs.disk t)
open_name-create fresh fresh' fs name size i formatted absent slot unused room small =
    let (fs', k, e, c) =
      create-Created fresh fs formatted name size i absent slot unused room small in
    let found : find (stored_directory fs') name ≡ some k =
      c.found name ∙ if_true _ _ (same_name_self name) in
    let (h, fetched, file, bytes, fresh_sectors, apart, used, rest) = c.header (fresh'.garbage 1) in
    (
      fs',
      record { hdr = h; seek_position = 0 },
      e,
      open_name-found fresh' fs' c.formatted name found fetched,
      bytes,
      refl,
      file,
      fresh_sectors,
      λ name' other. c.found name' ∙ if_false _ _ other,
      c.formatted,
      λ t used not_dir not_map.
          c.others t
            (λ same. ground (arith, used, c.was_free, ap (λ x. is_set (stored_map fs) x) same))
            not_dir not_map,
    )

module _ (fresh : Fresh) (fs : FileSystem) (formatted : IsFormatted fs) (name : Array ℕ)
    (size : ℕ) where
  create_there :
      {s : ℕ}
      → find (stored_directory fs) name ≡ some s
      → create fresh name size fs ≡ some (false, fs)
  unfolding create
  create_there {s} found =
      let (d, de, dsize, dsame) = fetched_directory-stored fresh fs formatted in
      let seen = find-SameEntry (stored_directory fs) d name dsize dsame ∙ found in
      let real : (s == minus_one) ≡ false =
        ground (arith, (find-on_disk fs name formatted found).0) in
      >>=-next _ de (if_true _ _ (ap (λ o. not (int_of o == minus_one)) seen ∙ ap not real))

  -- The rest of `Create` with a directory where the name cannot go, or with too few free sectors.
  create_in_refused :
      (d : Directory) (b : BitMap)
      → fetched_map fresh fs ≡ some b
      → ((s : ℕ) → add d name s ≡ (false, d)) ⊎ (free_bits b < div_round_up size sector_size + 1)
      → create_in fresh d name size fs ≡ some (false, fs)
  unfolding create_in
  create_in_refused d b be why = elim (Bool-cases (ltb 0 (free_bits b))) [
    | inr none_free ↦
        >>=-next _ be (>>=-next _ (find-none_free b (none_left (free_bits b) none_free)) refl)
    | inl some_free ↦
        let (k, (found, kbits, kfree, kcount)) = find-Marks b (ltb→lt 0 (free_bits b) some_free) in
        elim (add-cases d name k) [
          | inl refused ↦ >>=-next _ be (>>=-next _ found (rw refused refl))
          | inr (d', entered) ↦ elim why [
            | inl never ↦ absurd (two_answers (never k) entered)
            | inr few ↦
                let short =
                  allocate-full fresh.blank (marked b k) size (omega (arith, kcount, few)) in
                >>=-next _ be (>>=-next _ found (rw entered (>>=-next _ short refl)))
          ]
        ]
  ]

  -- `Create` says FALSE, and leaves the disk as it is, when the name is there, when no entry of the
  -- directory is free, and when the header and the data do not fit the free sectors.
  pub create_refused :
      (find (stored_directory fs) name ≢ none)
        ⊎ ((j : ℕ) → j < 10 → ((stored_directory fs).table j).in_use ≡ true)
        ⊎ (free_bits (stored_map fs) < div_round_up size sector_size + 1)
      → create fresh name size fs ≡ some (false, fs)
  unfolding create
  create_refused why = elim (Option-cases (find (stored_directory fs) name)) [
    | inr (s, found) ↦ create_there found
    | inl absent ↦
        let (d, de, dsize, dsame) = fetched_directory-stored fresh fs formatted in
        let (b, be, bbits, bwords, bsame, bfree) = fetched_map-stored fresh fs formatted in
        let seen = find-SameEntry (stored_directory fs) d name dsize dsame ∙ absent in
        let step = ap (λ o. not (int_of o == minus_one)) seen in
        >>=-next _ de (
          if_false _ _ step
          ∙ create_in_refused d b be (elim why [
            | inl there ↦ absurd (there absent)
            | inr (inl full) ↦ inl λ s. (add-false d name s).1 (
                inr λ j lt. (dsame j (omega (arith, dsize))).in_use ∙ full j (omega (arith, dsize)))
            | inr (inr few) ↦ inr (omega (arith, few, bfree))
          ]))
  ]
