-- ===== src/Filesys/FileSystem/CreatedDisk.antt =====
-- The disk after the three flushes of a `Create`.
use cop5614nachos.Base.{
  ℕ, ◌*◌, ◌≤◌, ◌<◌, ◌≡◌, ◌≢◌, ap, sym, subst, ◌∙◌, true, false, some, inl, inr, arith,
  if◌then◌else◌, Array,
}
use cop5614nachos.Utility.{div_round_up}
use cop5614nachos.Bitmap.{BitMap}
use cop5614nachos.Bitmap.Bits.{is_set, marked, is_set-marked, num_bits-marked}
use cop5614nachos.Filesys.Disk.{num_sectors, sector_size}
use cop5614nachos.Filesys.FileHeader.{FileHeader, IsFile, num_direct}
use cop5614nachos.Filesys.FileHeader.Allocation.{Allocated, Allocated-IsFile}
use cop5614nachos.Filesys.Directory.{Directory, same_name, add}
use cop5614nachos.Filesys.Directory.Names.{IsUnique}
use cop5614nachos.Filesys.Directory.Unique.{add-IsUnique}
use cop5614nachos.Filesys.Directory.Adding.{added, find-add}
use cop5614nachos.Filesys.Image.{fetch_header}
use cop5614nachos.Filesys.Image.Fetching.{SameEntry}
use cop5614nachos.Filesys.FileSystem.{FileSystem}
use cop5614nachos.Filesys.FileSystem.Formatted.{
  IsFormatted, Occupies, stored_directory, stored_map, find-SameEntry, SameEntry-IsUnique,
}
use cop5614nachos.Filesys.FileSystem.Flushing.{Flushed}
use cop5614nachos.Filesys.FileSystem.Created.{Created, IsFile-same, entries-added}

-- What is on the disk when sector `k` was taken for the header and those of `table` for the data.
module _ (fs : FileSystem) (formatted : IsFormatted fs) (name : Array ℕ) (size : ℕ)
    (small : size ≤ num_direct * sector_size) (d : Directory) (dsize : d.table_size ≡ 10)
    (dsame : (j : ℕ) → j < 10 → SameEntry (d.table j) ((stored_directory fs).table j)) (b : BitMap)
    (bsame : (s : ℕ) → s < num_sectors → is_set b s ≡ is_set (stored_map fs) s)
    (bbits : b.num_bits ≡ num_sectors) (k at : ℕ) (on_disk : k < num_sectors)
    (kfree : is_set b k ≡ false) (map' : BitMap) (old table : Array ℕ)
    (a : Allocated (div_round_up size sector_size) 0 (marked b k) map' old table) where
  abbrev new_header : FileHeader
  new_header = record {
    num_bytes = size;
    sectors = div_round_up size sector_size;
    data_sectors = table;
  }

  still_set : (s : ℕ) → s < num_sectors → is_set (stored_map fs) s ≡ true → is_set map' s ≡ true
  still_set s lt used = a.kept s (ground (arith, bsame s lt, is_set-marked b k s))

  sector_set : is_set map' k ≡ true
  sector_set = a.kept k (ground (arith, is_set-marked b k k))

  new_header-IsFile : IsFile new_header
  new_header-IsFile =
      Allocated-IsFile (record { num_bytes = 0; sectors = 0; data_sectors = old }) (marked b k) map'
        size table (num_bits-marked b k ∙ bbits) small a

  module _ (fs' : FileSystem) (f : Flushed new_header k (added d name k at) map' fs fs') where
    kept_set :
        (s : ℕ)
        → s < num_sectors
        → is_set (stored_map fs) s ≡ true
        → is_set (stored_map fs') s ≡ true
    kept_set s lt used = f.map s lt ∙ still_set s lt used

    flushed-IsFormatted : IsFormatted fs'
    flushed-IsFormatted = record {
      map_file = subst (λ o. IsFile o.hdr) (sym f.same_map_file) formatted.map_file;
      map_size = ap (λ o. o.hdr.num_bytes) f.same_map_file ∙ formatted.map_size;
      directory_file =
          subst (λ o. IsFile o.hdr) (sym f.same_directory_file) formatted.directory_file;
      directory_size = ap (λ o. o.hdr.num_bytes) f.same_directory_file ∙ formatted.directory_size;
      apart =
          subst
            (λ o.
              (i j : ℕ)
              → i < o.hdr.sectors
              → j < fs'.directory_file.hdr.sectors
              → o.hdr.data_sectors i ≢ fs'.directory_file.hdr.data_sectors j)
            (sym f.same_map_file)
            (subst
              (λ o.
                (i j : ℕ)
                → i < fs.free_map_file.hdr.sectors
                → j < o.hdr.sectors
                → fs.free_map_file.hdr.data_sectors i ≢ o.hdr.data_sectors j)
              (sym f.same_directory_file) formatted.apart);
      map_used =
          subst (λ o. Occupies o.hdr (stored_map fs')) (sym f.same_map_file)
            λ i lt. kept_set _ (formatted.map_file.on_disk i lt) (formatted.map_used i lt);
      directory_used =
          subst (λ o. Occupies o.hdr (stored_map fs')) (sym f.same_directory_file)
            λ i lt.
              kept_set _ (formatted.directory_file.on_disk i lt) (formatted.directory_used i lt);
      entries = λ j lt held.
          let e = f.table j lt in
          let in_use = sym e.in_use ∙ held in
          let (small_one, which) =
            entries-added fs d name k at dsame formatted on_disk j lt in_use in
          subst (λ t. (t < num_sectors) × (is_set (stored_map fs') t ≡ true))
            (sym (e.sector in_use))
            (
              small_one,
              f.map _ small_one ∙ elim which [
                | inl new_one ↦ ap (λ t. is_set map' t) new_one ∙ sector_set
                | inr old_one ↦ still_set _ small_one old_one
              ],
            );
    }

    flushed-header :
        (garbage : Array ℕ)
        → (h : FileHeader) × (fetch_header k fs'.disk garbage ≡ some h)
          × IsFile h
          × (h.num_bytes ≡ size)
          × ((i : ℕ) → i < h.sectors → is_set (stored_map fs) (h.data_sectors i) ≡ false)
          × ((i : ℕ) → i < h.sectors → h.data_sectors i ≢ k)
          × ((i : ℕ) → i < h.sectors → is_set (stored_map fs') (h.data_sectors i) ≡ true)
          × ((s : ℕ)
              → s < num_sectors
              → s ≢ k
              → ((i : ℕ) → i < h.sectors → h.data_sectors i ≢ s)
              → is_set (stored_map fs') s ≡ is_set (stored_map fs) s)
    flushed-header garbage =
        let (h, e, bytes, sectors, same) = f.header garbage in
        let file = new_header-IsFile in
        let count : h.sectors ≡ div_round_up size sector_size = omega (arith, file.direct) in
        let at_i : (i : ℕ) → i < div_round_up size sector_size → h.data_sectors i ≡ table i =
          λ i lt. omega (arith, same i (omega (arith, file.direct)), file.on_disk i lt) in
        (
          h,
          e,
          IsFile-same new_header h (omega arith) count at_i file,
          omega arith,
          λ i lt.
              let lt' : i < div_round_up size sector_size = omega (arith, count) in
              ground (
                arith,
                ap (λ t. is_set (stored_map fs) t) (at_i i lt'),
                bsame (table i) (file.on_disk i lt'),
                is_set-marked b k (table i),
                a.was_free i (omega arith) (omega arith),
              ),
          λ i lt same_one.
              let lt' : i < div_round_up size sector_size = omega (arith, count) in
              ground (
                arith,
                at_i i lt',
                is_set-marked b k (table i),
                a.was_free i (omega arith) (omega arith),
              ),
          λ i lt.
              let lt' : i < div_round_up size sector_size = omega (arith, count) in
              ap (λ t. is_set (stored_map fs') t) (at_i i lt')
              ∙ f.map (table i) (file.on_disk i lt')
              ∙ a.now_used i (omega arith) (omega arith),
          λ s lt other out.
              let clear : is_set (marked b k) s ≡ is_set b s =
                ground (arith, is_set-marked b k s) in
              f.map s lt
              ∙ a.others s (λ j le lt'.
                subst (λ t. t ≢ s) (at_i j (omega arith)) (out j (omega (arith, count))))
              ∙ clear
              ∙ bsame s lt,
        )

    flushed-IsUnique :
        add d name k ≡ (true, added d name k at)
        → IsUnique (stored_directory fs)
        → IsUnique (stored_directory fs')
    flushed-IsUnique entered u =
        let before =
          SameEntry-IsUnique (stored_directory fs) d dsize (λ i lt. dsame i (omega (arith, dsize)))
            u in
        let after : IsUnique (added d name k at) =
          subst (λ r. IsUnique r.1) entered (add-IsUnique d name k before) in
        SameEntry-IsUnique (added d name k at) (stored_directory fs') (sym dsize) f.table after

    pub flushed-Created : add d name k ≡ (true, added d name k at) → Created name size fs fs' k
    flushed-Created entered = record {
      formatted = flushed-IsFormatted;
      on_disk = on_disk;
      was_free = sym (bsame k on_disk) ∙ kfree;
      found = λ name'.
          find-SameEntry (added d name k at) (stored_directory fs') name' (sym dsize)
            (λ i lt. f.table i (omega (arith, dsize)))
          ∙ (find-add d name k entered).1 name'
          ∙ ap (λ o. if same_name name name' then some k else o)
              (find-SameEntry (stored_directory fs) d name' dsize dsame);
      header = flushed-header;
      unique = flushed-IsUnique entered;
      kept = kept_set;
      others = f.others;
    }
