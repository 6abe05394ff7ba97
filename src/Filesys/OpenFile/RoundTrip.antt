-- ===== src/Filesys/OpenFile/RoundTrip.antt =====
-- Reads after writes.
use cop5614nachos.Base.{ℕ, ◌+◌, ◌<◌, ◌≡◌, refl, true, some, arith, leb, ◌==◌, Array, ◌||◌}
use cop5614nachos.Filesys.Disk.{Disk}
use cop5614nachos.Filesys.FileHeader.{FileHeader, file_length, IsFile}
use cop5614nachos.Filesys.OpenFile.{clip, read_at, write_at}
use cop5614nachos.Filesys.OpenFile.Read.{read_at-file_byte}
use cop5614nachos.Filesys.OpenFile.Write.{write_at-overwritten}

module _ (h : FileHeader) (file : IsFile h) where
  -- For a header that describes a file, a write of some bytes at a position inside the file, then
  -- a read of the same range: both answer the clipped number of bytes, and the bytes read are the
  -- bytes written.
  pub read_at-write_at :
      (disk : Disk) (garbage : Array (Array ℕ)) (garbage' into from : Array ℕ)
      (num_bytes position : ℕ)
      → 0 < num_bytes
      → position < file_length h
      → (disk' : Disk) × (into' : Array ℕ) × (write_at h disk garbage from num_bytes position
          ≡ some (clip h num_bytes position, disk'))
        × (read_at h disk' garbage' into 0 num_bytes position
            ≡ some (clip h num_bytes position, into'))
        × ((x : ℕ) → x < clip h num_bytes position → into' x ≡ from x)
  read_at-write_at disk garbage garbage' into from num_bytes position pos inside =
      let (disk', e, f, out) =
        write_at-overwritten h file disk garbage from num_bytes position pos inside in
      let (into', e', f') =
        read_at-file_byte h disk' garbage' into 0 num_bytes position file pos inside in
      (disk', into', e, e', λ x lt. ground (arith, f (position + x), f' x))

-- A request for no bytes, or one at or past the end, moves nothing and answers 0.
pub read_at-write_at_nothing :
    (h : FileHeader) (disk : Disk) (garbage : Array (Array ℕ)) (buf : Array ℕ)
    (at num_bytes position : ℕ)
    → (num_bytes == 0 || leb (file_length h) position) ≡ true
    → (read_at h disk (garbage 0) buf at num_bytes position ≡ some (0, buf))
      × (write_at h disk garbage buf num_bytes position ≡ some (0, disk))
unfolding read_at write_at
read_at-write_at_nothing h disk garbage buf at num_bytes position outside =
    (rw outside refl, rw outside refl)
