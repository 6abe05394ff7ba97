-- ===== src/Filesys/OpenFile/Position.antt =====
-- `Seek`, `Read`, `Write` and `Length` of filesys/openfile.cc: an open file with its position.
use cop5614nachos.Base.{ℕ, ◌+◌, ◌<◌, ◌≤◌, ◌≡◌, refl, Option, some, Array, arith, ◌>>=◌}
use cop5614nachos.Filesys.Disk.{Disk}
use cop5614nachos.Filesys.FileHeader.{FileHeader, file_length, IsFile}
use cop5614nachos.Filesys.OpenFile.{clip, read_at, write_at}
use cop5614nachos.Filesys.OpenFile.RoundTrip.{read_at-write_at}

pub record OpenFile : Type 0 where
  pub hdr : FileHeader
  pub seek_position : ℕ

unfoldable pub seek : OpenFile → ℕ → OpenFile
seek f position = record f { seek_position = position }

-- The bytes read, `into` and the file afterwards.
unfoldable pub read : OpenFile → Disk → Array ℕ → Array ℕ → ℕ → ℕ → Option (ℕ × Array ℕ × OpenFile)
read f disk garbage into at num_bytes = do
  (count, into') ← read_at f.hdr disk garbage into at num_bytes f.seek_position
  some (count, into', record f { seek_position = f.seek_position + count })

-- The bytes written, the disk and the file afterwards.
unfoldable pub write :
    OpenFile → Disk → Array (Array ℕ) → Array ℕ → ℕ → Option (ℕ × Disk × OpenFile)
write f disk garbage from num_bytes = do
  (count, disk') ← write_at f.hdr disk garbage from num_bytes f.seek_position
  some (count, disk', record f { seek_position = f.seek_position + count })

unfoldable pub length : OpenFile → ℕ
length f = file_length f.hdr

-- For a header that describes a file, a `Write` of some bytes at a position inside the file, then
-- a `Seek` back and a `Read` of as many: both move the same number of bytes, the bytes read are
-- the bytes written, and the position ends where the `Write` left it, inside the file or at its
-- end.
pub read-seek-write :
    (f : OpenFile) (disk : Disk) (garbage : Array (Array ℕ)) (garbage' into from : Array ℕ)
    (num_bytes : ℕ)
    → IsFile f.hdr
    → 0 < num_bytes
    → f.seek_position < length f
    → (count : ℕ) × (disk' : Disk) × (into' : Array ℕ) × (f' : OpenFile) × (write f disk garbage
          from num_bytes
        ≡ some (count, disk', f'))
      × (read (seek f' f.seek_position) disk' garbage' into 0 num_bytes ≡ some (count, into', f'))
      × ((x : ℕ) → x < count → into' x ≡ from x)
      × (f'.seek_position ≡ f.seek_position + count)
      × (f'.seek_position ≤ length f)
unfolding read write seek length
read-seek-write f disk garbage garbage' into from num_bytes file pos inside =
    let (disk', into', e, e', same) =
      read_at-write_at f.hdr file disk garbage garbage' into from num_bytes f.seek_position pos
        inside in
    (
      clip f.hdr num_bytes f.seek_position,
      disk',
      into',
      record f { seek_position = f.seek_position + clip f.hdr num_bytes f.seek_position },
      rw e refl,
      rw e' refl,
      same,
      refl,
      ground arith,
    )
