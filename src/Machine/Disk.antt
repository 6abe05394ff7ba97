-- ===== src/Machine/Disk.antt =====
-- machine/disk.cc and disk.h: how long the simulated disk takes, and the UNIX file that holds its
-- contents. The time is the number of ticks since the start.
pub mod Latency
pub mod Sectors
use cop5614nachos.Base.{
  ℕ, ◌+◌, ◌-◌, ◌*◌, ◌/◌, ◌%◌, Bool, true, false, not, ◌&&◌, ltb, ◌==◌, if◌then◌else◌, Array, bcopy,
  Option, none, some, assert, ◌>>◌, ◌>>=◌,
}
use cop5614nachos.Machine.Memory.{load_word, store_word}
use cop5614nachos.Filesys.Disk.{sector_size}

abbrev pub sectors_per_track : ℕ
sectors_per_track = 32

abbrev pub num_tracks : ℕ
num_tracks = 32

abbrev pub rotation_time : ℕ
rotation_time = 500

abbrev pub seek_time : ℕ
seek_time = 500

-- The bytes of the magic number at the front of the UNIX file.
abbrev pub magic_size : ℕ
magic_size = 4

pub record Disk : Type 0 where
  pub file : Array ℕ
  pub last_sector : ℕ
  pub buffer_init : ℕ
  pub active : Bool

abbrev pub magic_number : ℕ
magic_number = 0x4567_89ab

abbrev pub opened : Array ℕ → Disk
opened file = record { file = file; last_sector = 0; buffer_init = 0; active = false }

-- A UNIX file that did not exist: the magic number, and at the end the zeros that make the file as
-- long as the disk; what was never written reads as zeros.
abbrev pub created_file : Array ℕ
created_file = store_word (λ j. 0) 0 magic_number

-- `none` for a file that does not exist; one without the magic number fails the `ASSERT`.
unfoldable pub disk : Option (Array ℕ) → Option Disk
disk none = some (opened created_file)
disk (some file) = do assert (load_word file 0 == magic_number); some (opened file)

-- The seek time, and the time until the next sector boundary after it.
unfoldable pub time_to_seek : Disk → ℕ → ℕ → ℕ × ℕ
time_to_seek d now new_sector =
    let new_track = new_sector / sectors_per_track in
    let old_track = d.last_sector / sectors_per_track in
    let seek = ((new_track - old_track) + (old_track - new_track)) * seek_time in
    let over = (now + seek) % rotation_time in
    (seek, if ltb 0 over then rotation_time - over else 0)

unfoldable pub modulo_diff : ℕ → ℕ → ℕ
modulo_diff to from =
    let to_offset = to % sectors_per_track in
    let from_offset = from % sectors_per_track in
    (to_offset + sectors_per_track - from_offset) % sectors_per_track

-- Before the track was read, `timeAfter - bufferInit` would be negative and the test fails, as it
-- does here.
unfoldable pub compute_latency : Disk → ℕ → ℕ → Bool → ℕ
unfolding time_to_seek modulo_diff
compute_latency d now new_sector writing =
    let (seek, rotation) = time_to_seek d now new_sector in
    let time_after = now + seek + rotation in
    if not writing
      && seek == 0
      && ltb (modulo_diff new_sector (d.buffer_init / rotation_time))
          ((time_after - d.buffer_init) / rotation_time)
    then rotation_time
    else seek
      + (rotation + modulo_diff new_sector (time_after / rotation_time) * rotation_time)
      + rotation_time

unfoldable pub update_last : Disk → ℕ → ℕ → Disk
unfolding time_to_seek
update_last d now new_sector =
    let (seek, rotate) = time_to_seek d now new_sector in
    record d {
      buffer_init = if seek == 0 then d.buffer_init else now + seek + rotate;
      last_sector = new_sector;
    }

-- Where a sector begins in the UNIX file.
abbrev pub sector_start : ℕ → ℕ
sector_start sector = sector_size * sector + magic_size

-- `Lseek` and `Read`, `Lseek` and `WriteFile`.
unfoldable pub load_sector : Disk → ℕ → Array ℕ → Array ℕ
load_sector d sector buffer = bcopy d.file (sector_start sector) buffer 0 sector_size

unfoldable pub save_sector : Disk → ℕ → Array ℕ → Disk
save_sector d sector buffer = record d {
  file = bcopy buffer 0 d.file (sector_start sector) sector_size;
}
