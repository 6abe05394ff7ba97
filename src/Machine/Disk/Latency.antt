-- ===== src/Machine/Disk/Latency.antt =====
-- When a request is done.
use cop5614nachos.Base.{
  ℕ, ◌+◌, ◌-◌, ◌*◌, ◌/◌, ◌%◌, ◌≤◌, ◌<◌, ◌≡◌, ◌⊎◌, refl, Bool, true, false, arith, inl, inr,
  Bool-cases, ltb, ◌==◌, ◌&&◌,
}
use cop5614nachos.Machine.Disk.{Disk, time_to_seek, modulo_diff, compute_latency}
use cop5614nachos.Filesys.Disk.{num_sectors}

-- After the seek and the wait, the head is at the start of a sector, in less than a sector's time.
pub time_to_seek-boundary :
    (d : Disk) (now sector : ℕ)
    → ((now + (time_to_seek d now sector).0 + (time_to_seek d now sector).1) % 500 ≡ 0)
      × ((time_to_seek d now sector).1 < 500)
unfolding time_to_seek
time_to_seek-boundary d now sector = ground arith

modulo_diff-lt : (to from : ℕ) → modulo_diff to from < 32
unfolding modulo_diff
modulo_diff-lt to from = omega arith

-- So many sectors on from `from` is the place of `to` on its track.
modulo_diff-lands : (to from : ℕ) → (from + modulo_diff to from) % 32 ≡ to % 32
unfolding modulo_diff
modulo_diff-lands to from = omega arith

time_to_seek-le :
    (d : Disk) (now sector : ℕ)
    → d.last_sector < num_sectors
    → sector < num_sectors
    → (time_to_seek d now sector).0 ≤ 31 * 500
unfolding time_to_seek
time_to_seek-le d now sector old new = omega arith

-- A request takes at least the time of one sector, and at most a seek over 31 tracks, the rest of a
-- sector, a turn of 31 sectors and the sector itself.
pub compute_latency-bounds :
    (d : Disk) (now sector : ℕ) (writing : Bool)
    → d.last_sector < num_sectors
    → sector < num_sectors
    → (500 ≤ compute_latency d now sector writing)
      × (compute_latency d now sector writing < 31 * 500 + 500 + 31 * 500 + 500)
unfolding compute_latency
compute_latency-bounds d now sector writing old new =
    let (at, short) = time_to_seek-boundary d now sector in
    let far = time_to_seek-le d now sector old new in
    let time_after = now + (time_to_seek d now sector).0 + (time_to_seek d now sector).1 in
    let turn = modulo_diff-lt sector (time_after / 500) in ground arith

-- A write is done at the moment when the head has passed over the sector: at the boundary after it.
-- Here the track holds 32 sectors, one for each 500 ticks.
pub compute_latency-lands :
    (d : Disk) (now sector : ℕ)
    → ((now + compute_latency d now sector true) % 500 ≡ 0)
      × ((now + compute_latency d now sector true) / 500 % 32 ≡ (sector + 1) % 32)
unfolding compute_latency
compute_latency-lands d now sector =
    let (at, short) = time_to_seek-boundary d now sector in
    let time_after = now + (time_to_seek d now sector).0 + (time_to_seek d now sector).1 in
    let place = modulo_diff-lands sector (time_after / 500) in omega arith

-- The test of the track buffer.
abbrev hit : Disk → ℕ → ℕ → Bool
hit d now sector =
    let (seek, rotation) = time_to_seek d now sector in
    seek == 0
    && ltb (modulo_diff sector (d.buffer_init / 500))
        ((now + seek + rotation - d.buffer_init) / 500)

-- A read takes the time of a write, or of one sector when the head stays on the track and the track
-- buffer holds the sector; it never takes longer than a write.
pub compute_latency-read :
    (d : Disk) (now sector : ℕ)
    → ((compute_latency d now sector false ≡ compute_latency d now sector true)
        ⊎ (compute_latency d now sector false ≡ 500))
      × (compute_latency d now sector false ≤ compute_latency d now sector true)
unfolding compute_latency
compute_latency-read d now sector =
    let (at, short) = time_to_seek-boundary d now sector in
    elim (Bool-cases (hit d now sector)) [
      | inl held ↦ (inr (rw held refl), rw held (omega arith))
      | inr missed ↦ (inl (rw missed refl), rw missed (omega arith))
    ]
