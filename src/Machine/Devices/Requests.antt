-- ===== src/Machine/Devices/Requests.antt =====
-- A request to the disk: what it transfers, when it is done, and that there is one at a time.
use cop5614nachos.Base.{
  ℕ, ◌+◌, ◌/◌, ◌%◌, ◌≤◌, ◌<◌, ◌≡◌, ◌⊎◌, inl, inr, Bool-cases, refl, ap, sym, subst, ◌∙◌, bcopy,
  true, false, none, some, arith, ltb, lt→ltb, Array,
}
use cop5614nachos.Filesys.Disk.{num_sectors}
use cop5614nachos.Machine.Disk.{
  Disk, compute_latency, update_last, load_sector, save_sector, sector_start,
}
use cop5614nachos.Machine.Disk.Latency.{compute_latency-bounds, compute_latency-lands}
use cop5614nachos.Machine.Interrupt.{disk_int, PendingInterrupt, insert_pending, schedule}
use cop5614nachos.Machine.Devices.{
  disk_done, Routine, System, busy_disk, read_request, write_request, handle_interrupt,
}

-- The interrupt at the end of a request.
abbrev pub completion : ℕ → PendingInterrupt Routine
completion when = record { handler = disk_done; arg = 0; when = when; type = disk_int }

-- `WriteRequest` on a sector of the disk, while none is under way and the head is over the disk: the
-- UNIX file has the bytes, the disk is busy, and one interrupt is added to the list, for the moment
-- when the head has passed over the sector, at most 32,000 ticks from now.
pub write_request-completes :
    (sector : ℕ) (buffer : Array ℕ) (s : System)
    → s.world.disk.active ≡ false
    → sector < num_sectors
    → s.world.disk.last_sector < num_sectors
    → (t : System) × (when : ℕ) × (write_request sector buffer s ≡ some t)
      × (t.pending ≡ insert_pending (completion when) s.pending)
      × (s.stats.total_ticks < when)
      × (when < s.stats.total_ticks + 32000)
      × (when % 500 ≡ 0)
      × (when / 500 % 32 ≡ (sector + 1) % 32)
      × (t.world.disk.file ≡ (save_sector s.world.disk sector buffer).file)
      × (t.world.disk.active ≡ true)
      × (t.world.disk.last_sector ≡ sector)
unfolding write_request schedule update_last save_sector
write_request-completes sector buffer s idle on_disk head =
    let now = s.stats.total_ticks in
    let disk = s.world.disk in
    let (least, most) = compute_latency-bounds disk now sector true head on_disk in
    let (boundary, place) = compute_latency-lands disk now sector in
    let latency = compute_latency disk now sector true in
    (
      record s {
        pending = insert_pending (completion (now + latency)) s.pending;
        stats = record (s.stats) { num_disk_writes = s.stats.num_disk_writes + 1 };
        world = record (s.world) { disk = busy_disk now sector (save_sector disk sector buffer) };
      },
      now + latency,
      simp (idle, lt→ltb sector num_sectors on_disk, lt→ltb 0 latency (omega arith)),
      refl,
      omega arith,
      omega arith,
      boundary,
      place,
      refl,
      refl,
      refl,
    )

-- While a request is under way, the next one fails its `ASSERT`, and so does a request for a sector
-- that the disk does not have.
pub request_refused :
    (sector : ℕ) (buffer : Array ℕ) (s : System)
    → (s.world.disk.active ≡ true) ⊎ (num_sectors ≤ sector)
    → (read_request sector buffer s ≡ none) × (write_request sector buffer s ≡ none)
unfolding read_request write_request
request_refused sector buffer s (inl busy) = (simp busy, simp busy)
request_refused sector buffer s (inr out) = elim (Bool-cases s.world.disk.active) [
  | inl busy ↦ (simp busy, simp busy)
  | inr idle ↦
      let far : ltb sector num_sectors ≡ false = ground arith in
      (simp (idle, far), simp (idle, far))
]

-- A read of an idle disk returns what the UNIX file holds.
pub read_request-loads :
    (sector : ℕ) (buffer : Array ℕ) (s : System)
    → s.world.disk.active ≡ false
    → sector < num_sectors
    → s.world.disk.last_sector < num_sectors
    → (u : System) × (read_request sector buffer s
        ≡ some (load_sector s.world.disk sector buffer, u))
unfolding read_request schedule update_last
read_request-loads sector buffer s idle on_disk head =
    let now = s.stats.total_ticks in
    let disk = s.world.disk in
    let (least, most) = compute_latency-bounds disk now sector false head on_disk in
    let latency = compute_latency disk now sector false in
    (
      record s {
        pending = insert_pending (completion (now + latency)) s.pending;
        stats = record (s.stats) { num_disk_reads = s.stats.num_disk_reads + 1 };
        world = record (s.world) { disk = busy_disk now sector disk };
      },
      simp (idle, lt→ltb sector num_sectors on_disk, lt→ltb 0 latency (omega arith)),
    )

load-save_inside :
    (d : Disk) (sector : ℕ) (written buffer : Array ℕ) (j : ℕ)
    → j < 128
    → load_sector (save_sector d sector written) sector buffer j ≡ written j
unfolding load_sector save_sector
load-save_inside d sector written buffer j lt = ground arith

load_outside :
    (d : Disk) (sector : ℕ) (buffer : Array ℕ) (j : ℕ)
    → 128 ≤ j
    → load_sector d sector buffer j ≡ buffer j
unfolding load_sector
load_outside d sector buffer j le = ground arith

-- Only the UNIX file matters.
load_sector-file :
    (d d' : Disk) (sector : ℕ) (buffer : Array ℕ) (j : ℕ)
    → d.file ≡ d'.file
    → load_sector d sector buffer j ≡ load_sector d' sector buffer j
unfolding load_sector
load_sector-file d d' sector buffer j same =
    ap (λ f. bcopy f (sector_start sector) buffer 0 128 j) same

-- A sector that is written, and read when the write is done, has the bytes that were written: the
-- handler that ends the write makes the disk ready for the read, which puts the 128 bytes into the
-- buffer and leaves what follows them alone.
pub read_request-write_request :
    (sector : ℕ) (written buffer : Array ℕ) (s : System)
    → s.world.disk.active ≡ false
    → sector < num_sectors
    → s.world.disk.last_sector < num_sectors
    → (t u : System) × (bytes : Array ℕ) × (write_request sector written s ≡ some t)
      × (read_request sector buffer (handle_interrupt t) ≡ some (bytes, u))
      × ((j : ℕ) → j < 128 → bytes j ≡ written j)
      × ((j : ℕ) → 128 ≤ j → bytes j ≡ buffer j)
unfolding handle_interrupt
read_request-write_request sector written buffer s idle on_disk head =
    let (t, when, e, _, _, _, _, _, file, busy, last) =
      write_request-completes sector written s idle on_disk head in
    let (u, e') =
      read_request-loads sector buffer (handle_interrupt t) refl on_disk
        (subst (λ l. l < num_sectors) (sym last) on_disk) in
    let ready = (handle_interrupt t).world.disk in
    (
      t,
      u,
      load_sector ready sector buffer,
      e,
      e',
      λ j lt.
          load_sector-file ready (save_sector s.world.disk sector written) sector buffer j file
          ∙ load-save_inside s.world.disk sector written buffer j lt,
      λ j le. load_outside ready sector buffer j le,
    )
