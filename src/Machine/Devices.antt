-- ===== src/Machine/Devices.antt =====
-- machine/timer.cc, console.cc and the requests of disk.cc, with the handlers that the kernel gives
-- them: `TimerInterruptHandler` of threads/system.cc, `RequestDone` of filesys/synchdisk.cc and those
-- of `ConsoleTest` in userprog/progtest.cc. One timer, one disk and one console are there.
pub mod Handlers
pub mod Keyboard
pub mod Requests
use cop5614nachos.Base.{
  ℕ, ◌+◌, ◌*◌, ◌%◌, Bool, true, false, not, ◌&&◌, ◌||◌, Option, none, some, List, [], ◌∷◌, ◌++◌,
  ltb, ◌==◌, assert, ◌>>=◌, ◌>>◌, if◌then◌else◌, Array,
}
use cop5614nachos.Threads.Kernel.{Kernel, v}
use cop5614nachos.Filesys.Disk.{num_sectors}
use cop5614nachos.Machine.Disk.{Disk, compute_latency, update_last, load_sector, save_sector}
use cop5614nachos.Machine.Interrupt.{
  timer_int, disk_int, console_write_int, console_read_int, Statistics, Interrupt, schedule,
  yield_on_return, is_idle,
}

abbrev pub timer_ticks : ℕ
timer_ticks = 100

abbrev pub console_time : ℕ
console_time = 100

-- `EOF` as a `char`.
abbrev pub eof : ℕ
eof = 255

-- The routines that the devices give to `Schedule`.
pub data Routine : Type 0 where
  timer_handler disk_done console_read_poll console_write_done : Routine

-- `random` holds what the calls of `Random` return, `draws` counts them.
pub record Timer : Type 0 where
  pub randomize : Bool
  pub random : Array ℕ
  pub draws : ℕ

-- `keys` holds what the next polls of the keyboard find, `display` what was shown.
pub record Console : Type 0 where
  pub incoming : ℕ
  pub put_busy : Bool
  pub keys : List (Option ℕ)
  pub display : List ℕ

-- The semaphores are those of the synchronous disk and of `ConsoleTest`.
pub record Devices : Type 0 where
  pub timer : Timer
  pub disk : Disk
  pub console : Console
  pub kernel : Kernel
  pub disk_semaphore : ℕ
  pub read_avail : ℕ
  pub write_done : ℕ

abbrev pub System : Type 0
System = Interrupt Routine Devices

abbrev pub in_devices : (Devices → Devices) → System → System
in_devices f s = record s { world = f s.world }

unfoldable pub time_of_next_interrupt : Timer → ℕ × Timer
time_of_next_interrupt t =
    if t.randomize
    then (1 + t.random t.draws % (timer_ticks * 2), record t { draws = t.draws + 1 })
    else (timer_ticks, t)

-- The constructor of `Timer` does this, and so does `TimerExpired`.
unfoldable pub schedule_timer : System → Option System
unfolding time_of_next_interrupt schedule
schedule_timer s =
    let (from_now, timer) = time_of_next_interrupt s.world.timer in
    schedule timer_handler 0 from_now timer_int (in_devices (λ d. record d { timer = timer }) s)

unfoldable pub timer_interrupt_handler : System → Option System
unfolding yield_on_return
timer_interrupt_handler s = if is_idle s.status then some s else yield_on_return s

unfoldable pub timer_expired : System → Option System
unfolding schedule_timer timer_interrupt_handler
timer_expired s = do s' ← schedule_timer s; timer_interrupt_handler s'

-- `RequestDone`, `ReadAvail` and `WriteDone` each do a V.
abbrev pub wake : (Devices → ℕ) → System → System
wake semaphore s = in_devices (λ d. record d { kernel = v (semaphore d) d.kernel }) s

abbrev pub busy_disk : ℕ → ℕ → Disk → Disk
busy_disk now sector disk = update_last (record disk { active = true }) now sector

unfoldable pub read_request : ℕ → Array ℕ → System → Option (Array ℕ × System)
unfolding compute_latency load_sector update_last schedule
read_request sector buffer s = do
  let disk : Disk = s.world.disk
  let now : ℕ = s.stats.total_ticks
  assert (not disk.active)
  assert (ltb sector num_sectors)
  s' ← schedule disk_done 0 (compute_latency disk now sector false) disk_int (record s {
    stats = record (s.stats) { num_disk_reads = s.stats.num_disk_reads + 1 };
    world = record (s.world) { disk = busy_disk now sector disk };
  })
  some (load_sector disk sector buffer, s')

unfoldable pub write_request : ℕ → Array ℕ → System → Option System
unfolding compute_latency save_sector update_last schedule
write_request sector buffer s = do
  let disk : Disk = s.world.disk
  let now : ℕ = s.stats.total_ticks
  assert (not disk.active)
  assert (ltb sector num_sectors)
  schedule disk_done 0 (compute_latency disk now sector true) disk_int (record s {
    stats = record (s.stats) { num_disk_writes = s.stats.num_disk_writes + 1 };
    world = record (s.world) { disk = busy_disk now sector (save_sector disk sector buffer) };
  })

unfoldable pub handle_interrupt : System → System
unfolding v
handle_interrupt s =
    wake (λ d. d.disk_semaphore)
      (in_devices (λ d. record d { disk = record (d.disk) { active = false } }) s)

-- The constructor of `Console` does this, and so does `CheckCharAvail`.
unfoldable pub schedule_poll : System → Option System
unfolding schedule
schedule_poll s = schedule console_read_poll 0 console_time console_read_int s

-- The character that a poll finds, with the polls that are left.
unfoldable pub poll_file : List (Option ℕ) → Option ℕ × List (Option ℕ)
poll_file [] = (none, [])
poll_file (found ∷ later) = (found, later)

-- The keyboard is not polled while a character is buffered.
unfoldable pub poll_console : Console → Bool × Console
unfolding poll_file
poll_console c =
    if not (c.incoming == eof)
    then (false, c)
    else (let (found, keys) = poll_file c.keys in
        elim found [
          | none ↦ (false, record c { keys = keys })
          | some key ↦ (true, record c { keys = keys; incoming = key })
        ])

-- The rest of `CheckCharAvail`: a character that is read is counted, and the reader is woken.
unfoldable pub poll_keyboard : System → System
unfolding poll_console v
poll_keyboard s =
    let (read, console) = poll_console s.world.console in
    let polled : System = in_devices (λ d. record d { console = console }) s in
    if read
    then wake (λ d. d.read_avail)
        (record polled {
          stats = record (polled.stats) {
            num_console_chars_read = polled.stats.num_console_chars_read + 1;
          };
        })
    else polled

unfoldable pub check_char_avail : System → Option System
unfolding schedule_poll poll_keyboard
check_char_avail s = do s' ← schedule_poll s; some (poll_keyboard s')

unfoldable pub get_char : Console → ℕ × Console
get_char c = (c.incoming, record c { incoming = eof })

unfoldable pub put_char : ℕ → System → Option System
unfolding schedule
put_char ch s = do
  assert (not s.world.console.put_busy)
  schedule console_write_done 0 console_time console_write_int (
      in_devices
        (λ d. record d {
          console = record (d.console) { display = d.console.display ++ ch ∷ []; put_busy = true };
        })
        s)

unfoldable pub write_done : System → System
unfolding v
write_done s =
    wake (λ d. d.write_done)
      (record s {
        stats = record (s.stats) {
          num_console_chars_written = s.stats.num_console_chars_written + 1;
        };
        world = record (s.world) { console = record (s.world.console) { put_busy = false } };
      })

-- The routine that a pending interrupt names.
unfoldable pub call : Routine → ℕ → System → Option System
unfolding timer_expired handle_interrupt check_char_avail write_done
call timer_handler arg s = timer_expired s
call disk_done arg s = some (handle_interrupt s)
call console_read_poll arg s = check_char_avail s
call console_write_done arg s = some (write_done s)
