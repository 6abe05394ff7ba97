-- ===== src/Witnesses/Devices.antt =====
-- A machine with its devices, and two machines on the network.
use cop5614nachos.Base.{
  ℕ, ◌+◌, ◌/◌, ◌%◌, ◌<◌, ◌≤◌, ◌≡◌, ◌≢◌, refl, true, false, none, some, [], ◌∷◌, ◌++◌, Array, arith,
}
use cop5614nachos.Threads.Kernel.{Kernel, free, running}
use cop5614nachos.Filesys.Disk as Storage
use cop5614nachos.Filesys.Disk.{sector_size, write_sector}
use cop5614nachos.Machine.Disk.{Disk, save_sector}
use cop5614nachos.Machine.Disk.Sectors.{sectors, save_sector-write_sector}
use cop5614nachos.Machine.Interrupt.{
  int_off, int_on, timer_int, console_read_int, system_mode, Statistics, PendingInterrupt,
  change_level, tick, insert_pending, tick_and_check, idle,
}
use cop5614nachos.Machine.Interrupt.Pending.{IsSorted, due}
use cop5614nachos.Machine.Interrupt.Serving.{Fires}
use cop5614nachos.Machine.Interrupt.Ticks.{IsAccounted, tick_length, tick_and_check-Fires}
use cop5614nachos.Machine.Devices.{
  timer_handler, console_read_poll, Routine, Console, System, call, read_request, write_request,
  handle_interrupt,
}
use cop5614nachos.Machine.Devices.Handlers.{call-IsHandler}
use cop5614nachos.Machine.Devices.Keyboard.{poll, get, console_run, unread, console_run-unread}
use cop5614nachos.Machine.Devices.Requests.{
  completion, write_request-completes, read_request-write_request,
}
use cop5614nachos.Network.{
  PacketHeader, MailHeader, Mail, PostOffice, Node, post_send, check_pkt_avail, postal_delivery,
}
use cop5614nachos.Network.Delivery.{arrived, stamped, postal_delivery-post_send}

abbrev kernel : Kernel
kernel = record {
  current_thread = 0;
  idle = false;
  status = λ t. running;
  resume = λ t. free;
  ready_list = [];
  thread_to_be_destroyed = none;
  semaphore = λ s. record { value = 0; queue = [] };
  lock = λ l. record { is_held = false; lock_holder = none; queue = [] };
  blocked = λ c. [];
}

abbrev console : Console
console = record {
  incoming = 255;
  put_busy = false;
  keys = some 113 ∷ none ∷ some 114 ∷ [];
  display = [];
}

abbrev stats : Statistics
stats = record {
  total_ticks = 95;
  idle_ticks = 5;
  system_ticks = 80;
  user_ticks = 10;
  num_disk_reads = 0;
  num_disk_writes = 0;
  num_console_chars_read = 0;
  num_console_chars_written = 0;
  num_packets_sent = 0;
  num_packets_recvd = 0;
}

abbrev unix_disk : Disk
unix_disk = record { file = λ j. j; last_sector = 40; buffer_init = 0; active = false }

abbrev poll_at_100 : PendingInterrupt Routine
poll_at_100 = record { handler = console_read_poll; arg = 0; when = 100; type = console_read_int }

abbrev timer_at_300 : PendingInterrupt Routine
timer_at_300 = record { handler = timer_handler; arg = 0; when = 300; type = timer_int }

abbrev system : System
system = record {
  level = int_off;
  pending = poll_at_100 ∷ timer_at_300 ∷ [];
  in_handler = false;
  yield_on_return = false;
  status = system_mode;
  stats = stats;
  machine = none;
  world = record {
    timer = record { randomize = false; random = λ i. i; draws = 0 };
    disk = unix_disk;
    console = console;
    kernel = kernel;
    disk_semaphore = 0;
    read_avail = 1;
    write_done = 2;
  };
}

abbrev bytes : Array ℕ
bytes = λ j. 65 + j

accounted : IsAccounted system
accounted = record { sum = refl }

sorted : IsSorted system.pending
sorted = ((omega arith, tt), (tt, tt))

-- The poll of the console is due.
tick_and_check-Fires_example :
    (t : System) × (tick_and_check call system ≡ some (change_level int_on t))
    × Fires call
        (due (95 + tick_length system_mode) system.pending)
        (change_level int_off (tick system))
        t
    × (t.stats.total_ticks ≡ 95 + tick_length system_mode)
    × (due t.stats.total_ticks t.pending ≡ [])
    × IsSorted t.pending
    × (t.status ≡ system_mode)
    × IsAccounted t
tick_and_check-Fires_example = tick_and_check-Fires call call-IsHandler system sorted refl accounted

write_request-completes_example :
    (t : System) × (when : ℕ) × (write_request 100 bytes system ≡ some t)
    × (t.pending ≡ insert_pending (completion when) system.pending)
    × (95 < when)
    × (when < 95 + 32000)
    × (when % 500 ≡ 0)
    × (when / 500 % 32 ≡ (100 + 1) % 32)
    × (t.world.disk.file ≡ (save_sector unix_disk 100 bytes).file)
    × (t.world.disk.active ≡ true)
    × (t.world.disk.last_sector ≡ 100)
write_request-completes_example =
    write_request-completes 100 bytes system refl (omega arith) (omega arith)

read_request-write_request_example :
    (t : System) × (u : System) × (read : Array ℕ) × (write_request 100 bytes system ≡ some t)
    × (read_request 100 (λ j. 0) (handle_interrupt t) ≡ some (read, u))
    × ((j : ℕ) → j < 128 → read j ≡ bytes j)
    × ((j : ℕ) → 128 ≤ j → read j ≡ 0)
read_request-write_request_example =
    read_request-write_request 100 bytes (λ j. 0) system refl (omega arith) (omega arith)

save_sector-write_sector_example :
    (d : Storage.Disk) × (write_sector (sectors unix_disk) 100 bytes 0 ≡ some d)
    × ((s j : ℕ) → j < sector_size → sectors (save_sector unix_disk 100 bytes) s j ≡ d s j)
    × ((j : ℕ) → j < 4 → (save_sector unix_disk 100 bytes).file j ≡ j)
save_sector-write_sector_example = save_sector-write_sector unix_disk 100 bytes (omega arith)

console_run-unread_example :
    (console_run (poll ∷ poll ∷ get ∷ poll ∷ []) console).0
      ++ unread (console_run (poll ∷ poll ∷ get ∷ poll ∷ []) console).1
    ≡ unread console
console_run-unread_example = console_run-unread (poll ∷ poll ∷ get ∷ poll ∷ []) console

-- Machine 3 and machine 4, each with ten boxes.
abbrev node : ℕ → Node
node addr = record {
  level = int_off;
  pending = [];
  in_handler = false;
  yield_on_return = false;
  status = system_mode;
  stats = stats;
  machine = none;
  world = record {
    network = record {
      ident = addr;
      send_busy = false;
      in_hdr = record { to = 0; from = 0; length = 0 };
      inbox = λ j. 0;
      arrivals = [];
      sent = [];
    };
    net_addr = addr;
    num_boxes = 10;
    boxes = λ b. [];
    kernel = kernel;
    message_available = 0;
    message_sent = 1;
  };
}

abbrev to_machine_4 : PacketHeader
to_machine_4 = record { to = 4; from = 0; length = 0 }

abbrev to_box_7 : MailHeader
to_box_7 = record { to = 7; from = 1; length = 5 }

abbrev buffers : Array (Array ℕ)
buffers = λ k j. k

postal_delivery-post_send_example :
    (s' : Node) × (r' : Node) × (packet : Array ℕ) × (po : PostOffice) × (m : Mail) × (post_send
        false to_machine_4 to_box_7 bytes buffers
        (node 3)
      ≡ some s')
    × (s'.world.network.sent ≡ (4, packet) ∷ [])
    × (check_pkt_avail (arrived packet (node 4)) ≡ some r')
    × (postal_delivery buffers r'.world ≡ some po)
    × (po.boxes 7 ≡ m ∷ [])
    × (m.pkt_hdr ≡ stamped to_machine_4 to_box_7 (node 3))
    × (m.mail_hdr ≡ to_box_7)
    × ((x : ℕ) → x < 5 → m.contents x ≡ bytes x)
    × ((b : ℕ) → b ≢ 7 → po.boxes b ≡ [])
    × (po.network.in_hdr.length ≡ 0)
postal_delivery-post_send_example =
    postal_delivery-post_send to_machine_4 to_box_7 bytes buffers buffers (node 3) (node 4) refl
      refl (omega arith) (omega arith) (omega arith) (omega arith) (omega arith) (omega arith)
      (omega arith) refl refl
