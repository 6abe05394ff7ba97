-- ===== src/Machine/Interrupt.antt =====
-- machine/interrupt.cc, interrupt.h and stats.h: simulated time, and the interrupts that the devices
-- have scheduled. `Routine` stands for the pointers to handlers, `World` for what they act on.
pub mod Pending
pub mod Serving
pub mod Ticks
pub mod Idling
use cop5614nachos.Base.{
  ℕ, zero, suc, ◌+◌, ◌-◌, Bool, true, false, not, ◌&&◌, ◌||◌, Option, none, some, List, [], ◌∷◌,
  ltb, assert, ◌>>=◌, ◌>>◌, if◌then◌else◌,
}
use cop5614nachos.Base.Lists.{length}
use cop5614nachos.Machine.State.{Machine, delayed_load}

pub data IntStatus : Type 0 where
  int_off int_on : IntStatus

pub data MachineStatus : Type 0 where
  idle_mode system_mode user_mode : MachineStatus

pub data IntType : Type 0 where
  timer_int disk_int console_write_int console_read_int : IntType
  network_send_int network_recv_int : IntType

abbrev pub is_off : IntStatus → Bool
is_off int_off = true
is_off int_on = false

abbrev pub is_idle : MachineStatus → Bool
is_idle idle_mode = true
is_idle system_mode = false
is_idle user_mode = false

abbrev pub is_system : MachineStatus → Bool
is_system idle_mode = false
is_system system_mode = true
is_system user_mode = false

abbrev pub is_timer : IntType → Bool
is_timer timer_int = true
is_timer _ = false

-- The ticks are counted without the wrap-around of `int`.
pub record Statistics : Type 0 where
  pub total_ticks : ℕ
  pub idle_ticks : ℕ
  pub system_ticks : ℕ
  pub user_ticks : ℕ
  pub num_disk_reads : ℕ
  pub num_disk_writes : ℕ
  pub num_console_chars_read : ℕ
  pub num_console_chars_written : ℕ
  pub num_packets_sent : ℕ
  pub num_packets_recvd : ℕ

unfoldable pub statistics : Statistics
statistics = record {
  total_ticks = 0;
  idle_ticks = 0;
  system_ticks = 0;
  user_ticks = 0;
  num_disk_reads = 0;
  num_disk_writes = 0;
  num_console_chars_read = 0;
  num_console_chars_written = 0;
  num_packets_sent = 0;
  num_packets_recvd = 0;
}

abbrev pub user_tick : ℕ
user_tick = 1

abbrev pub system_tick : ℕ
system_tick = 10

pub record PendingInterrupt (Routine : Type 0) : Type 0 where
  pub handler : Routine
  pub arg : ℕ
  pub when : ℕ
  pub type : IntType

-- `pending` is the sequence of the sorted list; `machine` is none for NULL.
pub record Interrupt (Routine World : Type 0) : Type 0 where
  pub level : IntStatus
  pub pending : List (PendingInterrupt Routine)
  pub in_handler : Bool
  pub yield_on_return : Bool
  pub status : MachineStatus
  pub stats : Statistics
  pub machine : Option Machine
  pub world : World

-- `pending->SortedInsert(toOccur, when)`, where the key is always the time of the interrupt.
unfoldable pub insert_pending :
    {Routine : Type 0}
    → PendingInterrupt Routine
    → List (PendingInterrupt Routine)
    → List (PendingInterrupt Routine)
insert_pending x [] = x ∷ []
insert_pending x (y ∷ ys) =
    let later = insert_pending x ys in if ltb x.when y.when then x ∷ y ∷ ys else y ∷ later

-- The first lines of `OneTick`.
unfoldable pub tick_stats : MachineStatus → Statistics → Statistics
tick_stats status stats =
    if is_system status
    then record stats {
      total_ticks = stats.total_ticks + system_tick;
      system_ticks = stats.system_ticks + system_tick;
    }
    else record stats {
      total_ticks = stats.total_ticks + user_tick;
      user_ticks = stats.user_ticks + user_tick;
    }

-- `if (machine != NULL) machine->DelayedLoad(0, 0)`
abbrev pub machine_delay : Option Machine → Option Machine
machine_delay none = none
machine_delay (some m) = some (delayed_load m 0 0)

module _ {Routine World : Type 0} where
  unfoldable pub interrupt : World → Option Machine → Interrupt Routine World
  unfolding statistics
  interrupt world machine = record {
    level = int_off;
    pending = [];
    in_handler = false;
    yield_on_return = false;
    status = system_mode;
    stats = statistics;
    machine = machine;
    world = world;
  }

  abbrev pub change_level : IntStatus → Interrupt Routine World → Interrupt Routine World
  change_level now s = record s { level = now }

  unfoldable pub yield_on_return : Interrupt Routine World → Option (Interrupt Routine World)
  yield_on_return s = do assert s.in_handler; some (record s { yield_on_return = true })

  unfoldable pub schedule :
      Routine → ℕ → ℕ → IntType → Interrupt Routine World → Option (Interrupt Routine World)
  unfolding insert_pending
  schedule handler arg from_now type s = do
    let to_occur : PendingInterrupt Routine = record {
      handler = handler;
      arg = arg;
      when = s.stats.total_ticks + from_now;
      type = type;
    }
    assert (ltb 0 from_now)
    some (record s { pending = insert_pending to_occur s.pending })

  -- The clock moves to the time of the interrupt; the ticks between were idle.
  abbrev pub advance_clock : ℕ → Interrupt Routine World → Interrupt Routine World
  advance_clock when s = record s {
    stats = record (s.stats) {
      idle_ticks = s.stats.idle_ticks + (when - s.stats.total_ticks);
      total_ticks = when;
    };
  }

  abbrev pub tick : Interrupt Routine World → Interrupt Routine World
  tick s = record s { stats = tick_stats s.status s.stats }

-- How `Idle` ends: it returns, or the machine halts.
pub data Idled (Routine World : Type 0) : Type 0 where
  woke halted : Interrupt Routine World → Idled Routine World

module _ {Routine World : Type 0}
    (call : Routine → ℕ → Interrupt Routine World → Option (Interrupt Routine World)) where
  -- The end of `CheckIfDue`: the handler runs in system mode, and the old mode comes back.
  unfoldable pub invoke :
      PendingInterrupt Routine → Interrupt Routine World → Option (Interrupt Routine World)
  invoke to_occur s = do
    s' ←
        call to_occur.handler to_occur.arg
          (record s { machine = machine_delay s.machine; in_handler = true; status = system_mode })
    some (record s' { status = s.status; in_handler = false })

  -- From the test for the last timer interrupt on, with the clock set and the interrupt taken off.
  unfoldable pub fire :
      PendingInterrupt Routine → Interrupt Routine World → Option (Bool × Interrupt Routine World)
  unfolding invoke insert_pending
  fire to_occur s = elim s.pending [
    | [] ↦
        if is_idle s.status && is_timer to_occur.type
        then some (false, record s { pending = insert_pending to_occur [] })
        else do s' ← invoke to_occur s; some (true, s')
    | _ ↦ do s' ← invoke to_occur s; some (true, s')
  ]

  unfoldable pub check_if_due :
      Bool → Interrupt Routine World → Option (Bool × Interrupt Routine World)
  unfolding fire insert_pending
  check_if_due advance s = do
    assert (is_off s.level)
    elim s.pending [
      | [] ↦ some (false, s)
      | to_occur ∷ rest ↦
          let taken : Interrupt Routine World = record s { pending = rest } in
          if ltb s.stats.total_ticks to_occur.when
          then if advance
            then fire to_occur (advance_clock to_occur.when taken)
            else some (false, record s { pending = insert_pending to_occur rest })
          else fire to_occur taken
    ]

  -- `while (CheckIfDue(FALSE)) ;`
  unfoldable pub check_loop : ℕ → Interrupt Routine World → Option (Interrupt Routine World)
  unfolding check_if_due
  check_loop zero s = none
  check_loop (suc fuel) s = do
    (fired, s') ← check_if_due false s
    elim fired [ true ↦ check_loop fuel s' | false ↦ some s' ]

  -- `OneTick` until the interrupts are enabled again.
  unfoldable pub tick_and_check : Interrupt Routine World → Option (Interrupt Routine World)
  unfolding check_loop
  tick_and_check s = do
    s' ← check_loop (length s.pending + 1) (change_level int_off (tick s))
    some (change_level int_on s')

  unfoldable pub idle : Interrupt Routine World → Option (Idled Routine World)
  unfolding check_if_due check_loop
  idle s = do
    (fired, s') ← check_if_due true (record s { status = idle_mode })
    elim fired [
      | true ↦ do
        s'' ← check_loop (length s'.pending + 1) s'
        some (woke (record s'' { yield_on_return = false; status = system_mode }))
      | false ↦ some (halted s')
    ]

  -- `currentThread->Yield()` returns when the thread runs again.
  module _ (thread_yield : Interrupt Routine World → Option (Interrupt Routine World)) where
    unfoldable pub one_tick : Interrupt Routine World → Option (Interrupt Routine World)
    unfolding tick_and_check
    one_tick s = do
      s' ← tick_and_check s
      if not s'.yield_on_return then some s' else do
        s'' ← thread_yield (record s' { yield_on_return = false; status = system_mode })
        some (record s'' { status = s.status })

    unfoldable pub set_level :
        IntStatus → Interrupt Routine World → Option (IntStatus × Interrupt Routine World)
    unfolding one_tick
    set_level now s = do
      assert (is_off now || not s.in_handler)
      let changed : Interrupt Routine World = change_level now s
      if is_off now || not (is_off s.level)
          then some (s.level, changed)
          else do s' ← one_tick changed; some (s.level, s')

    unfoldable pub enable : Interrupt Routine World → Option (Interrupt Routine World)
    unfolding set_level
    enable s = do (old, s') ← set_level int_on s; some s'
