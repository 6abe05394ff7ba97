-- ===== src/Machine/Devices/Handlers.antt =====
-- The handlers of the devices return, leave the clock alone and schedule only for later.
use cop5614nachos.Base.{
  ℕ, ◌+◌, ◌<◌, ◌≡◌, refl, ap, sym, subst, ◌∙◌, true, some, List, arith, inl, inr, lt→ltb,
  Bool-cases, >>=-next,
}
use cop5614nachos.Machine.Interrupt.{
  IntStatus, timer_int, console_read_int, IntType, PendingInterrupt, Interrupt, insert_pending,
  schedule, yield_on_return, is_idle,
}
use cop5614nachos.Machine.Interrupt.Pending.{
  IsSorted, due, insert_pending-IsSorted, due-insert_pending,
}
use cop5614nachos.Machine.Interrupt.Serving.{Serves, IsHandler}
use cop5614nachos.Machine.Devices.{
  Routine, timer_handler, disk_done, console_read_poll, console_write_done, Timer, System,
  time_of_next_interrupt, schedule_timer, timer_interrupt_handler, timer_expired, handle_interrupt,
  schedule_poll, poll_console, poll_keyboard, check_char_avail, write_done, call,
}

-- What handlers must not touch, but for the list, to which they may add.
abbrev Clock : Type 0 → Type 0
Clock Routine = List (PendingInterrupt Routine) × IntStatus × ℕ × ℕ × ℕ × ℕ

module _ {Routine World : Type 0} where
  abbrev clock : Interrupt Routine World → Clock Routine
  clock s = (
    s.pending, s.level, s.stats.total_ticks, s.stats.idle_ticks, s.stats.system_ticks,
    s.stats.user_ticks,
  )

  -- The rest of the state may change before and after.
  Serves-clock :
      (s' t' : Interrupt Routine World) {s t : Interrupt Routine World}
      → clock s ≡ clock s'
      → Serves s t
      → clock t' ≡ clock t
      → Serves s' t'
  Serves-clock s' t' {s} {t} p v q = record {
    kept = record {
      total = ap (λ c. c.2) q ∙ v.kept.total ∙ ap (λ c. c.2) p;
      idle = ap (λ c. c.3) q ∙ v.kept.idle ∙ ap (λ c. c.3) p;
      system = ap (λ c. c.4) q ∙ v.kept.system ∙ ap (λ c. c.4) p;
      user = ap (λ c. c.5) q ∙ v.kept.user ∙ ap (λ c. c.5) p;
      level = ap (λ c. c.1) q ∙ v.kept.level ∙ ap (λ c. c.1) p;
    };
    sorted = λ h.
        subst (λ l. IsSorted l) (ap (λ c. c.0) (sym q))
          (v.sorted (subst (λ l. IsSorted l) (ap (λ c. c.0) (sym p)) h));
    same_due =
        ap (λ c. due s'.stats.total_ticks (c.0)) q
        ∙ ap (λ c. due (c.2) t.pending) (sym p)
        ∙ v.same_due
        ∙ ap (λ c. due (c.2) (c.0)) p;
  }

  Serves-refl : (s : Interrupt Routine World) → Serves s s
  Serves-refl s = record {
    kept = record { total = refl; idle = refl; system = refl; user = refl; level = refl };
    sorted = λ h. h;
    same_due = refl;
  }

  -- A request for later is put in its place in the list.
  pub schedule-Serves :
      (r : Routine) (arg from_now : ℕ) (type : IntType) (s : Interrupt Routine World)
      → 0 < from_now
      → (t : Interrupt Routine World) × (schedule r arg from_now type s ≡ some t)
        × Serves s t
        × (t.in_handler ≡ s.in_handler)
        × (t.world ≡ s.world)
  unfolding schedule
  schedule-Serves r arg from_now type s later =
      let x : PendingInterrupt Routine = record {
        handler = r;
        arg = arg;
        when = s.stats.total_ticks + from_now;
        type = type;
      } in
      (
        record s { pending = insert_pending x s.pending },
        rw (lt→ltb 0 from_now later) refl,
        record {
          kept = record { total = refl; idle = refl; system = refl; user = refl; level = refl };
          sorted = insert_pending-IsSorted x s.pending;
          same_due = due-insert_pending s.stats.total_ticks x s.pending (omega arith);
        },
        refl,
        refl,
      )

-- The timer goes off again at least one tick later.
pub time_of_next_interrupt-pos : (t : Timer) → 0 < (time_of_next_interrupt t).0
unfolding time_of_next_interrupt
time_of_next_interrupt-pos t = ground arith

timer_expired-Serves :
    (s : System) → s.in_handler ≡ true → (t : System) × (timer_expired s ≡ some t) × Serves s t
unfolding timer_expired schedule_timer timer_interrupt_handler yield_on_return
timer_expired-Serves s inside =
    let (from_now, timer) = time_of_next_interrupt s.world.timer in
    let (t, e, v, out, w) =
      schedule-Serves timer_handler 0 from_now timer_int
        (record s { world = record (s.world) { timer = timer } })
        (time_of_next_interrupt-pos s.world.timer) in
    elim (Bool-cases (is_idle t.status)) [
      | inl idling ↦ (t, >>=-next _ e (rw idling refl), Serves-clock s t refl v refl)
      | inr busy ↦ (
        record t { yield_on_return = true },
        >>=-next _ e (rw (busy, out ∙ inside) refl),
        Serves-clock s (record t { yield_on_return = true }) refl v refl,
      )
    ]

clock-poll_keyboard : (s : System) → clock (poll_keyboard s) ≡ clock s
unfolding poll_keyboard
clock-poll_keyboard s = elim (Bool-cases (poll_console s.world.console).0) [
  | inl found ↦ rw found refl
  | inr empty ↦ rw empty refl
]

check_char_avail-Serves : (s : System) → (t : System) × (check_char_avail s ≡ some t) × Serves s t
unfolding check_char_avail schedule_poll
check_char_avail-Serves s =
    let (t, e, v, out, w) =
      schedule-Serves console_read_poll 0 100 console_read_int s (omega arith) in
    (
      poll_keyboard t,
      >>=-next (λ x. some (poll_keyboard x)) e refl,
      Serves-clock s (poll_keyboard t) refl v (clock-poll_keyboard t),
    )

-- The timer, the disk and the console handle their interrupts: each handler returns, keeps the clock,
-- the level and the order of the list, and what it schedules is not due yet.
pub call-IsHandler : IsHandler call
unfolding call handle_interrupt write_done
call-IsHandler timer_handler arg s off inside = timer_expired-Serves s inside
call-IsHandler disk_done arg s off inside =
    (handle_interrupt s, refl, Serves-clock s (handle_interrupt s) refl (Serves-refl s) refl)
call-IsHandler console_read_poll arg s off inside = check_char_avail-Serves s
call-IsHandler console_write_done arg s off inside =
    (write_done s, refl, Serves-clock s (write_done s) refl (Serves-refl s) refl)
