-- ===== src/Machine/Interrupt/Idling.antt =====
-- `Idle`: the clock goes on to the next interrupt, or the machine halts.
use cop5614nachos.Base.{
  ℕ, ◌+◌, ◌-◌, ◌≡◌, ◌⊎◌, refl, ◌++◌, if◌then◌else◌, true, Option, some, List, [], ◌∷◌, inl, inr,
  ltb, Bool-cases,
}
use cop5614nachos.Machine.Interrupt.{
  int_off, idle_mode, PendingInterrupt, Interrupt, halted, insert_pending, advance_clock, fire,
  check_if_due, idle, is_timer,
}
use cop5614nachos.Machine.Interrupt.Pending.{IsSorted, due}
use cop5614nachos.Machine.Interrupt.Serving.{IsHandler, IsQuiet}

-- Without an interrupt, or with the timer's alone, `Idle` halts the machine and keeps the list.
pub idle-halted :
    {Routine World : Type 0}
    (call : Routine → ℕ → Interrupt Routine World → Option (Interrupt Routine World))
    (xs : List (PendingInterrupt Routine)) (s : Interrupt Routine World)
    → s.level ≡ int_off
    → (xs ≡ []) ⊎ ((x : PendingInterrupt Routine) × (xs ≡ x ∷ []) × (is_timer x.type ≡ true))
    → (t : Interrupt Routine World) × (idle call (record s { pending = xs }) ≡ some (halted t))
      × (t.pending ≡ xs)
unfolding idle check_if_due fire insert_pending
idle-halted call [] s off last = (record s { status = idle_mode; pending = [] }, simp off, refl)
idle-halted call (x ∷ []) s off (inl empty) = cc
idle-halted call (x ∷ []) s off (inr (y, only, timer)) =
    let timed : is_timer x.type ≡ true = cc in
    elim (Bool-cases (ltb s.stats.total_ticks x.when)) [
      | inl later ↦ (
        advance_clock x.when (record s { status = idle_mode; pending = x ∷ [] }),
        simp (off, later, timed),
        refl,
      )
      | inr now ↦ (record s { status = idle_mode; pending = x ∷ [] }, simp (off, now, timed), refl)
    ]
idle-halted call (x ∷ y ∷ ys) s off (inl empty) = cc
idle-halted call (x ∷ y ∷ ys) s off (inr (z, only, timer)) = cc

-- What `Idle` fires its first interrupt from: the machine idles, and the clock has gone on to the time
-- of the interrupt if that was still to come, these ticks counted as idle. All else is as it was.
abbrev pub idle_start :
    {Routine World : Type 0}
    → PendingInterrupt Routine
    → List (PendingInterrupt Routine)
    → Interrupt Routine World
    → Interrupt Routine World
idle_start x rest s =
    let waits = ltb s.stats.total_ticks x.when in
    record s {
      status = idle_mode;
      pending = x ∷ rest;
      stats = record (s.stats) {
        total_ticks = if waits then x.when else s.stats.total_ticks;
        idle_ticks =
            if waits
            then s.stats.idle_ticks + (x.when - s.stats.total_ticks)
            else s.stats.idle_ticks;
      };
    }

module _ {Routine World : Type 0}
    (call : Routine → ℕ → Interrupt Routine World → Option (Interrupt Routine World))
    (handles : IsHandler call) where
  -- What is left when the interrupts `fired` were fired after the first one.
  abbrev Left :
      List (PendingInterrupt Routine)
      → List (PendingInterrupt Routine)
      → Interrupt Routine World
      → Interrupt Routine World
      → Type 0
  Left rest fired s u =
      (due s.stats.total_ticks rest ≡ fired ++ due s.stats.total_ticks u.pending)
      × IsQuiet u
      × IsSorted u.pending
