-- ===== src/Machine/Interrupt/Ticks.antt =====
-- `OneTick`: what it fires, and the account of the ticks.
use cop5614nachos.Base.{
  ℕ, ◌+◌, ◌≤◌, ◌≡◌, refl, ap, sym, subst, ◌∙◌, false, Option, some, List, [], ◌∷◌, ◌++◌, inl, inr,
  arith, if◌then◌else◌, >>=-next,
}
use mathlib.Core.List.{append-nil}
use cop5614nachos.Base.Lists.{length}
use cop5614nachos.Machine.Interrupt.{
  int_off, int_on, MachineStatus, Statistics, PendingInterrupt, Interrupt, change_level, tick_stats,
  tick, tick_and_check, is_idle, is_system,
}
use cop5614nachos.Machine.Interrupt.Pending.{IsSorted, due}
use cop5614nachos.Machine.Interrupt.Serving.{IsHandler, Fires, IsQuiet, check_loop-Checked}

pub length-due :
    {Routine : Type 0} (now : ℕ) (xs : List (PendingInterrupt Routine))
    → length (due now xs) ≤ length xs
length-due now [] = omega arith
length-due now (x ∷ xs) = ground (arith, length-due now xs)

-- Every tick is counted once, as idle, system or user time.
pub record IsAccounted {Routine World : Type 0} (s : Interrupt Routine World) : Type 0 where
  pub sum : s.stats.total_ticks ≡ s.stats.idle_ticks + s.stats.system_ticks + s.stats.user_ticks

-- The ticks that `OneTick` counts.
abbrev pub tick_length : MachineStatus → ℕ
tick_length status = if is_system status then 10 else 1

tick_stats-total :
    (status : MachineStatus) (stats : Statistics)
    → (tick_stats status stats).total_ticks ≡ stats.total_ticks + tick_length status
unfolding tick_stats
tick_stats-total status stats = ground arith

tick_stats-sum :
    (status : MachineStatus) (stats : Statistics)
    → stats.total_ticks ≡ stats.idle_ticks + stats.system_ticks + stats.user_ticks
    → (tick_stats status stats).total_ticks
      ≡ (tick_stats status stats).idle_ticks
        + (tick_stats status stats).system_ticks
        + (tick_stats status stats).user_ticks
unfolding tick_stats
tick_stats-sum status stats h = ground arith

-- Outside the idle mode nothing that is due is left.
busy_quiet :
    {Routine World : Type 0} (s : Interrupt Routine World)
    → IsQuiet s
    → is_idle s.status ≡ false
    → due s.stats.total_ticks s.pending ≡ []
busy_quiet s (inl empty) busy = empty
busy_quiet s (inr (idling, x, only, timer)) busy = cc

module _ {Routine World : Type 0}
    (call : Routine → ℕ → Interrupt Routine World → Option (Interrupt Routine World))
    (handles : IsHandler call) where
  -- With handlers that return, that leave the clock alone and that schedule only for later,
  -- `OneTick` outside the idle mode returns from its loop: the clock has moved by 10 ticks in system
  -- mode and by 1 in user mode, exactly the interrupts that were due by then have been fired, in the
  -- order of the sorted list, nothing that is due is left, the list is sorted, interrupts are on, the
  -- mode is the one before, and every tick is still accounted for.
  pub tick_and_check-Fires :
      (s : Interrupt Routine World)
      → IsSorted s.pending
      → is_idle s.status ≡ false
      → IsAccounted s
      → (t : Interrupt Routine World) × (tick_and_check call s ≡ some (change_level int_on t))
        × Fires call
            (due (s.stats.total_ticks + tick_length s.status) s.pending)
            (change_level int_off (tick s))
            t
        × (t.stats.total_ticks ≡ s.stats.total_ticks + tick_length s.status)
        × (due t.stats.total_ticks t.pending ≡ [])
        × IsSorted t.pending
        × (t.status ≡ s.status)
        × IsAccounted t
  unfolding tick_and_check
  tick_and_check-Fires s sorted busy accounted =
      let start : Interrupt Routine World = change_level int_off (tick s) in
      let total = tick_stats-total s.status s.stats in
      let fits = length-due start.stats.total_ticks s.pending in
      let (fired, t, looped, (fires, r, t_sorted, quiet, dues)) =
        check_loop-Checked call handles (length s.pending + 1) s.pending start refl sorted
          (omega arith) in
      let left = busy_quiet t quiet (ap is_idle r.status ∙ busy) in
      let left' = ap (λ n. due n t.pending) (sym r.kept.total) ∙ left in
      let all = dues ∙ ap (λ l. fired ++ l) left' ∙ append-nil fired in
      (
        t,
        >>=-next _ looped refl,
        subst (λ l. Fires call l start t) (sym all ∙ ap (λ n. due n s.pending) total) fires,
        r.kept.total ∙ total,
        left,
        t_sorted,
        r.status,
        record {
          sum = omega (
            arith,
            r.kept.total,
            r.kept.idle,
            r.kept.system,
            r.kept.user,
            tick_stats-sum s.status s.stats accounted.sum,
          );
        },
      )
