-- ===== src/Machine/Interrupt/Serving.antt =====
-- What a handler may do, and the loop over the interrupts that are due.
use cop5614nachos.Base.{
  ℕ, zero, suc, ◌<◌, ◌≡◌, refl, ap, sym, subst, ◌∙◌, true, false, Option, some, List, [], ◌∷◌, inl,
  inr, arith, ltb, Bool-cases, >>=-next, ◌&&◌, ◌++◌, ◌⊎◌,
}
use cop5614nachos.Base.Lists.{length}
use cop5614nachos.Machine.Interrupt.{
  int_off, system_mode, PendingInterrupt, Interrupt, insert_pending, machine_delay, invoke, fire,
  check_if_due, check_loop, is_idle, is_timer,
}
use cop5614nachos.Machine.Interrupt.Pending.{
  IsSorted, due, due-NotBefore, due-insert_pending, insert_pending-IsSorted,
}

-- The clock and the level are the same.
pub record Kept {Routine World : Type 0} (s t : Interrupt Routine World) : Type 0 where
  pub total : t.stats.total_ticks ≡ s.stats.total_ticks
  pub idle : t.stats.idle_ticks ≡ s.stats.idle_ticks
  pub system : t.stats.system_ticks ≡ s.stats.system_ticks
  pub user : t.stats.user_ticks ≡ s.stats.user_ticks
  pub level : t.level ≡ s.level

-- A handler that ran from `s` to `t`: it kept the clock and the level, and what it scheduled is
-- later than now.
pub record Serves {Routine World : Type 0} (s t : Interrupt Routine World) : Type 0 where
  pub kept : Kept s t
  pub sorted : IsSorted s.pending → IsSorted t.pending
  pub same_due : due s.stats.total_ticks t.pending ≡ due s.stats.total_ticks s.pending

module _ {Routine World : Type 0}
    (call : Routine → ℕ → Interrupt Routine World → Option (Interrupt Routine World)) where
  -- Every handler returns when it is called with interrupts off.
  abbrev pub IsHandler : Type 0
  IsHandler =
      (r : Routine) (arg : ℕ) (s : Interrupt Routine World)
      → s.level ≡ int_off
      → s.in_handler ≡ true
      → (t : Interrupt Routine World) × (call r arg s ≡ some t) × Serves s t

  -- One interrupt after the other is the first of the list, and its handler runs.
  pub data Fires
      : List (PendingInterrupt Routine)
        → Interrupt Routine World
        → Interrupt Routine World
        → Type 0 where
    done :
        {s : Interrupt Routine World} (pending : List (PendingInterrupt Routine))
        → Fires [] s (record s { pending = pending })
    next :
        {x : PendingInterrupt Routine} {xs : List (PendingInterrupt Routine)}
        {s t u : Interrupt Routine World} (rest : List (PendingInterrupt Routine))
        → s.pending ≡ x ∷ rest
        → invoke call x (record s { pending = rest }) ≡ some t
        → Fires xs t u
        → Fires (x ∷ xs) s u

-- Nothing is due, or the machine idles and only the timer is left.
abbrev pub IsQuiet : {Routine World : Type 0} → Interrupt Routine World → Type 0
IsQuiet {Routine} s =
    (due s.stats.total_ticks s.pending ≡ [])
    ⊎ ((is_idle s.status ≡ true)
        × (x : PendingInterrupt Routine) × (s.pending ≡ x ∷ [])
        × (is_timer x.type ≡ true))

-- The mode is the one before, and no handler runs if none did.
pub record Resumed {Routine World : Type 0} (s t : Interrupt Routine World) : Type 0 where
  pub kept : Kept s t
  pub status : t.status ≡ s.status
  pub out : s.in_handler ≡ false → t.in_handler ≡ false

Resumed-trans :
    {Routine World : Type 0} {s t u : Interrupt Routine World}
    → Resumed s t
    → Resumed t u
    → Resumed s u
Resumed-trans p q = record {
  kept = record {
    total = q.kept.total ∙ p.kept.total;
    idle = q.kept.idle ∙ p.kept.idle;
    system = q.kept.system ∙ p.kept.system;
    user = q.kept.user ∙ p.kept.user;
    level = q.kept.level ∙ p.kept.level;
  };
  status = q.status ∙ p.status;
  out = λ h. q.out (p.out h);
}

module _ {Routine World : Type 0}
    (call : Routine → ℕ → Interrupt Routine World → Option (Interrupt Routine World))
    (handles : IsHandler call) where
  pub invoke-Resumed :
      (x : PendingInterrupt Routine) (s : Interrupt Routine World)
      → s.level ≡ int_off
      → (t : Interrupt Routine World) × (invoke call x s ≡ some t) × Resumed s t × Serves s t
  unfolding invoke
  invoke-Resumed x s off =
      let (t, e, v) =
        handles x.handler x.arg
          (record s { machine = machine_delay s.machine; in_handler = true; status = system_mode })
          off refl in
      let out : Interrupt Routine World = record t { status = s.status; in_handler = false } in
      let kept : Kept s out = record {
        total = v.kept.total;
        idle = v.kept.idle;
        system = v.kept.system;
        user = v.kept.user;
        level = v.kept.level;
      } in
      (
        out,
        >>=-next _ e refl,
        record { kept = kept; status = refl; out = λ _. refl },
        record { kept = kept; sorted = v.sorted; same_due = v.same_due },
      )

  -- Either the last timer interrupt stays while the machine idles, or the handler runs.
  pub fire-cases :
      (x : PendingInterrupt Routine) (rest : List (PendingInterrupt Routine))
      (s : Interrupt Routine World)
      → s.level ≡ int_off
      → ((fire call x (record s { pending = rest }) ≡ some (false, record s { pending = x ∷ rest }))
          × (rest ≡ [])
          × (is_idle s.status ≡ true)
          × (is_timer x.type ≡ true))
        ⊎ ((t : Interrupt Routine World) × (fire call x (record s { pending = rest })
              ≡ some (true, t))
            × (invoke call x (record s { pending = rest }) ≡ some t)
            × Resumed (record s { pending = rest }) t
            × Serves (record s { pending = rest }) t)
  unfolding fire insert_pending
  fire-cases x [] s off =
      let (t, e, r, v) = invoke-Resumed x (record s { pending = [] }) off in
      elim (Bool-cases (is_idle s.status && is_timer x.type)) [
        | inl last ↦ inl (rw last refl, refl, ground arith, ground arith)
        | inr more ↦ inr (t, rw more (>>=-next _ e refl), e, r, v)
      ]
  fire-cases x (y ∷ ys) s off =
      let (t, e, r, v) = invoke-Resumed x (record s { pending = y ∷ ys }) off in
      inr (t, >>=-next _ e refl, e, r, v)

  -- `CheckIfDue(FALSE)`: nothing is due, the last timer interrupt stays, or the first one is fired.
  check_if_due-cases :
      (xs : List (PendingInterrupt Routine)) (s : Interrupt Routine World)
      → s.level ≡ int_off
      → IsSorted xs
      → ((p : List (PendingInterrupt Routine)) × (check_if_due call false
              (record s { pending = xs })
            ≡ some (false, record s { pending = p }))
          × IsSorted p
          × (due s.stats.total_ticks p ≡ due s.stats.total_ticks xs)
          × IsQuiet (record s { pending = p }))
        ⊎ ((x : PendingInterrupt Routine) × (rest : List (PendingInterrupt Routine))
            × (t : Interrupt Routine World) × (xs ≡ x ∷ rest)
            × (check_if_due call false (record s { pending = xs }) ≡ some (true, t))
            × (invoke call x (record s { pending = rest }) ≡ some t)
            × Resumed (record s { pending = rest }) t
            × Serves (record s { pending = rest }) t
            × (due s.stats.total_ticks xs ≡ x ∷ due s.stats.total_ticks rest))
  unfolding check_if_due
  check_if_due-cases [] s off sorted = inl ([], rw off refl, tt, refl, inl refl)
  check_if_due-cases (x ∷ rest) s off sorted = elim (Bool-cases (ltb s.stats.total_ticks x.when)) [
    | inl later ↦
        let none_due = due-NotBefore s.stats.total_ticks x.when rest (ground arith) sorted.0 in
        let same = due-insert_pending s.stats.total_ticks x rest (ground arith) in
        inl (
          insert_pending x rest,
          simp (off, later),
          insert_pending-IsSorted x rest sorted.1,
          ground (arith, same),
          inl (same ∙ none_due),
        )
    | inr now ↦ elim (fire-cases x rest s off) [
      | inl (e, empty, idling, timer) ↦ inl (
        x ∷ rest,
        simp (off, now, e),
        sorted,
        refl,
        inr (idling, x, ap (λ l. x ∷ l) empty, timer),
      )
      | inr (t, e, ran, r, v) ↦ inr (x, rest, t, refl, simp (off, now, e), ran, r, v, ground arith)
    ]
  ]

  -- What the loop leaves, when it has fired `xs`.
  abbrev pub Checked :
      List (PendingInterrupt Routine) → Interrupt Routine World → Interrupt Routine World → Type 0
  Checked xs s t =
      Fires call xs s t
      × Resumed s t
      × IsSorted t.pending
      × IsQuiet t
      × (due s.stats.total_ticks s.pending ≡ xs ++ due s.stats.total_ticks t.pending)

  Resumed-pending :
      {rest : List (PendingInterrupt Routine)} (xs : List (PendingInterrupt Routine))
      (s : Interrupt Routine World) {t : Interrupt Routine World}
      → Resumed (record s { pending = rest }) t
      → Resumed (record s { pending = xs }) t
  Resumed-pending xs s r = record {
    kept = record {
      total = r.kept.total;
      idle = r.kept.idle;
      system = r.kept.system;
      user = r.kept.user;
      level = r.kept.level;
    };
    status = r.status;
    out = r.out;
  }

  pub check_loop-Checked :
      (fuel : ℕ) (xs : List (PendingInterrupt Routine)) (s : Interrupt Routine World)
      → s.level ≡ int_off
      → IsSorted xs
      → length (due s.stats.total_ticks xs) < fuel
      → (fired : List (PendingInterrupt Routine)) × (t : Interrupt Routine World) × (check_loop call
            fuel
            (record s { pending = xs })
          ≡ some t)
        × Checked fired (record s { pending = xs }) t
  unfolding check_loop
  check_loop-Checked zero xs s off sorted enough = absurd (omega arith)
  check_loop-Checked (suc fuel) xs s off sorted enough = elim (check_if_due-cases xs s off sorted) [
    | inl (p, e, p_sorted, same, quiet) ↦ (
      [],
      record s { pending = p },
      >>=-next _ e refl,
      (
        done p,
        record {
          kept = record { total = refl; idle = refl; system = refl; user = refl; level = refl };
          status = refl;
          out = λ h. h;
        },
        p_sorted,
        quiet,
        sym same,
      ),
    )
    | inr (x, rest, t, split, e, ran, r, v, first_due) ↦
        let now = s.stats.total_ticks in
        let here_sorted = subst (λ l. IsSorted l) split sorted in
        let same : due t.stats.total_ticks t.pending ≡ due now rest =
          ap (λ n. due n t.pending) r.kept.total ∙ v.same_due in
        let shorter : length (due now xs) ≡ suc (length (due now rest)) = ap length first_due in
        let (fired, u, looped, (fires, r', u_sorted, quiet, dues)) =
          check_loop-Checked fuel t.pending t (r.kept.level ∙ off) (v.sorted (here_sorted.1))
            (omega (arith, shorter, enough, ap length same)) in
        (
          x ∷ fired,
          u,
          >>=-next _ e looped,
          (
            next rest split ran fires,
            Resumed-trans (Resumed-pending xs s r) r',
            u_sorted,
            quiet,
            first_due
                ∙ ap (λ l. x ∷ l)
                    (sym same ∙ dues ∙ ap (λ n. fired ++ due n u.pending) r.kept.total),
          ),
        )
  ]
