-- ===== src/Machine/Interrupt/Pending.antt =====
-- The list of pending interrupts: sorted by time, and what of it is due.
use cop5614nachos.Base.{
  ℕ, ◌≤◌, ◌<◌, ◌≡◌, refl, List, [], ◌∷◌, inl, inr, arith, ltb, leb, Bool-cases, if◌then◌else◌,
}
use cop5614nachos.Machine.Interrupt.{PendingInterrupt, insert_pending}

module _ {Routine : Type 0} where
  abbrev pub NotBefore : ℕ → List (PendingInterrupt Routine) → Type 0
  NotBefore time [] = Unit
  NotBefore time (x ∷ xs) = (time ≤ x.when) × NotBefore time xs

  abbrev pub IsSorted : List (PendingInterrupt Routine) → Type 0
  IsSorted [] = Unit
  IsSorted (x ∷ xs) = NotBefore x.when xs × IsSorted xs

  -- The interrupts whose time has come, in the order of the list.
  abbrev pub due : ℕ → List (PendingInterrupt Routine) → List (PendingInterrupt Routine)
  due now [] = []
  due now (x ∷ xs) = let rest = due now xs in if leb x.when now then x ∷ rest else rest

  pub NotBefore-insert_pending :
      (time : ℕ) (x : PendingInterrupt Routine) (xs : List (PendingInterrupt Routine))
      → time ≤ x.when
      → NotBefore time xs
      → NotBefore time (insert_pending x xs)
  unfolding insert_pending
  NotBefore-insert_pending time x [] le all = (le, tt)
  NotBefore-insert_pending time x (y ∷ ys) le all = elim (Bool-cases (ltb x.when y.when)) [
    | inl front ↦ rw front (le, all)
    | inr later ↦ rw later (all.0, NotBefore-insert_pending time x ys le all.1)
  ]

  pub NotBefore-earlier :
      (time sooner : ℕ) (xs : List (PendingInterrupt Routine))
      → sooner ≤ time
      → NotBefore time xs
      → NotBefore sooner xs
  NotBefore-earlier time sooner [] le all = tt
  NotBefore-earlier time sooner (x ∷ xs) le all =
      (omega (arith, all.0), NotBefore-earlier time sooner xs le all.1)

  pub insert_pending-IsSorted :
      (x : PendingInterrupt Routine) (xs : List (PendingInterrupt Routine))
      → IsSorted xs
      → IsSorted (insert_pending x xs)
  unfolding insert_pending
  insert_pending-IsSorted x [] sorted = (tt, tt)
  insert_pending-IsSorted x (y ∷ ys) sorted = elim (Bool-cases (ltb x.when y.when)) [
    | inl front ↦
        rw front
          ((ground arith, NotBefore-earlier y.when x.when ys (ground arith) sorted.0), sorted)
    | inr later ↦ rw later (
      NotBefore-insert_pending y.when x ys (ground arith) sorted.0,
      insert_pending-IsSorted x ys sorted.1,
    )
  ]

  pub due-NotBefore :
      (now time : ℕ) (xs : List (PendingInterrupt Routine))
      → now < time
      → NotBefore time xs
      → due now xs ≡ []
  due-NotBefore now time [] lt all = refl
  due-NotBefore now time (x ∷ xs) lt all = ground (arith, all.0, due-NotBefore now time xs lt all.1)

  -- What is scheduled for later is not due.
  pub due-insert_pending :
      (now : ℕ) (x : PendingInterrupt Routine) (xs : List (PendingInterrupt Routine))
      → now < x.when
      → due now (insert_pending x xs) ≡ due now xs
  unfolding insert_pending
  due-insert_pending now x [] lt = ground arith
  due-insert_pending now x (y ∷ ys) lt = elim (Bool-cases (ltb x.when y.when)) [
    | inl front ↦ rw front (ground arith)
    | inr later ↦ rw later (ground (arith, due-insert_pending now x ys lt))
  ]
