-- ===== src/Base/Search.antt =====
-- Whether a value stands in a part of an array.
use Prim.Native.Nat.{ℕ, zero, suc, ◌+◌, ◌≤◌, ◌<◌}
use mathlib.Core.Path.{◌≡◌}
use mathlib.Core.Logic.{◌≢◌, ◌⊎◌, inl, inr}
use native.Mathlib.Omega.{arith}
use cop5614nachos.Base.Tests.{◌==◌, Bool-cases, le-cases}
use cop5614nachos.Base.Arrays.{Array}

-- At which index from `i` on, among `rounds`, the array holds `s`, or that it does not.
pub index_of :
    (rounds i : ℕ) (table : Array ℕ) (s : ℕ)
    → ((j : ℕ) × (i ≤ j) × (j < i + rounds) × (table j ≡ s))
      ⊎ ((j : ℕ) → i ≤ j → j < i + rounds → table j ≢ s)
index_of zero i table s = inr λ j le lt. absurd (omega arith)
index_of (suc rounds) i table s = elim (Bool-cases (table i == s)) [
  | inl e ↦ inl (i, omega arith, omega arith, ground arith)
  | inr ne ↦ elim (index_of rounds (i + 1) table s) [
    | inl (j, le, lt, e) ↦ inl (j, omega arith, omega arith, e)
    | inr out ↦ inr λ j le lt e. elim (le-cases i j le) [
      | inl here ↦ ground arith
      | inr later ↦ out j later (omega arith) e
    ]
  ]
]
