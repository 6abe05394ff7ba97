-- ===== src/Base/Loops.antt =====
-- The loop `for (i = i; i < i + rounds; i++) if (p(i)) return i; return -1;`, which the tables of
-- the kernel are searched by.
use Prim.Native.Nat.{ℕ, zero, suc, ◌+◌, ◌≤◌, ◌<◌}
use mathlib.Core.Path.{◌≡◌, refl}
use mathlib.Core.Logic.{◌⊎◌, inl, inr}
use mathlib.Core.Bool.{Bool, true, false}
use mathlib.Core.Option.{Option, none, some}
use native.Mathlib.Omega.{arith}
use cop5614nachos.Base.Tests.{if◌then◌else◌, Bool-cases, le-cases}

unfoldable pub first : ℕ → ℕ → (ℕ → Bool) → Option ℕ
first zero i p = none
first (suc rounds) i p = let rest = first rounds (i + 1) p in if p i then some i else rest

-- `k` is the first index from `i` on, among `rounds`, that passes the test.
pub record IsFirst (rounds i : ℕ) (p : ℕ → Bool) (k : ℕ) : Type 0 where
  pub from : i ≤ k
  pub to : k < i + rounds
  pub passes : p k ≡ true
  pub before : (j : ℕ) → i ≤ j → j < k → p j ≡ false

-- No index passes the test.
abbrev pub IsNowhere : ℕ → ℕ → (ℕ → Bool) → Type 0
IsNowhere rounds i p = (j : ℕ) → i ≤ j → j < i + rounds → p j ≡ false

pub first-cases :
    (rounds i : ℕ) (p : ℕ → Bool)
    → ((first rounds i p ≡ none) × IsNowhere rounds i p)
      ⊎ ((k : ℕ) × (first rounds i p ≡ some k) × IsFirst rounds i p k)
unfolding first
first-cases zero i p = inl (refl, λ j le lt. absurd (omega arith))
first-cases (suc rounds) i p = elim (Bool-cases (p i)) [
  | inl hit ↦ inr (
    i,
    rw hit refl,
    record {
      from = omega arith;
      to = omega arith;
      passes = hit;
      before = λ j le lt. absurd (omega arith);
    },
  )
  | inr miss ↦ elim (first-cases rounds (i + 1) p) [
    | inl (e, out) ↦ inl (
      rw miss e,
      λ j le lt. elim (le-cases i j le) [
        | inl at ↦ rw at miss
        | inr later ↦ out j later (omega arith)
      ],
    )
    | inr (k, e, f) ↦ inr (
      k,
      rw miss e,
      record {
        from = omega (arith, f.from);
        to = omega (arith, f.to);
        passes = f.passes;
        before = λ j le lt. elim (le-cases i j le) [
          | inl at ↦ rw at miss
          | inr later ↦ f.before j later lt
        ];
      },
    )
  ]
]

pub first-none : (rounds i : ℕ) (p : ℕ → Bool) → IsNowhere rounds i p → first rounds i p ≡ none
unfolding first
first-none zero i p out = refl
first-none (suc rounds) i p out =
    rw (out i (omega arith) (omega arith))
      (first-none rounds (i + 1) p λ j le lt. out j (omega arith) (omega arith))

pub first-some :
    (rounds i : ℕ) (p : ℕ → Bool) {k : ℕ} → IsFirst rounds i p k → first rounds i p ≡ some k
first-some rounds i p {k} f = elim (first-cases rounds i p) [
  | inl (e, out) ↦ ground (arith, out k f.from f.to, f.passes)
  | inr (l, e, g) ↦ ground (arith, f.before l g.from, g.before k f.from, g.passes, f.passes)
]

-- Two tests that agree find the same index.
pub first-same :
    (rounds i : ℕ) (p q : ℕ → Bool)
    → ((j : ℕ) → i ≤ j → j < i + rounds → p j ≡ q j)
    → first rounds i p ≡ first rounds i q
unfolding first
first-same zero i p q same = refl
first-same (suc rounds) i p q same = ground (
  arith,
  same i (omega arith) (omega arith),
  first-same rounds (i + 1) p q (λ j le lt. same j (omega arith) (omega arith)),
)
