-- ===== src/Threads/LinkedList/Pigeonhole.antt =====
-- A list of distinct cells has no more of them than there are addresses.
use cop5614nachos.Base.{
  ℕ, zero, suc, ◌+◌, ◌≤◌, ◌<◌, ◌≡◌, refl, true, false, not, ◌&&◌, [], ◌∷◌, ◌==◌, arith, Bool-cases,
  inl, inr, if◌then◌else◌,
}
use cop5614nachos.Base.Lists.{length}
use cop5614nachos.Threads.LinkedList.Cells.{Cells, has, Distinct}

-- The cells at other addresses.
abbrev elsewhere : ℕ → Cells → Cells
elsewhere m [] = []
elsewhere m ((a, k, x) ∷ cs) =
    let others = elsewhere m cs in if a == m then others else (a, k, x) ∷ others

has-elsewhere : (m b : ℕ) (cs : Cells) → has b (elsewhere m cs) ≡ (has b cs && not (b == m))
has-elsewhere m b [] = refl
has-elsewhere m b ((a, k, x) ∷ cs) = elim (Bool-cases (a == m)) [
  | inl e ↦ rw e (ground (arith, has-elsewhere m b cs))
  | inr ne ↦ rw ne (ground (arith, has-elsewhere m b cs))
]

elsewhere-Distinct : (m : ℕ) (cs : Cells) → Distinct cs → Distinct (elsewhere m cs)
elsewhere-Distinct m [] d = tt
elsewhere-Distinct m ((a, k, x) ∷ cs) d = elim (Bool-cases (a == m)) [
  | inl e ↦ rw e (elsewhere-Distinct m cs d.1)
  | inr ne ↦ rw ne (ground (arith, has-elsewhere m a cs), elsewhere-Distinct m cs d.1)
]

elsewhere-new : (m : ℕ) (cs : Cells) → has m cs ≡ false → elsewhere m cs ≡ cs
elsewhere-new m [] out = refl
elsewhere-new m ((a, k, x) ∷ cs) out =
    let apart : (a == m) ≡ false = ground arith in
    rw (apart, elsewhere-new m cs (ground arith)) refl

length-elsewhere : (m : ℕ) (cs : Cells) → Distinct cs → length cs ≤ length (elsewhere m cs) + 1
length-elsewhere m [] d = omega arith
length-elsewhere m ((a, k, x) ∷ cs) d = elim (Bool-cases (a == m)) [
  | inl e ↦
      let out : has m cs ≡ false = ground (arith, d.0) in
      rw (e, elsewhere-new m cs out) (omega arith)
  | inr ne ↦ rw ne (omega (arith, length-elsewhere m cs d.1))
]

pub length-limit :
    (limit : ℕ) (cs : Cells)
    → Distinct cs
    → ((a : ℕ) → has a cs ≡ true → a < limit)
    → length cs ≤ limit
length-limit zero [] d below = omega arith
length-limit zero ((a, k, x) ∷ cs) d below = absurd (omega (arith, below a (ground arith)))
length-limit (suc m) cs d below = omega (
  arith,
  length-elsewhere m cs d,
  length-limit m (elsewhere m cs) (elsewhere-Distinct m cs d)
      λ a in_rest. ground (arith, has-elsewhere m a cs, below a),
)
