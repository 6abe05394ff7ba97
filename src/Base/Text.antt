-- ===== src/Base/Text.antt =====
-- C strings, as the bytes from a pointer on: `strncmp(a, b, n) == 0` and `strncpy(to, from, n)`.
use Prim.Native.Nat.{ℕ, zero, suc, ◌+◌, ◌≤◌}
use mathlib.Core.Path.{◌≡◌, refl}
use mathlib.Core.Logic.{inl, inr}
use mathlib.Core.Bool.{Bool, true, false, ◌||◌}
use mathlib.Core.List.{List, [], ◌∷◌}
use native.Mathlib.Omega.{arith}
use native.Mathlib.Numerals.{add-one}
use cop5614nachos.Base.Tests.{ltb, ◌==◌, if◌then◌else◌, Bool-cases}
use cop5614nachos.Base.Arrays.{Array}

-- `strncmp(&a[i], &b[i], n) == 0`
unfoldable pub same_text : ℕ → ℕ → Array ℕ → Array ℕ → Bool
same_text zero i a b = true
same_text (suc n) i a b =
    let rest = same_text n (i + 1) a b in
    if a i == b i then (if a i == 0 then true else rest) else false

-- A NUL stands before index `j`.
unfoldable pub ended : Array ℕ → ℕ → Bool
ended a zero = false
ended a (suc j) = ended a j || a j == 0

-- `strncpy(to, from, n)`: the text, then zeros up to `n` bytes.
unfoldable pub strncpy : Array ℕ → Array ℕ → ℕ → Array ℕ
unfolding ended
strncpy to from n j = if ltb j n then (if ended from j then 0 else from j) else to j

-- The text itself, cut at `n` bytes.
unfoldable pub text : ℕ → ℕ → Array ℕ → List ℕ
text zero i a = []
text (suc n) i a = if a i == 0 then [] else a i ∷ text n (i + 1) a

-- The comparison tells whether the texts are the same.
pub same_text→text : (n i : ℕ) (a b : Array ℕ) → same_text n i a b ≡ true → text n i a ≡ text n i b
unfolding same_text text
same_text→text zero i a b h = refl
same_text→text (suc n) i a b h = ground (arith, same_text→text n (i + 1) a b)

pub text→same_text : (n i : ℕ) (a b : Array ℕ) → text n i a ≡ text n i b → same_text n i a b ≡ true
unfolding same_text text
text→same_text zero i a b h = refl
text→same_text (suc n) i a b h = ground (arith, text→same_text n (i + 1) a b)

-- A copy has the text of the original.
pub text-strncpy :
    (n i m : ℕ) (to from : Array ℕ)
    → i + n ≤ m
    → ended from i ≡ false
    → text n i (strncpy to from m) ≡ text n i from
unfolding text strncpy ended
text-strncpy zero i m to from le open_ = refl
text-strncpy (suc n) i m to from le open_ = elim (Bool-cases (from i == 0)) [
  | inl nul ↦ ground arith
  | inr more ↦
      let still : ended from (i + 1) ≡ false = rw add-one (rw (open_, more) refl) in
      ground (arith, text-strncpy n (i + 1) m to from (omega arith) still)
]
