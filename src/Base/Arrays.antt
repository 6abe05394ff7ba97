-- ===== src/Base/Arrays.antt =====
-- C arrays as functions from an index, with one write and `bcopy`.
use Prim.Native.Nat.{ℕ, ◌+◌, ◌-◌}
use mathlib.Core.Path.{◌≡◌, refl}
use mathlib.Core.Bool.{◌&&◌}
use cop5614nachos.Base.Tests.{ltb, leb, ◌==◌, ==_refl, if◌then◌else◌}

abbrev pub Array {ℓ} : Type ℓ → Type ℓ
Array A = ℕ → A

-- `a[i] = v`
abbrev pub update {ℓ} : {A : Type ℓ} → Array A → ℕ → A → Array A
update a i v j = if j == i then v else a j

-- `bcopy(&from[source], &to[target], count)`
abbrev pub bcopy {ℓ} : {A : Type ℓ} → Array A → ℕ → Array A → ℕ → ℕ → Array A
bcopy from source to target count j =
    if leb target j && ltb j (target + count) then from (source + (j - target)) else to j

-- What was written is read back.
pub update-at {ℓ} : {A : Type ℓ} (a : Array A) (i : ℕ) (v : A) → update a i v i ≡ v
update-at a i v = rw (==_refl i) refl
