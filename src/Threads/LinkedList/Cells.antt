-- ===== src/Threads/LinkedList/Cells.antt =====
-- The sequence that a list of cells stands for.
use cop5614nachos.Base.{
  ℕ, ◌<◌, ◌≡◌, refl, Bool, true, false, ◌||◌, Option, none, some, List, [], ◌∷◌, ◌++◌, ◌==◌, Array,
  update, arith, Bool-cases, inl, inr,
}
use cop5614nachos.Threads.LinkedList.{ListElement, Store, LinkedList}

-- Address, key and item of each cell, in order.
abbrev pub Cells : Type 0
Cells = List (ℕ × ℕ × ℕ)

-- The keys and items of a list.
abbrev pub Entries : Type 0
Entries = List (ℕ × ℕ)

abbrev pub entries : Cells → Entries
entries [] = []
entries ((a, k, x) ∷ cs) = (k, x) ∷ entries cs

abbrev pub head_of : Cells → Option ℕ
head_of [] = none
head_of ((a, k, x) ∷ cs) = some a

abbrev pub last_of : Cells → Option ℕ
last_of [] = none
last_of ((a, k, x) ∷ []) = some a
last_of (c ∷ d ∷ cs) = last_of (d ∷ cs)

abbrev pub has : ℕ → Cells → Bool
has b [] = false
has b ((a, k, x) ∷ cs) = b == a || has b cs

abbrev pub Distinct : Cells → Type 0
Distinct [] = Unit
Distinct ((a, k, x) ∷ cs) = (has a cs ≡ false) × Distinct cs

-- The cells are linked in this order, and the last one ends the list.
abbrev pub Linked : Array (Option ListElement) → Cells → Type 0
Linked cell [] = Unit
Linked cell ((a, k, x) ∷ cs) =
    (cell a ≡ some (record { next = head_of cs; key = k; item = x })) × Linked cell cs

-- The list `l` in the store `s` consists of these cells.
pub record Holds (s : Store) (l : LinkedList) (cs : Cells) : Type 0 where
  pub starts : l.first ≡ head_of cs
  pub ends : l.last ≡ last_of cs
  pub linked : Linked s.cell cs
  pub distinct : Distinct cs
  pub below : (a : ℕ) → has a cs ≡ true → a < s.limit

-- The list stands for a sequence of keys and items.
pub record Represents (s : Store) (l : LinkedList) (xs : Entries) : Type 0 where
  pub cells : Cells
  pub holds : Holds s l cells
  pub view : entries cells ≡ xs

-- Changes elsewhere leave the cells linked.
pub Linked-frame :
    (cell cell' : Array (Option ListElement)) (cs : Cells)
    → Linked cell cs
    → ((a : ℕ) → has a cs ≡ true → cell' a ≡ cell a)
    → Linked cell' cs
Linked-frame cell cell' [] h same = tt
Linked-frame cell cell' ((a, k, x) ∷ cs) h same =
    (ground (arith, same a), Linked-frame cell cell' cs h.1 (λ b m. same b (ground arith)))

pub has-append : (b : ℕ) (cs ds : Cells) → has b (cs ++ ds) ≡ (has b cs || has b ds)
has-append b [] ds = refl
has-append b ((a, k, x) ∷ cs) ds = ground (arith, has-append b cs ds)

pub Distinct-append :
    (cs : Cells) (a k x : ℕ) → Distinct cs → has a cs ≡ false → Distinct (cs ++ (a, k, x) ∷ [])
Distinct-append [] a k x d out = (refl, tt)
Distinct-append ((b, j, y) ∷ cs) a k x d out =
    (ground (arith, has-append b cs ((a, k, x) ∷ [])), Distinct-append cs a k x d.1 (ground arith))

pub entries-append :
    (cs : Cells) (a k x : ℕ) → entries (cs ++ (a, k, x) ∷ []) ≡ entries cs ++ (k, x) ∷ []
entries-append [] a k x = refl
entries-append ((b, j, y) ∷ cs) a k x = rw (entries-append cs a k x) refl

pub last_of-append : (cs : Cells) (a k x : ℕ) → last_of (cs ++ (a, k, x) ∷ []) ≡ some a
last_of-append [] a k x = refl
last_of-append (c ∷ []) a k x = refl
last_of-append (c ∷ d ∷ cs) a k x = last_of-append (d ∷ cs) a k x

-- The last address, which is one of the cells.
pub last_of-has :
    (a k x : ℕ) (cs : Cells)
    → (z : ℕ) × (last_of ((a, k, x) ∷ cs) ≡ some z) × (has z ((a, k, x) ∷ cs) ≡ true)
last_of-has a k x [] = (a, refl, ground arith)
last_of-has a k x ((b, j, y) ∷ cs) = let (z, e, m) = last_of-has b j y cs in (z, e, ground arith)

-- The address that `new` takes is not in the list.
pub limit-new : (s : Store) (l : LinkedList) (cs : Cells) → Holds s l cs → has s.limit cs ≡ false
limit-new s l cs h = elim (Bool-cases (has s.limit cs)) [
  | inl m ↦ absurd (omega (arith, h.below s.limit m))
  | inr out ↦ out
]

-- An address out of the list is none of the list's addresses.
pub has-apart : (a z : ℕ) (cs : Cells) → has a cs ≡ false → has z cs ≡ true → (a == z) ≡ false
has-apart a z [] out m = cc
has-apart a z ((b, k, x) ∷ cs) out m = elim (Bool-cases (z == b)) [
  | inl e ↦ ground arith
  | inr ne ↦ has-apart a z cs (ground arith) (ground arith)
]

pub has-new : (a z : ℕ) (cs : Cells) → has a cs ≡ false → has z cs ≡ true → (z == a) ≡ false
has-new a z cs out m = ground (arith, has-apart a z cs out m)

-- Two writes leave another cell as it was.
pub update-apart :
    {A : Type 0} (cell : Array A) (n z a : ℕ) (u v : A)
    → (a == n) ≡ false
    → (a == z) ≡ false
    → update (update cell n u) z v a ≡ cell a
update-apart cell n z a u v n_apart z_apart = rw (z_apart, n_apart) refl
