-- ===== src/Filesys/Directory/Adding.antt =====
-- `Directory::Add` and lookup after it: a directory is a finite map from names to sectors.
use cop5614nachos.Base.{
  ℕ, ◌<◌, ◌≡◌, ◌≢◌, ◌↔◌, refl, sym, ◌∙◌, ◌⊎◌, inl, inr, true, false, none, some, if◌then◌else◌,
  Array, update, arith, ◌==◌, Bool-cases,
}
use cop5614nachos.Base.Loops.{first-cases, IsNowhere}
use cop5614nachos.Filesys.Directory.{
  Directory, same_name, names, find_index, find, new_entry, unused, add,
}
use cop5614nachos.Filesys.Directory.Names.{
  same_name_trans, same_name-sym, same_name-strncpy, find-none, find-some, index-some, index-cases,
  index-same,
}

-- Where `Add` puts the entry.
pub record Added (d : Directory) (name : Array ℕ) (i : ℕ) : Type 0 where
  pub absent : find_index d name ≡ none
  pub nowhere : IsNowhere d.table_size 0 (names d name)
  pub slot : i < d.table_size
  pub free : (d.table i).in_use ≡ false

abbrev pub added : Directory → Array ℕ → ℕ → ℕ → Directory
added d name s i = record d { table = update d.table i (new_entry (d.table i) name s) }

module _ (d : Directory) (name : Array ℕ) (s i : ℕ) (a : Added d name i) where
  -- Which entries of the new table have a name.
  names-added :
      (name' : Array ℕ) (j : ℕ)
      → names (added d name s i) name' j
        ≡ (if j == i then same_name name name' else names d name' j)
  names-added name' j = elim (Bool-cases (j == i)) [
    | inl e ↦ rw e (same_name-strncpy (d.table i).name name name')
    | inr ne ↦ rw ne refl
  ]

  find-added_same :
      (name' : Array ℕ) → same_name name name' ≡ true → find (added d name s i) name' ≡ some s
  find-added_same name' h =
      find-some (added d name s i) name' (
        index-some (added d name s i) name' (record {
          from = omega arith;
          to = omega (arith, a.slot);
          passes = names-added name' i ∙ ground arith;
          before = λ j le lt.
              let other : (j == i) ≡ false = ground arith in
              names-added name' j
              ∙ rw other (
                  ground (
                    arith,
                    a.nowhere j (omega arith) (omega (arith, a.slot)),
                    same_name_trans name name' (d.table j).name h,
                    same_name-sym name (d.table j).name,
                    same_name-sym (d.table j).name name,
                    same_name-sym (d.table j).name name',
                    same_name-sym name' (d.table j).name,
                  ));
        }))
      ∙ ground arith

  find-added_other :
      (name' : Array ℕ)
      → same_name name name' ≡ false
      → find (added d name s i) name' ≡ find d name'
  find-added_other name' h =
      let d' = added d name s i in
      let same = index-same d d' name' refl λ j lt. names-added name' j ∙ ground (arith, a.free) in
      elim (index-cases d name') [
        | inl (e, out) ↦ find-none d' name' (same ∙ e) ∙ sym (find-none d name' e)
        | inr (k, e, f) ↦
            find-some d' name' (same ∙ e)
            ∙ ground (arith, a.free, f.passes)
            ∙ sym (find-some d name' e)
      ]

pub add-Added :
    (d : Directory) (name : Array ℕ) (s : ℕ) {d' : Directory}
    → add d name s ≡ (true, d')
    → (i : ℕ) × Added d name i × (d' ≡ added d name s i)
unfolding add
add-Added d name s e = elim (index-cases d name) [
  | inr (k, found, f) ↦ ground (arith, found)
  | inl (absent, out) ↦ elim (first-cases d.table_size 0 (unused d)) [
    | inl (full, used) ↦ ground (arith, absent, full)
    | inr (i, e', f) ↦ (
      i,
      record {
        absent = absent;
        nowhere = out;
        slot = omega (arith, f.to);
        free = ground (arith, f.passes);
      },
      ground (arith, absent, e'),
    )
  ]
]

-- `Add` says TRUE only for a name that was not there, and afterwards that name finds the new sector
-- while every other name finds what it found before.
pub find-add :
    (d : Directory) (name : Array ℕ) (s : ℕ) {d' : Directory}
    → add d name s ≡ (true, d')
    → (find d name ≡ none)
      × ((name' : Array ℕ)
          → find d' name' ≡ (if same_name name name' then some s else find d name'))
find-add d name s e =
    let (i, a, eq) = add-Added d name s e in
    (
      find-none d name a.absent,
      λ name'. rw eq (elim (Bool-cases (same_name name name')) [
        | inl same ↦ rw same (find-added_same d name s i a name' same)
        | inr other ↦ rw other (find-added_other d name s i a name' other)
      ]),
    )

-- `Add` says FALSE, and changes nothing, exactly when the name is there or every entry is in use.
pub add-false :
    (d : Directory) (name : Array ℕ) (s : ℕ)
    → (add d name s ≡ (false, d))
      ↔ ((find d name ≢ none) ⊎ ((j : ℕ) → j < d.table_size → (d.table j).in_use ≡ true))
unfolding add
add-false d name s = elim (index-cases d name) [
  | inr (k, found, f) ↦
      (λ e. inl λ absent. ground (arith, find-some d name found), λ why. rw (found, add) refl)
  | inl (absent, out) ↦ elim (first-cases d.table_size 0 (unused d)) [
    | inl (full, used) ↦ (
      λ e. inr λ j lt. ground (arith, used j (omega arith) (omega arith)),
      λ why. rw (absent, add, full) refl,
    )
    | inr (i, e', f) ↦ (
      λ e. ground (arith, absent, e'),
      λ why. elim why [
        | inl found ↦ absurd (found (find-none d name absent))
        | inr full ↦ ground (arith, full i (omega (arith, f.to)), f.passes)
      ],
    )
  ]
]

pub add-cases :
    (d : Directory) (name : Array ℕ) (s : ℕ)
    → (add d name s ≡ (false, d)) ⊎ ((d' : Directory) × (add d name s ≡ (true, d')))
unfolding add
add-cases d name s = elim (index-cases d name) [
  | inr (k, found, f) ↦ inl (rw (found, add) refl)
  | inl (absent, out) ↦ elim (first-cases d.table_size 0 (unused d)) [
    | inl (full, used) ↦ inl (rw (absent, add, full) refl)
    | inr (i, e', f) ↦ inr (added d name s i, rw (absent, add, e') refl)
  ]
]
