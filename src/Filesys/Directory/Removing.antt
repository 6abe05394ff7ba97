-- ===== src/Filesys/Directory/Removing.antt =====
-- `Directory::Remove` and lookup after it.
use cop5614nachos.Base.{
  ℕ, ◌<◌, ◌≡◌, ◌≢◌, ◌↔◌, refl, sym, ◌∙◌, inl, inr, true, false, none, some, if◌then◌else◌, Array,
  update, arith, ◌==◌, Bool-cases,
}
use cop5614nachos.Base.Loops.{IsFirst}
use cop5614nachos.Filesys.Directory.{Directory, same_name, names, find_index, find, remove}
use cop5614nachos.Filesys.Directory.Names.{
  same_name_trans, same_name-sym, IsUnique, find-none, find-some, index-none, index-cases,
  index-same,
}

abbrev pub removed : Directory → ℕ → Directory
removed d i = record d { table = update d.table i (record (d.table i) { in_use = false }) }

-- `Remove` says FALSE, and changes nothing, exactly when the name is not there.
pub remove-false :
    (d : Directory) (name : Array ℕ) → (remove d name ≡ (false, d)) ↔ (find d name ≡ none)
unfolding remove
remove-false d name = elim (index-cases d name) [
  | inl (absent, out) ↦ (λ e. find-none d name absent, λ e. rw (absent, remove) refl)
  | inr (k, found, f) ↦ (λ e. ground (arith, found), λ e. ground (arith, find-some d name found))
]

remove-removed :
    (d : Directory) (name : Array ℕ) {d' : Directory}
    → remove d name ≡ (true, d')
    → (k : ℕ) × (find_index d name ≡ some k)
      × IsFirst d.table_size 0 (names d name) k
      × (d' ≡ removed d k)
unfolding remove
remove-removed d name e = elim (index-cases d name) [
  | inl (absent, out) ↦ ground (arith, absent)
  | inr (k, found, f) ↦ (k, found, f, ground (arith, found))
]

-- `Remove` of a name that is there.
pub remove-true :
    (d : Directory) (name : Array ℕ) {s : ℕ}
    → find d name ≡ some s
    → (k : ℕ) × (remove d name ≡ (true, removed d k))
unfolding remove
remove-true d name there = elim (index-cases d name) [
  | inl (missing, out) ↦ ground (arith, find-none d name missing)
  | inr (k, found, f) ↦ (k, rw (found, remove) refl)
]

module _ (d : Directory) (u : IsUnique d) (name : Array ℕ) (k : ℕ)
    (f : IsFirst d.table_size 0 (names d name) k) where
  -- After the removal no entry has the name, and each other name has the entries it had.
  names-removed :
      (name' : Array ℕ) (j : ℕ)
      → j < d.table_size
      → names (removed d k) name' j ≡ (if same_name name name' then false else names d name' j)
  names-removed name' j lt =
      let held = same_name_trans (d.table k).name name name' in
      elim (Bool-cases (j == k)) [
        | inl e ↦ let at : j ≡ k = ground arith in rw at (ground (arith, held, f.passes))
        | inr ne ↦
            let apart : j ≢ k = ground arith in
            ground (
              arith,
              held,
              f.passes,
              f.to,
              u.unique k j,
              same_name_trans (d.table k).name name' (d.table j).name,
              same_name-sym (d.table j).name name',
            )
      ]

  find-removed_same :
      (name' : Array ℕ) → same_name name name' ≡ true → find (removed d k) name' ≡ none
  find-removed_same name' h =
      find-none (removed d k) name'
        (index-none (removed d k) name' λ j le lt. names-removed name' j (omega arith) ∙ rw h refl)

  find-removed_other :
      (name' : Array ℕ) → same_name name name' ≡ false → find (removed d k) name' ≡ find d name'
  find-removed_other name' h =
      let d' = removed d k in
      let same = index-same d d' name' refl λ j lt. names-removed name' j lt ∙ rw h refl in
      elim (index-cases d name') [
        | inl (e, out) ↦ find-none d' name' (same ∙ e) ∙ sym (find-none d name' e)
        | inr (l, e, g) ↦ find-some d' name' (same ∙ e) ∙ ground arith ∙ sym (find-some d name' e)
      ]

-- Where names are unique, `Remove` says TRUE only for a name that is there, and afterwards that name
-- finds nothing while every other name finds what it found before.
pub find-remove :
    (d : Directory) (name : Array ℕ) {d' : Directory}
    → IsUnique d
    → remove d name ≡ (true, d')
    → (find d name ≢ none)
      × ((name' : Array ℕ) → find d' name' ≡ (if same_name name name' then none else find d name'))
find-remove d name u e =
    let (k, found, f, eq) = remove-removed d name e in
    (
      λ absent. ground (arith, find-some d name found),
      λ name'. rw eq (elim (Bool-cases (same_name name name')) [
        | inl same ↦ rw same (find-removed_same d u name k f name' same)
        | inr other ↦ rw other (find-removed_other d u name k f name' other)
      ]),
    )
