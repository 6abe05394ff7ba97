-- ===== src/Filesys/Directory/Unique.antt =====
-- No operation of filesys/directory.cc makes a name stand twice.
use cop5614nachos.Base.{ℕ, ◌<◌, ◌≡◌, sym, ◌∙◌, inl, inr, true, Array, arith, ◌==◌, Bool-cases}
use cop5614nachos.Base.Text.{strncpy}
use cop5614nachos.Filesys.Directory.{
  file_name_max_len, DirectoryEntry, Directory, directory, same_name, add, remove,
}
use cop5614nachos.Filesys.Directory.Names.{same_name-sym, same_name-strncpy, IsUnique, index-cases}
use cop5614nachos.Filesys.Directory.Adding.{Added, added, add-Added}

pub directory-IsUnique :
    (size : ℕ) (garbage : Array DirectoryEntry) → IsUnique (directory size garbage)
unfolding directory
directory-IsUnique size garbage = record { unique = λ i j hi hj ui uj same. cc }

added-IsUnique :
    (d : Directory) (name : Array ℕ) (s i : ℕ)
    → Added d name i
    → IsUnique d
    → IsUnique (added d name s i)
added-IsUnique d name s i a u = record {
  unique = λ j k hj hk uj uk same. elim (Bool-cases (j == i)) [
    | inl ej ↦ elim (Bool-cases (k == i)) [
      | inl ek ↦ ground arith
      | inr ek ↦
          let copied : same_name (strncpy (d.table i).name name file_name_max_len) (d.table k).name
              ≡ true =
            rw (ej, ek) at same in
          let used : (d.table k).in_use ≡ true = rw ek at uk in
          absurd (
            clash k hk used
              (same_name-sym name (d.table k).name (sym (same_name-strncpy _ name _) ∙ copied)))
    ]
    | inr ej ↦ elim (Bool-cases (k == i)) [
      | inl ek ↦
          let copied : same_name (d.table j).name (strncpy (d.table i).name name file_name_max_len)
              ≡ true =
            rw (ej, ek) at same in
          let used : (d.table j).in_use ≡ true = rw ej at uj in
          absurd (
            clash j hj used (
              same_name-sym name (d.table j).name
                (sym (same_name-strncpy _ name _) ∙ same_name-sym (d.table j).name _ copied)))
      | inr ek ↦ u.unique j k hj hk (rw ej at uj) (rw ek at uk) (rw (ej, ek) at same)
    ]
  ];
}
  where
    clash :
        (j : ℕ)
        → j < d.table_size
        → (d.table j).in_use ≡ true
        → same_name (d.table j).name name ≡ true
        → ⊥
    clash j lt used same = ground (arith, a.nowhere j (omega arith) (omega arith))

-- `Add`, whether it says TRUE or FALSE, keeps the names of a directory unique.
pub add-IsUnique : (d : Directory) (name : Array ℕ) (s : ℕ) → IsUnique d → IsUnique (add d name s).1
unfolding add
add-IsUnique d name s u = elim (Bool-cases (add d name s).0) [
  | inl done ↦
      let (i, a, eq) = add-Added d name s {d' = (add d name s).1} (ground arith) in
      rw eq (added-IsUnique d name s i a u)
  | inr failed ↦ let same : (add d name s).1 ≡ d = ground arith in rw same u
]

-- `Remove`, whether it says TRUE or FALSE, keeps the names of a directory unique.
pub remove-IsUnique : (d : Directory) (name : Array ℕ) → IsUnique d → IsUnique (remove d name).1
unfolding remove
remove-IsUnique d name u = elim (index-cases d name) [
  | inl (absent, out) ↦ rw (absent, remove) u
  | inr (k, found, f) ↦
      rw (found, remove) (record { unique = λ i j hi hj ui uj same. ground (arith, u.unique i j) })
]
