-- ===== src/Filesys/Directory/Names.antt =====
-- Names of filesys/directory.cc: `strncmp` as an equivalence, and what the search for a name finds.
use cop5614nachos.Base.{
  ℕ, ◌<◌, ◌≡◌, refl, sym, ◌∙◌, ◌⊎◌, inl, inr, true, false, none, some, Array, arith, Bool-cases,
}
use cop5614nachos.Base.Loops.{first-cases, first-none, first-some, IsFirst, IsNowhere, first-same}
use cop5614nachos.Base.Text.{strncpy, same_text→text, text→same_text, text-strncpy, ended}
use cop5614nachos.Filesys.Directory.{
  file_name_max_len, Directory, same_name, names, find_index, find,
}

-- `strncmp` on names is an equivalence.
pub same_name_trans : (a b c : Array ℕ) → same_name a b ≡ true → same_name a c ≡ same_name b c
same_name_trans a b c h =
    let ab = same_text→text file_name_max_len 0 a b h in
    elim (Bool-cases (same_name a c)) [
      | inl ac ↦
          ac
          ∙ sym (
              text→same_text file_name_max_len 0 b c
                (sym ab ∙ same_text→text file_name_max_len 0 a c ac))
      | inr ac ↦ elim (Bool-cases (same_name b c)) [
        | inl bc ↦
            let yes_ =
              text→same_text file_name_max_len 0 a c
                (ab ∙ same_text→text file_name_max_len 0 b c bc) in
            ground arith
        | inr bc ↦ ac ∙ sym bc
      ]
    ]

pub same_name-sym : (a b : Array ℕ) → same_name a b ≡ true → same_name b a ≡ true
same_name-sym a b h =
    text→same_text file_name_max_len 0 b a (sym (same_text→text file_name_max_len 0 a b h))

pub same_name-strncpy :
    (to from name : Array ℕ)
    → same_name (strncpy to from file_name_max_len) name ≡ same_name from name
same_name-strncpy to from name = same_name_trans (strncpy to from file_name_max_len) from name (
    text→same_text file_name_max_len 0 _ _
      (text-strncpy file_name_max_len 0 file_name_max_len to from (omega arith) nothing_before))
  where
    nothing_before : ended from 0 ≡ false
    nothing_before = unfold ended in refl

pub same_name_self : (a : Array ℕ) → same_name a a ≡ true
same_name_self a = text→same_text file_name_max_len 0 a a refl

-- No name stands twice among the entries in use.
pub record IsUnique (d : Directory) : Type 0 where
  pub unique :
      (i j : ℕ)
      → i < d.table_size
      → j < d.table_size
      → (d.table i).in_use ≡ true
      → (d.table j).in_use ≡ true
      → same_name (d.table i).name (d.table j).name ≡ true
      → i ≡ j

-- `Find` by its search.
pub find-none : (d : Directory) (name : Array ℕ) → find_index d name ≡ none → find d name ≡ none
unfolding find
find-none d name e = rw (e, find) refl

pub find-some :
    (d : Directory) (name : Array ℕ) {k : ℕ}
    → find_index d name ≡ some k
    → find d name ≡ some (d.table k).sector
unfolding find
find-some d name e = rw (e, find) refl

-- The search succeeds at the first entry of the name.
pub index-some :
    (d : Directory) (name : Array ℕ) {k : ℕ}
    → IsFirst d.table_size 0 (names d name) k
    → find_index d name ≡ some k
unfolding find_index
index-some d name f = first-some d.table_size 0 (names d name) f

pub index-none :
    (d : Directory) (name : Array ℕ)
    → IsNowhere d.table_size 0 (names d name)
    → find_index d name ≡ none
unfolding find_index
index-none d name out = first-none d.table_size 0 (names d name) out

pub index-cases :
    (d : Directory) (name : Array ℕ)
    → ((find_index d name ≡ none) × IsNowhere d.table_size 0 (names d name))
      ⊎ ((k : ℕ) × (find_index d name ≡ some k) × IsFirst d.table_size 0 (names d name) k)
unfolding find_index
index-cases d name = first-cases d.table_size 0 (names d name)

pub index-same :
    (d d' : Directory) (name : Array ℕ)
    → d'.table_size ≡ d.table_size
    → ((j : ℕ) → j < d.table_size → names d' name j ≡ names d name j)
    → find_index d' name ≡ find_index d name
unfolding find_index
index-same d d' name size same =
    rw size
      (first-same d.table_size 0 (names d' name) (names d name) λ j le lt. same j (omega arith))
