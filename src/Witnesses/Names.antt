-- ===== src/Witnesses/Names.antt =====
-- A directory of three entries that holds the name "A" at sector 7.
use cop5614nachos.Base.{ℕ, ◌≡◌, refl, true, Array, ◌==◌, if◌then◌else◌, some, none}
use cop5614nachos.Base.Loops.{first}
use cop5614nachos.Base.Text.{same_text, strncpy}
use cop5614nachos.Filesys.Directory.{
  Directory, DirectoryEntry, directory, same_name, find, find_index, add,
}
use cop5614nachos.Filesys.Directory.Adding.{find-add}

abbrev name_a : Array ℕ
name_a = λ i. if i == 0 then 65 else 0

abbrev name_b : Array ℕ
name_b = λ i. if i == 0 then 66 else 0

abbrev blank : Array DirectoryEntry
blank = λ i. record { in_use = true; sector = i; name = name_b }

abbrev no_names : Directory
no_names = directory 3 blank

abbrev one_name : Directory
one_name = (add no_names name_a 7).1

find-add_example :
    (find one_name name_b ≡ none)
    × ((name : Array ℕ)
        → find (add one_name name_b 9).1 name
          ≡ (if same_name name_b name then some 9 else find one_name name))
unfolding add directory find_index first same_text strncpy
find-add_example = find-add one_name name_b 9 refl
