-- ===== src/Filesys/Directory.antt =====
-- filesys/directory.cc and directory.h: the table of names. A name is the pointer to its bytes, and
-- counts up to a NUL or nine bytes.
pub mod Unique
pub mod Removing
pub mod Adding
pub mod Names
use cop5614nachos.Base.{
  ℕ, ◌+◌, Bool, true, false, not, Option, none, some, ◌&&◌, if◌then◌else◌, Array, update,
}
use cop5614nachos.Base.Loops.{first}
use cop5614nachos.Base.Text.{same_text, strncpy}

abbrev pub file_name_max_len : ℕ
file_name_max_len = 9

pub record DirectoryEntry : Type 0 where
  pub in_use : Bool
  pub sector : ℕ
  pub name : Array ℕ

pub record Directory : Type 0 where
  pub table_size : ℕ
  pub table : Array DirectoryEntry

-- The new entries hold anything but for `inUse`.
unfoldable pub directory : ℕ → Array DirectoryEntry → Directory
directory size garbage = record {
  table_size = size;
  table = λ i. record (garbage i) { in_use = false };
}

abbrev pub same_name : Array ℕ → Array ℕ → Bool
same_name a b = same_text file_name_max_len 0 a b

-- An entry that `FindIndex` returns.
abbrev pub names : Directory → Array ℕ → ℕ → Bool
names d name i = (d.table i).in_use && same_name (d.table i).name name

unfoldable pub find_index : Directory → Array ℕ → Option ℕ
unfolding first
find_index d name = first d.table_size 0 (names d name)

unfoldable pub find : Directory → Array ℕ → Option ℕ
unfolding find_index
find d name = elim (find_index d name) [ none ↦ none | some i ↦ some (d.table i).sector ]

abbrev pub new_entry : DirectoryEntry → Array ℕ → ℕ → DirectoryEntry
new_entry e name new_sector = record e {
  in_use = true;
  name = strncpy e.name name file_name_max_len;
  sector = new_sector;
}

-- An entry that `Add` takes.
abbrev pub unused : Directory → ℕ → Bool
unused d i = not (d.table i).in_use

unfoldable pub add : Directory → Array ℕ → ℕ → Bool × Directory
unfolding first find_index
add d name new_sector = elim (find_index d name) [
  | some i ↦ (false, d)
  | none ↦ elim (first d.table_size 0 (unused d)) [
    | none ↦ (false, d)
    | some i ↦ (true, record d { table = update d.table i (new_entry (d.table i) name new_sector) })
  ]
]

unfoldable pub remove : Directory → Array ℕ → Bool × Directory
unfolding find_index
remove d name = elim (find_index d name) [
  | none ↦ (false, d)
  | some i ↦ (true, record d { table = update d.table i (record (d.table i) { in_use = false }) })
]
