-- ===== src/Witnesses/Lists.antt =====
-- Lists of threads/list.cc with one and with two cells.
use cop5614nachos.Base.{ℕ, ◌≡◌, refl, ◌++◌, none, some, [], ◌∷◌, ◌==◌, if◌then◌else◌, arith}
use cop5614nachos.Threads.LinkedList.{
  Store, LinkedList, append, sorted_remove, sorted_insert, remove_by_element,
}
use cop5614nachos.Threads.LinkedList.Cells.{Entries, Linked, Holds, Represents}
use cop5614nachos.Threads.LinkedList.Ends.{
  append-Represents, first_entry, rest, sorted_remove-Represents,
}
use cop5614nachos.Threads.LinkedList.Sorted.{insert_sorted}
use cop5614nachos.Threads.LinkedList.SortedInsert.{sorted_insert-Represents}
use cop5614nachos.Threads.LinkedList.Lookup.{remove_by_element-last}

abbrev one_store : Store
one_store = record {
  cell = λ a. if a == 0 then some (record { next = none; key = 5; item = 50 }) else none;
  limit = 1;
}

abbrev one_list : LinkedList
one_list = record { first = some 0; last = some 0 }

abbrev one_entry : Entries
one_entry = (5, 50) ∷ []

one_list-Represents : Represents one_store one_list one_entry
one_list-Represents = record {
  cells = (0, 5, 50) ∷ [];
  holds = record {
    starts = refl;
    ends = refl;
    linked = (refl, tt);
    distinct = (refl, tt);
    below = λ a m. ground arith;
  };
  view = refl;
}

append-Represents_example :
    (l' : LinkedList) × (s' : Store) × (append 60 one_list one_store ≡ some (l', s'))
    × Represents s' l' (one_entry ++ (0, 60) ∷ [])
append-Represents_example = append-Represents 60 one_list one_store one_list-Represents

sorted_remove-Represents_example :
    (l' : LinkedList) × (s' : Store) × (sorted_remove one_list one_store
      ≡ some (first_entry one_entry, l', s'))
    × Represents s' l' (rest one_entry)
sorted_remove-Represents_example = sorted_remove-Represents one_list one_store one_list-Represents

sorted_insert-Represents_example :
    (l' : LinkedList) × (s' : Store) × (sorted_insert 60 3 one_list one_store ≡ some (l', s'))
    × Represents s' l' (insert_sorted 3 60 one_entry)
sorted_insert-Represents_example =
    sorted_insert-Represents 60 3 one_list one_store one_list-Represents

abbrev two_store : Store
two_store = record {
  cell = λ a.
      if a == 0
      then some (record { next = some 1; key = 0; item = 50 })
      else if a == 1
      then some (record { next = none; key = 0; item = 60 })
      else none;
  limit = 2;
}

abbrev two_list : LinkedList
two_list = record { first = some 0; last = some 1 }

two_list-Holds : Holds two_store two_list ((0, 0, 50) ∷ (1, 0, 60) ∷ [])
two_list-Holds = record {
  starts = refl;
  ends = refl;
  linked = (refl, (refl, tt));
  distinct = (refl, (refl, tt));
  below = λ a m. ground arith;
}

remove_by_element-last_example :
    (l' : LinkedList) × (s' : Store) × (remove_by_element 60 two_list two_store ≡ some (60, l', s'))
    × (l'.first ≡ some 0)
    × Linked s'.cell ((0, 0, 50) ∷ [])
    × (s'.cell 1 ≡ none)
    × (l'.last ≡ none)
    × ((y : ℕ) → append y l' s' ≡ none)
remove_by_element-last_example =
    remove_by_element-last 60 two_list two_store 0 0 50 [] 1 0 two_list-Holds (refl, tt)
