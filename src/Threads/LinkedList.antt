-- ===== src/Threads/LinkedList.antt =====
-- threads/list.cc and list.h: singly linked lists of cells in a store. An address is a number, a
-- NULL pointer is `none`, and so is the result of an operation that follows one, or reads a cell
-- that was deleted. Keys are not negative.
pub mod Cells
pub mod Ends
pub mod Pigeonhole
pub mod Sorted
pub mod SortedInsert
pub mod Lookup
use cop5614nachos.Base.{
  ℕ, zero, suc, ◌+◌, Bool, true, false, Option, none, some, ltb, ◌==◌, if◌then◌else◌, Array, update,
  ◌>>=◌, ◌>>◌, assert,
}

-- `item` is a pointer that the list only hands on.
pub record ListElement : Type 0 where
  pub next : Option ℕ
  pub key : ℕ
  pub item : ℕ

-- The heap: `new` takes the address `limit`, and no cell at or past it is in use.
pub record Store : Type 0 where
  pub cell : Array (Option ListElement)
  pub limit : ℕ

pub record LinkedList : Type 0 where
  pub first : Option ℕ
  pub last : Option ℕ

abbrev pub is_null : Option ℕ → Bool
is_null none = true
is_null (some a) = false

abbrev pub same_pointer : Option ℕ → Option ℕ → Bool
same_pointer none none = true
same_pointer none (some b) = false
same_pointer (some a) none = false
same_pointer (some a) (some b) = a == b

-- `*p`
abbrev pub load : Store → Option ℕ → Option ListElement
load s none = none
load s (some a) = s.cell a

abbrev pub store_cell : Store → ℕ → Option ListElement → Store
store_cell s a c = record s { cell = update s.cell a c }

-- `p->next = q`
abbrev pub set_next : Store → Option ℕ → Option ℕ → Option Store
set_next s none q = none
set_next s (some a) q = do e ← s.cell a; some (store_cell s a (some (record e { next = q })))

-- `new ListElement(item, key)` at the address `limit`.
abbrev pub new_element : Store → ℕ → ℕ → Store
new_element s item key = record s {
  cell = update s.cell s.limit (some (record { next = none; key = key; item = item }));
  limit = s.limit + 1;
}

abbrev pub delete_element : Store → ℕ → Store
delete_element s a = store_cell s a none

unfoldable pub empty_list : LinkedList
empty_list = record { first = none; last = none }

unfoldable pub is_empty : LinkedList → Bool
is_empty l = is_null l.first

unfoldable pub append : ℕ → LinkedList → Store → Option (LinkedList × Store)
unfolding is_empty
append item l s =
    let element : Option ℕ = some s.limit in
    let s1 = new_element s item 0 in
    if is_empty l
    then some (record { first = element; last = element }, s1)
    else do s2 ← set_next s1 l.last element; some (record l { last = element }, s2)

unfoldable pub prepend : ℕ → LinkedList → Store → Option (LinkedList × Store)
unfolding is_empty
prepend item l s =
    let element : Option ℕ = some s.limit in
    let s1 = new_element s item 0 in
    if is_empty l
    then some (record { first = element; last = element }, s1)
    else do s2 ← set_next s1 element l.first; some (record l { first = element }, s2)

-- The item, or NULL from an empty list, and the key where `keyPtr` points.
unfoldable pub sorted_remove : LinkedList → Store → Option (Option (ℕ × ℕ) × LinkedList × Store)
unfolding is_empty
sorted_remove l s = if is_empty l then some (none, l, s) else do
  a ← l.first
  e ← s.cell a
  let l' : LinkedList =
      if same_pointer l.first l.last
      then record { first = none; last = none }
      else record l { first = e.next }
  some (some (e.item, e.key), l', delete_element s a)

-- `Remove`, which ignores the key.
unfoldable pub remove : LinkedList → Store → Option (Option ℕ × LinkedList × Store)
unfolding sorted_remove
remove l s = do
  (found, l', s') ← sorted_remove l s
  some (elim found [ none ↦ none | some (item, key) ↦ some item ], l', s')

-- The loops run on fuel, the number of cells that were ever made; no path is longer.

-- `for (ptr = first; ptr->next != NULL; ptr = ptr->next)` of `SortedInsert`: the new store, or
-- `none` inside when the element goes to the end.
unfoldable pub insert_loop : ℕ → ℕ → ℕ → Option ℕ → Store → Option (Option Store)
insert_loop zero element sort_key ptr s = none
insert_loop (suc fuel) element sort_key ptr s = do
  e ← load s ptr
  elim e.next [
    | none ↦ some none
    | some a ↦ do
      following ← s.cell a
      elim (ltb sort_key following.key) [
        | true ↦ do
          s1 ← set_next s (some element) (some a)
          s2 ← set_next s1 ptr (some element)
          some (some s2)
        | false ↦ insert_loop fuel element sort_key (some a) s
      ]
  ]

unfoldable pub sorted_insert : ℕ → ℕ → LinkedList → Store → Option (LinkedList × Store)
unfolding is_empty insert_loop
sorted_insert item sort_key l s =
    let element : Option ℕ = some s.limit in
    let s1 = new_element s item sort_key in
    if is_empty l then some (record { first = element; last = element }, s1) else do
      e ← load s1 l.first
      elim (ltb sort_key e.key) [
        | true ↦ do s2 ← set_next s1 element l.first; some (record l { first = element }, s2)
        | false ↦ do
          inserted ← insert_loop s1.limit s.limit sort_key l.first s1
          elim inserted [
            | some s2 ↦ some (l, s2)
            | none ↦ do s2 ← set_next s1 l.last element; some (record l { last = element }, s2)
          ]
      ]

-- `while (cur != NULL && cur->key != sortKey)`
unfoldable pub search_loop : ℕ → ℕ → Option ℕ → Store → Option (Option ℕ)
search_loop fuel sort_key none s = some none
search_loop zero sort_key (some a) s = none
search_loop (suc fuel) sort_key (some a) s = do
  e ← s.cell a
  elim (e.key == sort_key) [
    | true ↦ some (some e.item)
    | false ↦ search_loop fuel sort_key e.next s
  ]

-- The item with the key, or NULL.
unfoldable pub search_key : ℕ → LinkedList → Store → Option (Option ℕ)
unfolding search_loop
search_key sort_key l s = search_loop s.limit sort_key l.first s

-- `while (cur != NULL && cur->item != e)`: `pcur` and `cur`. Not to find the item fails an `ASSERT`.
unfoldable pub find_item : ℕ → ℕ → Option ℕ → Option ℕ → Store → Option (Option ℕ × ℕ)
find_item fuel item pcur none s = none
find_item zero item pcur (some a) s = none
find_item (suc fuel) item pcur (some a) s = do
  e ← s.cell a
  elim (e.item == item) [ true ↦ some (pcur, a) | false ↦ find_item fuel item (some a) e.next s ]

unfoldable pub remove_by_element : ℕ → LinkedList → Store → Option (ℕ × LinkedList × Store)
unfolding find_item
remove_by_element item l s = do
  (pcur, cur) ← find_item s.limit item none l.first s
  e ← s.cell cur
  s1 ← elim pcur [ none ↦ some s | some p ↦ set_next s (some p) e.next ]
  let l1 : LinkedList = if is_null pcur then record l { first = e.next } else l
  let l2 : LinkedList = if same_pointer l.last (some cur) then record l1 { last = none } else l1
  some (e.item, l2, delete_element s1 cur)

-- `Mapcar`: `func` acts on the kernel's state.
unfoldable pub mapcar {ℓ} : {S : Type ℓ} → (ℕ → S → S) → ℕ → Option ℕ → Store → S → Option S
mapcar func fuel none s state = some state
mapcar func zero (some a) s state = none
mapcar func (suc fuel) (some a) s state = do
  e ← s.cell a
  mapcar func fuel e.next s (func e.item state)
