-- ===== src/Threads/LinkedList/Lookup.antt =====
-- `Search` and the loop of `RemoveByElement`, with its effect on the end of the list.
use cop5614nachos.Base.{
  ℕ, zero, suc, ◌≤◌, ◌<◌, ◌≡◌, refl, sym, ◌∙◌, true, false, update, Option, none, some, [], ◌∷◌,
  ◌++◌, inl, inr, ◌==◌, arith, Bool-cases, if◌then◌else◌, >>=-next, ==_refl,
}
use cop5614nachos.Base.Lists.{length, length-append}
use cop5614nachos.Threads.LinkedList.{
  ListElement, Store, LinkedList, store_cell, delete_element, is_empty, append, search_loop,
  search_key, find_item, remove_by_element,
}
use cop5614nachos.Threads.LinkedList.Cells.{
  Cells, Entries, entries, head_of, has, Distinct, Linked, Holds, Represents, last_of-append,
  has-append, has-apart, update-apart,
}
use cop5614nachos.Threads.LinkedList.Pigeonhole.{length-limit}

-- The item of the first entry with the key.
abbrev pub lookup : ℕ → Entries → Option ℕ
lookup key [] = none
lookup key ((k, x) ∷ xs) = let later = lookup key xs in if k == key then some x else later

search_loop-lookup :
    (fuel key : ℕ) (s : Store) (cs : Cells)
    → Linked s.cell cs
    → length cs ≤ fuel
    → search_loop fuel key (head_of cs) s ≡ some (lookup key (entries cs))
unfolding search_loop
search_loop-lookup fuel key s [] linked enough = refl
search_loop-lookup zero key s ((a, k, x) ∷ cs) linked enough = absurd (omega arith)
search_loop-lookup (suc fuel) key s ((a, k, x) ∷ cs) linked enough =
    let rest = search_loop-lookup fuel key s cs linked.1 (omega arith) in
    elim (Bool-cases (k == key)) [
      | inl here ↦ >>=-next _ linked.0 (rw here refl)
      | inr later ↦ >>=-next _ linked.0 (rw later rest)
    ]

-- `Search` returns, with the item of the first entry that has the key, and NULL when none has.
pub search_key-lookup :
    (key : ℕ) (l : LinkedList) (s : Store) {xs : Entries}
    → Represents s l xs
    → search_key key l s ≡ some (lookup key xs)
unfolding search_key
search_key-lookup key l s r =
    let h = r.holds in
    let fits = length-limit s.limit r.cells h.distinct h.below in
    rw h.starts (search_loop-lookup s.limit key s r.cells h.linked fits ∙ rw r.view refl)

-- The item is in no cell.
abbrev pub Lacks : ℕ → Cells → Type 0
Lacks item [] = Unit
Lacks item ((a, k, x) ∷ cs) = ((x == item) ≡ false) × Lacks item cs

-- An address out of cells and a last one is none of them.
apart-append :
    (a : ℕ) (cs : Cells) (n j y : ℕ)
    → has a (cs ++ (n, j, y) ∷ []) ≡ false
    → (has a cs ≡ false) × ((a == n) ≡ false)
apart-append a cs n j y out =
    let both = sym (has-append a cs ((n, j, y) ∷ [])) ∙ out in (ground arith, ground arith)

-- The loop stops at the last cell, with the cell before it; unlinking the last one from that cell
-- and deleting it leaves the others linked.
find_item-last :
    (fuel item : ℕ) (s : Store) (pcur : Option ℕ) (a k x : ℕ) (cs : Cells) (n j : ℕ)
    → Linked s.cell ((a, k, x) ∷ cs ++ (n, j, item) ∷ [])
    → Distinct ((a, k, x) ∷ cs ++ (n, j, item) ∷ [])
    → Lacks item ((a, k, x) ∷ cs)
    → length ((a, k, x) ∷ cs) < fuel
    → (z : ℕ) × (e : ListElement) × (has z ((a, k, x) ∷ cs) ≡ true)
      × (s.cell z ≡ some e)
      × (s.cell n ≡ some (record { next = none; key = j; item = item }))
      × (find_item fuel item pcur (some a) s ≡ some (some z, n))
      × Linked (update (update s.cell z (some (record e { next = none }))) n none) ((a, k, x) ∷ cs)
unfolding find_item
find_item-last zero item s pcur a k x cs n j linked distinct lacks enough = absurd (omega arith)
find_item-last (suc zero) item s pcur a k x cs n j linked distinct lacks enough =
    absurd (omega arith)
find_item-last (suc (suc fuel)) item s pcur a k x [] n j linked distinct lacks enough = (
  a,
  record { next = some n; key = k; item = x },
  ground arith,
  linked.0,
  linked.1.0,
  >>=-next _ linked.0 (rw lacks.0 (>>=-next _ linked.1.0 (rw (==_refl item) refl))),
  (ground arith, tt),
)
find_item-last (suc fuel) item s pcur a k x ((b, l, y) ∷ cs) n j linked distinct lacks enough =
    let (z, e, m, at_z, at_n, found, rest) =
      find_item-last fuel item s (some a) b l y cs n j linked.1 distinct.1 lacks.1 (omega arith) in
    let (out, a_gone) = apart-append a ((b, l, y) ∷ cs) n j item distinct.0 in
    let a_last : (a == z) ≡ false = has-apart a z ((b, l, y) ∷ cs) out m in
    (
      z,
      e,
      ground arith,
      at_z,
      at_n,
      >>=-next _ linked.0 (rw lacks.0 found),
      (
        update-apart s.cell z n a (some (record e { next = none })) none a_last a_gone ∙ linked.0,
        rest,
      ),
    )

-- `RemoveByElement` of an item that only the last of several cells holds returns it, deletes its
-- cell and leaves the others linked from `first` on, the last of them at the end; but it sets `last`
-- to NULL, so that the next `Append` follows NULL.
pub remove_by_element-last :
    (item : ℕ) (l : LinkedList) (s : Store) (a k x : ℕ) (cs : Cells) (n j : ℕ)
    → Holds s l ((a, k, x) ∷ cs ++ (n, j, item) ∷ [])
    → Lacks item ((a, k, x) ∷ cs)
    → (l' : LinkedList) × (s' : Store) × (remove_by_element item l s ≡ some (item, l', s'))
      × (l'.first ≡ some a)
      × Linked s'.cell ((a, k, x) ∷ cs)
      × (s'.cell n ≡ none)
      × (l'.last ≡ none)
      × ((y : ℕ) → append y l' s' ≡ none)
unfolding remove_by_element append is_empty
remove_by_element-last item l s a k x cs n j h lacks =
    let fits = length-limit s.limit ((a, k, x) ∷ cs ++ (n, j, item) ∷ []) h.distinct h.below in
    let size = length-append cs ((n, j, item) ∷ []) in
    let (z, e, m, at_z, at_n, found, linked) =
      find_item-last s.limit item s none a k x cs n j h.linked h.distinct lacks (omega arith) in
    let at_end : l.last ≡ some n = h.ends ∙ last_of-append ((a, k, x) ∷ cs) n j item in
    (
      record { first = some a; last = none },
      delete_element (store_cell s z (some (record e { next = none }))) n,
      rw h.starts (
          >>=-next _ found
            (>>=-next _ at_n (>>=-next _ (>>=-next _ at_z refl) (rw (at_end, ==_refl n) refl)))),
      refl,
      linked,
      ground arith,
      refl,
      λ y. refl,
    )
