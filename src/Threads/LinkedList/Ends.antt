-- ===== src/Threads/LinkedList/Ends.antt =====
-- `Append`, `Prepend`, `Remove` and `SortedRemove` at the two ends of a list.
use cop5614nachos.Base.{
  ℕ, ◌+◌, ◌<◌, ◌≡◌, refl, sym, ◌∙◌, true, false, Option, none, some, [], ◌∷◌, ◌++◌, ◌==◌, Array,
  update, arith, Bool-cases, inl, inr, ==_refl,
}
use cop5614nachos.Threads.LinkedList.{
  ListElement, Store, LinkedList, store_cell, new_element, delete_element, is_empty, append,
  prepend, sorted_remove,
}
use cop5614nachos.Threads.LinkedList.Cells.{
  Cells, Entries, entries, last_of, has, Distinct, Linked, Holds, Represents, Linked-frame,
  has-append, has-apart, has-new, update-apart, Distinct-append, entries-append, last_of-append,
  last_of-has, limit-new,
}

-- The cells after the last one's `next` was set to the new cell `n`.
pub Linked-append :
    (cell : Array (Option ListElement)) (a k x : ℕ) (cs : Cells) (n j y : ℕ)
    → Linked cell ((a, k, x) ∷ cs)
    → Distinct ((a, k, x) ∷ cs)
    → has n ((a, k, x) ∷ cs) ≡ false
    → let cell1 = update cell n (some (record { next = none; key = j; item = y })) in
      (z : ℕ) × (e : ListElement) × (last_of ((a, k, x) ∷ cs) ≡ some z)
      × (has z ((a, k, x) ∷ cs) ≡ true)
      × (cell1 z ≡ some e)
      × Linked
          (update cell1 z (some (record e { next = some n })))
          ((a, k, x) ∷ cs ++ (n, j, y) ∷ [])
Linked-append cell a k x [] n j y linked distinct out = (
  a,
  record { next = none; key = k; item = x },
  refl,
  ground arith,
  ground arith,
  (ground arith, (ground arith, tt)),
)
Linked-append cell a k x ((b, l, w) ∷ cs) n j y linked distinct out =
    let (z, e, last, m, at, rest) =
      Linked-append cell b l w cs n j y linked.1 distinct.1 (ground arith) in
    let a_last : (a == z) ≡ false = has-apart a z ((b, l, w) ∷ cs) distinct.0 m in
    let a_new : (a == n) ≡ false = ground arith in
    (
      z,
      e,
      last,
      ground arith,
      at,
      (
        update-apart cell n z a (some (record { next = none; key = j; item = y }))
              (some (record e { next = some n })) a_new a_last
            ∙ linked.0,
        rest,
      ),
    )

append-below :
    (limit b k x : ℕ) (cs : Cells)
    → ((a : ℕ) → has a cs ≡ true → a < limit)
    → has b (cs ++ (limit, k, x) ∷ []) ≡ true
    → b < limit + 1
append-below limit b k x cs below m = elim (Bool-cases (has b cs)) [
  | inl old ↦ omega (arith, below b old)
  | inr new_one ↦ ground (arith, has-append b cs ((limit, k, x) ∷ []))
]

append-Holds :
    (item : ℕ) (l : LinkedList) (s : Store) (cs : Cells)
    → Holds s l cs
    → (l' : LinkedList) × (s' : Store) × (append item l s ≡ some (l', s'))
      × Holds s' l' (cs ++ (s.limit, 0, item) ∷ [])
unfolding append is_empty
append-Holds item l s [] h = (
  record { first = some s.limit; last = some s.limit },
  new_element s item 0,
  rw h.starts refl,
  record {
    starts = refl;
    ends = refl;
    linked = (ground arith, tt);
    distinct = (refl, tt);
    below = λ a m. ground arith;
  },
)
append-Holds item l s ((a, k, x) ∷ cs) h =
    let new_one : has s.limit ((a, k, x) ∷ cs) ≡ false = limit-new s l ((a, k, x) ∷ cs) h in
    let (z, e, last, m, at, linked) =
      Linked-append s.cell a k x cs s.limit 0 item h.linked h.distinct new_one in
    (
      record l { last = some s.limit },
      store_cell (new_element s item 0) z (some (record e { next = some s.limit })),
      rw (h.starts, h.ends, last, at) refl,
      record {
        starts = h.starts;
        ends = sym (last_of-append ((a, k, x) ∷ cs) s.limit 0 item);
        linked = linked;
        distinct = Distinct-append ((a, k, x) ∷ cs) s.limit 0 item h.distinct new_one;
        below = λ b m. append-below s.limit b 0 item ((a, k, x) ∷ cs) h.below m;
      },
    )

-- `Append` of an item to a list that stands for a sequence returns, and the list then stands for the
-- sequence with the item, under key 0, at its end.
pub append-Represents :
    (item : ℕ) (l : LinkedList) (s : Store) {xs : Entries}
    → Represents s l xs
    → (l' : LinkedList) × (s' : Store) × (append item l s ≡ some (l', s'))
      × Represents s' l' (xs ++ (0, item) ∷ [])
append-Represents item l s r =
    let (l', s', e, h) = append-Holds item l s r.cells r.holds in
    (
      l',
      s',
      e,
      record {
        cells = r.cells ++ (s.limit, 0, item) ∷ [];
        holds = h;
        view = entries-append r.cells s.limit 0 item ∙ rw r.view refl;
      },
    )

prepend-below :
    (limit b k x : ℕ) (cs : Cells)
    → ((a : ℕ) → has a cs ≡ true → a < limit)
    → has b ((limit, k, x) ∷ cs) ≡ true
    → b < limit + 1
prepend-below limit b k x cs below m = elim (Bool-cases (has b cs)) [
  | inl old ↦ omega (arith, below b old)
  | inr new_one ↦ ground arith
]

prepend-Holds :
    (item : ℕ) (l : LinkedList) (s : Store) (cs : Cells)
    → Holds s l cs
    → (l' : LinkedList) × (s' : Store) × (prepend item l s ≡ some (l', s'))
      × Holds s' l' ((s.limit, 0, item) ∷ cs)
unfolding prepend is_empty
prepend-Holds item l s [] h = (
  record { first = some s.limit; last = some s.limit },
  new_element s item 0,
  rw h.starts refl,
  record {
    starts = refl;
    ends = refl;
    linked = (ground arith, tt);
    distinct = (refl, tt);
    below = λ a m. ground arith;
  },
)
prepend-Holds item l s ((a, k, x) ∷ cs) h =
    let new_one : has s.limit ((a, k, x) ∷ cs) ≡ false = limit-new s l ((a, k, x) ∷ cs) h in
    let e : ListElement = record { next = none; key = 0; item = item } in
    let s' : Store =
      store_cell (new_element s item 0) s.limit (some (record e { next = some a })) in
    let here : (new_element s item 0).cell s.limit ≡ some e = ground arith in
    (
      record l { first = some s.limit },
      s',
      rw (h.starts, here) refl,
      record {
        starts = refl;
        ends = h.ends;
        linked = (
          ground arith,
          Linked-frame s.cell s'.cell ((a, k, x) ∷ cs) h.linked (λ b m.
              let ne : (b == s.limit) ≡ false = has-new s.limit b ((a, k, x) ∷ cs) new_one m in
              update-apart s.cell s.limit s.limit b (some e) (some (record e { next = some a })) ne
                ne),
        );
        distinct = (new_one, h.distinct);
        below = λ b m. prepend-below s.limit b 0 item ((a, k, x) ∷ cs) h.below m;
      },
    )

sorted_remove-Holds :
    (l : LinkedList) (s : Store) (a k x : ℕ) (cs : Cells)
    → Holds s l ((a, k, x) ∷ cs)
    → (l' : LinkedList) × (sorted_remove l s ≡ some (some (x, k), l', delete_element s a))
      × Holds (delete_element s a) l' cs
unfolding sorted_remove is_empty
sorted_remove-Holds l s a k x [] h = (
  record { first = none; last = none },
  rw (h.starts, h.ends, h.linked.0, ==_refl a) refl,
  record { starts = refl; ends = refl; linked = tt; distinct = tt; below = λ b m. cc },
)
sorted_remove-Holds l s a k x ((b, j, y) ∷ cs) h =
    let (z, last, m) = last_of-has b j y cs in
    (
      record l { first = some b },
      rw (h.starts, h.linked.0, h.ends ∙ last, has-apart a z ((b, j, y) ∷ cs) h.distinct.0 m) refl,
      record {
        starts = refl;
        ends = h.ends;
        linked =
            Linked-frame s.cell (delete_element s a).cell ((b, j, y) ∷ cs) h.linked.1
              (λ c m. rw (has-new a c ((b, j, y) ∷ cs) h.distinct.0 m) refl);
        distinct = h.distinct.1;
        below = λ c m. h.below c (ground arith);
      },
    )

-- What a removal from the front finds, and what it leaves.
abbrev pub first_entry : Entries → Option (ℕ × ℕ)
first_entry [] = none
first_entry ((k, x) ∷ xs) = some (x, k)

abbrev pub rest : Entries → Entries
rest [] = []
rest (kx ∷ xs) = xs

sorted_remove-cells :
    (l : LinkedList) (s : Store) (cs : Cells)
    → Holds s l cs
    → (l' : LinkedList) × (s' : Store) × (sorted_remove l s
        ≡ some (first_entry (entries cs), l', s'))
      × Represents s' l' (rest (entries cs))
unfolding sorted_remove is_empty
sorted_remove-cells l s [] h =
    (l, s, rw h.starts refl, record { cells = []; holds = h; view = refl })
sorted_remove-cells l s ((a, k, x) ∷ cs) h =
    let (l', e, held) = sorted_remove-Holds l s a k x cs h in
    (l', delete_element s a, e, record { cells = cs; holds = held; view = refl })

-- `Prepend` of an item puts a new cell with key 0 at the front.
pub prepend-Represents :
    (item : ℕ) (l : LinkedList) (s : Store) {xs : Entries}
    → Represents s l xs
    → (l' : LinkedList) × (s' : Store) × (prepend item l s ≡ some (l', s'))
      × Represents s' l' ((0, item) ∷ xs)
prepend-Represents item l s r =
    let (l', s', e, h) = prepend-Holds item l s r.cells r.holds in
    (l', s', e, record { cells = (s.limit, 0, item) ∷ r.cells; holds = h; view = rw r.view refl })

-- `SortedRemove` on a list that stands for a sequence returns the first entry and leaves the rest, or
-- returns none and leaves the empty list.
pub sorted_remove-Represents :
    (l : LinkedList) (s : Store) {xs : Entries}
    → Represents s l xs
    → (l' : LinkedList) × (s' : Store) × (sorted_remove l s ≡ some (first_entry xs, l', s'))
      × Represents s' l' (rest xs)
sorted_remove-Represents l s r = rw (sym r.view) (sorted_remove-cells l s r.cells r.holds)
