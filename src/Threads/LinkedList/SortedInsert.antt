-- ===== src/Threads/LinkedList/SortedInsert.antt =====
-- `SortedInsert` as a whole: an empty list, the front, a place between two cells, the end.
use cop5614nachos.Base.{
  ℕ, ◌+◌, ◌≡◌, refl, sym, ap, ◌∙◌, true, false, Option, none, some, [], ◌∷◌, inl, inr, arith,
  Bool-cases, ltb, ◌>>=◌, ==_refl,
}
use cop5614nachos.Threads.LinkedList.{
  ListElement, Store, LinkedList, set_next, store_cell, new_element, is_empty, insert_loop,
  sorted_insert,
}
use cop5614nachos.Threads.LinkedList.Cells.{
  Cells, Entries, head_of, last_of, has, Linked, Holds, Represents, Linked-frame, has-new,
  update-apart, last_of-append, limit-new,
}
use cop5614nachos.Threads.LinkedList.Ends.{Linked-append}
use cop5614nachos.Threads.LinkedList.Pigeonhole.{length-limit}
use cop5614nachos.Threads.LinkedList.Sorted.{
  insert_sorted, insert_cells, entries-insert_cells, has-insert_cells, insert_cells-Distinct,
  Looped, insert_loop-Looped,
}

inserted-Holds :
    (key item : ℕ) (l l' : LinkedList) (s s' : Store) (cs : Cells)
    → Holds s l cs
    → l'.first ≡ head_of (insert_cells s.limit key item cs)
    → l'.last ≡ last_of (insert_cells s.limit key item cs)
    → Linked s'.cell (insert_cells s.limit key item cs)
    → s'.limit ≡ s.limit + 1
    → Holds s' l' (insert_cells s.limit key item cs)
inserted-Holds key item l l' s s' cs h starts ends linked limit = record {
  starts = starts;
  ends = ends;
  linked = linked;
  distinct = insert_cells-Distinct s.limit key item cs h.distinct (limit-new s l cs h);
  below = λ a m. elim (Bool-cases (has a cs)) [
    | inl old ↦ omega (arith, h.below a old, limit)
    | inr new_one ↦ ground (arith, has-insert_cells a s.limit key item cs, limit)
  ];
}

-- The test at the first cell, once it is loaded.
sorted_insert-step :
    (item key : ℕ) (l : LinkedList) (s : Store) (a k x : ℕ) (next : Option ℕ)
    → l.first ≡ some a
    → (new_element s item key).cell a ≡ some (record { next = next; key = k; item = x })
    → sorted_insert item key l s ≡ (elim (ltb key k) [
      | true ↦ do
        s2 ← set_next (new_element s item key) (some s.limit) (some a)
        some (record { first = some s.limit; last = l.last }, s2)
      | false ↦ do
        inserted ← insert_loop (s.limit + 1) s.limit key (some a) (new_element s item key)
        elim inserted [
          | some s2 ↦ some (record { first = some a; last = l.last }, s2)
          | none ↦ do
            s2 ← set_next (new_element s item key) l.last (some s.limit)
            some (record { first = some a; last = some s.limit }, s2)
        ]
    ])
unfolding sorted_insert is_empty
sorted_insert-step item key l s a k x next first at =
    let from_first : Option ℕ → Option (LinkedList × Store) =
      λ p. sorted_insert item key (record { first = p; last = l.last }) s in
    ap from_first first ∙ rw at refl

module _ (item key : ℕ) (l : LinkedList) (s : Store) (a k x : ℕ) (cs : Cells) where
  -- The outcome of an insertion into a list that is not empty.
  Inserted : Type 0
  Inserted =
      (l' : LinkedList) × (s' : Store) × (sorted_insert item key l s ≡ some (l', s'))
      × Holds s' l' (insert_cells s.limit key item ((a, k, x) ∷ cs))

  new_element-Linked :
      Holds s l ((a, k, x) ∷ cs) → Linked (new_element s item key).cell ((a, k, x) ∷ cs)
  new_element-Linked h =
      Linked-frame s.cell (new_element s item key).cell ((a, k, x) ∷ cs) h.linked
        (λ b m. rw (has-new s.limit b ((a, k, x) ∷ cs) (limit-new s l ((a, k, x) ∷ cs) h) m) refl)

  front-Inserted : Holds s l ((a, k, x) ∷ cs) → ltb key k ≡ true → Inserted
  unfolding Inserted
  front-Inserted h front =
      let e : ListElement = record { next = none; key = key; item = item } in
      let e' : ListElement = record { next = some a; key = key; item = item } in
      let s1 = new_element s item key in
      let out = limit-new s l ((a, k, x) ∷ cs) h in
      let s' : Store = store_cell s1 s.limit (some e') in
      let l' : LinkedList = record { first = some s.limit; last = l.last } in
      let here : s1.cell s.limit ≡ some e = rw (==_refl s.limit) refl in
      (
        l',
        s',
        sorted_insert-step item key l s a k x (head_of cs) h.starts (new_element-Linked h).0
            ∙ rw (front, here) refl,
        inserted-Holds key item l l' s s' ((a, k, x) ∷ cs) h (rw front refl) (rw front h.ends)
            (rw front (
              rw (==_refl s.limit) refl,
              Linked-frame s.cell s'.cell ((a, k, x) ∷ cs) h.linked (λ b m.
                  let ne = has-new s.limit b ((a, k, x) ∷ cs) out m in
                  update-apart s.cell s.limit s.limit b (some e) (some e') ne ne),
            ))
            refl,
      )

  later-Inserted : Holds s l ((a, k, x) ∷ cs) → ltb key k ≡ false → Inserted
  unfolding Inserted Looped
  later-Inserted h ge =
      let out = limit-new s l ((a, k, x) ∷ cs) h in
      let s1 = new_element s item key in
      let step =
        sorted_insert-step item key l s a k x (head_of cs) h.starts (new_element-Linked h).0 in
      let fits = length-limit s.limit ((a, k, x) ∷ cs) h.distinct h.below in
      elim (insert_loop-Looped (s.limit + 1) s.limit key item s1 a k x cs (new_element-Linked h)
        h.distinct out (rw (==_refl s.limit) refl) ge (omega arith)) [
          | inl (s', looped, sp) ↦ (
            record { first = some a; last = l.last },
            s',
            step ∙ rw (ge, looped) refl,
            inserted-Holds key item l (record { first = some a; last = l.last }) s s'
                ((a, k, x) ∷ cs) h (rw ge refl) (h.ends ∙ sym sp.last) sp.linked sp.limit,
          )
          | inr (looped, appended) ↦
              let (z, e, last, m, at, linked) =
                Linked-append s.cell a k x cs s.limit key item h.linked h.distinct out in
              let s' : Store = store_cell s1 z (some (record e { next = some s.limit })) in
              (
                record { first = some a; last = some s.limit },
                s',
                step ∙ rw (ge, looped, h.ends ∙ last, at) refl,
                inserted-Holds key item l (record { first = some a; last = some s.limit }) s s'
                    ((a, k, x) ∷ cs) h (rw ge refl)
                    (rw appended (sym (last_of-append ((a, k, x) ∷ cs) s.limit key item)))
                    (rw appended linked) refl,
              )
        ]

sorted_insert-Holds :
    (item key : ℕ) (l : LinkedList) (s : Store) (cs : Cells)
    → Holds s l cs
    → (l' : LinkedList) × (s' : Store) × (sorted_insert item key l s ≡ some (l', s'))
      × Holds s' l' (insert_cells s.limit key item cs)
unfolding sorted_insert is_empty Inserted
sorted_insert-Holds item key l s [] h =
    let l' : LinkedList = record { first = some s.limit; last = some s.limit } in
    (
      l',
      new_element s item key,
      rw h.starts refl,
      inserted-Holds key item l l' s (new_element s item key) [] h refl refl
          (rw (==_refl s.limit) refl, tt) refl,
    )
sorted_insert-Holds item key l s ((a, k, x) ∷ cs) h = elim (Bool-cases (ltb key k)) [
  | inl front ↦ front-Inserted item key l s a k x cs h front
  | inr ge ↦ later-Inserted item key l s a k x cs h ge
]

-- `SortedInsert` into a list that stands for a sequence returns, and the list then stands for the old
-- entries with the new one before the first of a larger key, the others in their order.
pub sorted_insert-Represents :
    (item key : ℕ) (l : LinkedList) (s : Store) {xs : Entries}
    → Represents s l xs
    → (l' : LinkedList) × (s' : Store) × (sorted_insert item key l s ≡ some (l', s'))
      × Represents s' l' (insert_sorted key item xs)
sorted_insert-Represents item key l s r =
    let (l', s', e, h) = sorted_insert-Holds item key l s r.cells r.holds in
    (
      l',
      s',
      e,
      record {
        cells = insert_cells s.limit key item r.cells;
        holds = h;
        view = entries-insert_cells s.limit key item r.cells ∙ ap (insert_sorted key item) r.view;
      },
    )
