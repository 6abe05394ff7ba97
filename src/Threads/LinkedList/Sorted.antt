-- ===== src/Threads/LinkedList/Sorted.antt =====
-- `SortedInsert` against insertion into a sorted sequence.
use cop5614nachos.Base.{
  ℕ, zero, suc, ◌≤◌, ◌≡◌, refl, sym, ap, ◌∙◌, true, false, ◌||◌, Option, none, some, [], ◌∷◌, ◌++◌,
  ◌⊎◌, inl, inr, ◌==◌, arith, Bool-cases, ltb, if◌then◌else◌, ◌>>=◌, ==_refl,
}
use cop5614nachos.Base.Lists.{length}
use cop5614nachos.Threads.LinkedList.{ListElement, Store, set_next, store_cell, insert_loop}
use cop5614nachos.Threads.LinkedList.Cells.{
  Cells, Entries, entries, head_of, last_of, has, Distinct, Linked, Linked-frame, has-new,
  update-apart,
}

-- The entry goes before the first one with a larger key.
abbrev pub insert_sorted : ℕ → ℕ → Entries → Entries
insert_sorted key item [] = (key, item) ∷ []
insert_sorted key item ((k, x) ∷ xs) =
    let later = insert_sorted key item xs in
    if ltb key k then (key, item) ∷ (k, x) ∷ xs else (k, x) ∷ later

abbrev pub insert_cells : ℕ → ℕ → ℕ → Cells → Cells
insert_cells n key item [] = (n, key, item) ∷ []
insert_cells n key item ((a, k, x) ∷ cs) =
    let later = insert_cells n key item cs in
    if ltb key k then (n, key, item) ∷ (a, k, x) ∷ cs else (a, k, x) ∷ later

pub entries-insert_cells :
    (n key item : ℕ) (cs : Cells)
    → entries (insert_cells n key item cs) ≡ insert_sorted key item (entries cs)
entries-insert_cells n key item [] = refl
entries-insert_cells n key item ((a, k, x) ∷ cs) = elim (Bool-cases (ltb key k)) [
  | inl front ↦ rw front refl
  | inr later ↦ rw (later, entries-insert_cells n key item cs) refl
]

pub has-insert_cells :
    (b n key item : ℕ) (cs : Cells) → has b (insert_cells n key item cs) ≡ (b == n || has b cs)
has-insert_cells b n key item [] = refl
has-insert_cells b n key item ((a, k, x) ∷ cs) = elim (Bool-cases (ltb key k)) [
  | inl front ↦ rw front refl
  | inr later ↦ rw later (ground (arith, has-insert_cells b n key item cs))
]

pub insert_cells-Distinct :
    (n key item : ℕ) (cs : Cells)
    → Distinct cs
    → has n cs ≡ false
    → Distinct (insert_cells n key item cs)
insert_cells-Distinct n key item [] d out = (refl, tt)
insert_cells-Distinct n key item ((a, k, x) ∷ cs) d out = elim (Bool-cases (ltb key k)) [
  | inl front ↦ rw front (out, d)
  | inr later ↦ rw later (
    ground (arith, d.0, has-insert_cells a n key item cs),
    insert_cells-Distinct n key item cs d.1 (ground arith),
  )
]

-- The new cell went between the cells of the list, or before the first.
pub record Spliced (s s' : Store) (n key item : ℕ) (cs : Cells) : Type 0 where
  pub linked : Linked s'.cell (insert_cells n key item cs)
  pub last : last_of (insert_cells n key item cs) ≡ last_of cs
  pub frame : (b : ℕ) → has b cs ≡ false → (b == n) ≡ false → s'.cell b ≡ s.cell b
  pub limit : s'.limit ≡ s.limit

-- What the loop does from the cell `a`, whose key is not larger.
unfoldable pub Looped : (fuel n key item : ℕ) (s : Store) (a : ℕ) (cs : Cells) → Type 0
Looped fuel n key item s a cs =
    ((s' : Store) × (insert_loop fuel n key (some a) s ≡ some (some s'))
      × Spliced s s' n key item cs)
    ⊎ ((insert_loop fuel n key (some a) s ≡ some none)
        × (insert_cells n key item cs ≡ cs ++ (n, key, item) ∷ []))

-- The store after `element->next = ptr->next` and `ptr->next = element`.
spliced_store : Store → ℕ → ℕ → ℕ → ℕ → ℕ → ℕ → ℕ → Store
spliced_store s n key item a k x b =
    let e : ListElement = record { next = some b; key = key; item = item } in
    let p : ListElement = record { next = some n; key = k; item = x } in
    store_cell (store_cell s n (some e)) a (some p)

spliced_store-Spliced :
    (n key item : ℕ) (s : Store) (a k x b j y : ℕ) (cs : Cells)
    → Linked s.cell ((a, k, x) ∷ (b, j, y) ∷ cs)
    → Distinct ((a, k, x) ∷ (b, j, y) ∷ cs)
    → has n ((a, k, x) ∷ (b, j, y) ∷ cs) ≡ false
    → ltb key k ≡ false
    → ltb key j ≡ true
    → Spliced s (spliced_store s n key item a k x b) n key item ((a, k, x) ∷ (b, j, y) ∷ cs)
unfolding spliced_store
spliced_store-Spliced n key item s a k x b j y cs linked d out ge front =
    let e : ListElement = record { next = some b; key = key; item = item } in
    let p : ListElement = record { next = some n; key = k; item = x } in
    let n_apart : (n == a) ≡ false = ground arith in
    let tail_new : has n ((b, j, y) ∷ cs) ≡ false = ground arith in
    record {
      linked =
          rw (ge, front)
            (
              rw (==_refl a) refl,
              (
                rw (n_apart, ==_refl n) refl,
                Linked-frame s.cell (spliced_store s n key item a k x b).cell ((b, j, y) ∷ cs)
                    linked.1
                    (λ c m.
                      update-apart s.cell n a c (some e) (some p)
                        (has-new n c ((b, j, y) ∷ cs) tail_new m)
                        (has-new a c ((b, j, y) ∷ cs) d.0 m)),
              ),
            );
      last = rw (ge, front) refl;
      frame = λ c c_out c_new. update-apart s.cell n a c (some e) (some p) c_new (ground arith);
      limit = refl;
    }

-- A splice further on is a splice.
cons-Spliced :
    (n key item : ℕ) (s s' : Store) (a k x b j y : ℕ) (cs : Cells)
    → Linked s.cell ((a, k, x) ∷ (b, j, y) ∷ cs)
    → Distinct ((a, k, x) ∷ (b, j, y) ∷ cs)
    → has n ((a, k, x) ∷ (b, j, y) ∷ cs) ≡ false
    → ltb key k ≡ false
    → ltb key j ≡ false
    → Spliced s s' n key item ((b, j, y) ∷ cs)
    → Spliced s s' n key item ((a, k, x) ∷ (b, j, y) ∷ cs)
cons-Spliced n key item s s' a k x b j y cs linked d out ge later sp =
    let kept : s'.cell a ≡ s.cell a = sp.frame a d.0 (ground arith) in
    let inserted : insert_cells n key item ((b, j, y) ∷ cs)
        ≡ (b, j, y) ∷ insert_cells n key item cs =
      rw later refl in
    record {
      linked = rw ge (rw later (kept ∙ linked.0), sp.linked);
      last = rw (ge, later) (sym (ap last_of inserted) ∙ sp.last);
      frame = λ c c_out c_new. sp.frame c (ground arith) c_new;
      limit = sp.limit;
    }

insert_loop-step :
    (fuel n key : ℕ) (s : Store) (a k x b j y : ℕ) (end : Option ℕ)
    → s.cell a ≡ some (record { next = some b; key = k; item = x })
    → s.cell b ≡ some (record { next = end; key = j; item = y })
    → insert_loop (suc fuel) n key (some a) s ≡ (elim (ltb key j) [
      | true ↦ do
        s1 ← set_next s (some n) (some b)
        s2 ← set_next s1 (some a) (some n)
        some (some s2)
      | false ↦ insert_loop fuel n key (some b) s
    ])
unfolding insert_loop
insert_loop-step fuel n key s a k x b j y end at_a at_b = rw (at_a, at_b) refl

pub insert_loop-Looped :
    (fuel n key item : ℕ) (s : Store) (a k x : ℕ) (cs : Cells)
    → Linked s.cell ((a, k, x) ∷ cs)
    → Distinct ((a, k, x) ∷ cs)
    → has n ((a, k, x) ∷ cs) ≡ false
    → s.cell n ≡ some (record { next = none; key = key; item = item })
    → ltb key k ≡ false
    → length ((a, k, x) ∷ cs) ≤ fuel
    → Looped fuel n key item s a ((a, k, x) ∷ cs)
unfolding insert_loop Looped spliced_store
insert_loop-Looped zero n key item s a k x cs linked d out at ge enough = absurd (omega arith)
insert_loop-Looped (suc fuel) n key item s a k x [] linked d out at ge enough =
    inr (rw linked.0 refl, rw ge refl)
insert_loop-Looped (suc fuel) n key item s a k x ((b, j, y) ∷ cs) linked d out at ge enough =
    elim (Bool-cases (ltb key j)) [
      | inl front ↦
          let a_apart : (a == n) ≡ false = ground arith in
          inl (
            spliced_store s n key item a k x b,
            insert_loop-step fuel n key s a k x b j y (head_of cs) linked.0 linked.1.0
                ∙ rw (front, at, a_apart, linked.0) refl,
            spliced_store-Spliced n key item s a k x b j y cs linked d out ge front,
          )
      | inr later ↦
          elim (insert_loop-Looped fuel n key item s b j y cs linked.1 d.1 (ground arith) at later
            (omega arith)) [
              | inl (s', e, sp) ↦ inl (
                s',
                insert_loop-step fuel n key s a k x b j y (head_of cs) linked.0 linked.1.0
                    ∙ rw later e,
                cons-Spliced n key item s s' a k x b j y cs linked d out ge later sp,
              )
              | inr (e, appended) ↦ inr (
                insert_loop-step fuel n key s a k x b j y (head_of cs) linked.0 linked.1.0
                    ∙ rw later e,
                rw (ge, appended) refl,
              )
            ]
    ]
