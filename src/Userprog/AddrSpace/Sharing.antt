-- ===== src/Userprog/AddrSpace/Sharing.antt =====
-- `AddrSpace::Fork`: every page is shared read-only with the child.
use cop5614nachos.Base.{
  ℕ, zero, suc, ◌+◌, ◌≤◌, ◌<◌, ◌≡◌, ◌≢◌, refl, ap, sym, ◌∙◌, inl, inr, true, false, Option, none,
  some, ◌&&◌, ltb, leb, ◌==◌, if◌then◌else◌, Array, update, bcopy, arith, Bool-cases, le-cases,
}
use cop5614nachos.Machine.State.{num_phys_pages, TranslationEntry}
use cop5614nachos.Userprog.Vm.{no_page, AddrSpace, Vm, store_space, store_entry}
use cop5614nachos.Userprog.MemoryMgr.{set_owner, set_share}
use cop5614nachos.Userprog.AddrSpace.{shared_entry, fork_loop, fork, fresh_entry}

abbrev shared_with : Vm → ℕ → ℕ → Vm
shared_with v frame pid = record v { mgr = set_owner v.mgr frame pid true }

set_share-some :
    (frame pid : ℕ) (v : Vm)
    → frame < num_phys_pages
    → set_share frame pid v ≡ some (shared_with v frame pid)
unfolding set_share
set_share-some frame pid v lt = ground arith

set_share-wild : (frame pid : ℕ) (v : Vm) → num_phys_pages ≤ frame → set_share frame pid v ≡ none
unfolding set_share
set_share-wild frame pid v le = ground arith

-- After the pages from `i` on were shared with the child.
record Forked (rounds i child : ℕ) (s s' : AddrSpace) (table table' : Array TranslationEntry)
    (v v' : Vm) : Type 0 where
  parent_pages :
      (j : ℕ)
      → s'.page_table j
        ≡ (if leb i j && ltb j (i + rounds) then shared_entry (s.page_table j) else s.page_table j)
  child_pages :
      (j : ℕ)
      → table' j
        ≡ (if leb i j && ltb j (i + rounds) then shared_entry (s.page_table j) else table j)
  same_size : s'.num_pages ≡ s.num_pages
  noted :
      (j : ℕ)
      → i ≤ j
      → j < i + rounds
      → v'.mgr.frame_pid (s.page_table j).physical_page child ≡ true
  kept : (f q : ℕ) → v.mgr.frame_pid f q ≡ true → v'.mgr.frame_pid f q ≡ true
  others : (f q : ℕ) → q ≢ child → v'.mgr.frame_pid f q ≡ v.mgr.frame_pid f q
  spaces : v'.spaces ≡ v.spaces
  memory : v'.main_memory ≡ v.main_memory

fork_loop-Forked :
    (rounds i child : ℕ) (s : AddrSpace) (table : Array TranslationEntry) (v : Vm)
    → ((j : ℕ) → i ≤ j → j < i + rounds → (s.page_table j).physical_page < num_phys_pages)
    → (s' : AddrSpace) × (table' : Array TranslationEntry) × (v' : Vm) × (fork_loop rounds i child s
          table v
        ≡ some (s', table', v'))
      × Forked rounds i child s s' table table' v v'
unfolding fork_loop
fork_loop-Forked zero i child s table v resident = (
  s,
  table,
  v,
  refl,
  record {
    parent_pages = λ j. ground arith;
    child_pages = λ j. ground arith;
    same_size = refl;
    noted = λ j le lt. absurd (omega arith);
    kept = λ f q h. h;
    others = λ f q ne. refl;
    spaces = refl;
    memory = refl;
  },
)
fork_loop-Forked (suc rounds) i child s table v resident =
    let e = s.page_table i in
    let s1 = store_entry s i (shared_entry e) in
    let table1 = update table i (shared_entry e) in
    let v1 = shared_with v e.physical_page child in
    let (s', table', v', eq, f) = fork_loop-Forked rounds (i + 1) child s1 table1 v1 (λ j le lt.
      let ne : (j == i) ≡ false = ground arith in rw ne (resident j (omega arith) (omega arith))) in
    (
      s',
      table',
      v',
      rw (set_share-some e.physical_page child v (resident i (omega arith) (omega arith))) eq,
      record {
        parent_pages = λ j. elim (Bool-cases (j == i)) [
          | inl e ↦ let at : j ≡ i = ground arith in rw at (ground (arith, f.parent_pages i))
          | inr ne ↦ ground (arith, f.parent_pages j)
        ];
        child_pages = λ j. elim (Bool-cases (j == i)) [
          | inl e ↦ let at : j ≡ i = ground arith in rw at (ground (arith, f.child_pages i))
          | inr ne ↦ ground (arith, f.child_pages j)
        ];
        same_size = f.same_size;
        noted = λ j le lt. elim (le-cases i j le) [
          | inl at ↦ rw at (f.kept (s.page_table i).physical_page child (ground arith))
          | inr later ↦
              let ne : (j == i) ≡ false = ground arith in
              ap (λ (x : TranslationEntry). v'.mgr.frame_pid x.physical_page child)
                (sym (other_entry ne))
              ∙ f.noted j later (omega arith)
        ];
        kept = λ g q h. f.kept g q (ground arith);
        others = λ g q ne. f.others g q ne ∙ ground arith;
        spaces = f.spaces;
        memory = f.memory;
      },
    )
  where
    other_entry :
        {j : ℕ}
        → (j == i) ≡ false
        → (store_entry s i (shared_entry (s.page_table i))).page_table j ≡ s.page_table j
    other_entry ne = rw ne refl

-- `Fork` into another process number when every page of the parent is in memory: afterwards parent
-- and child map each page to the same frame, both read-only, the child is noted for each of those
-- frames, and neither the main memory nor any third process changes.
pub fork-shares :
    (parent child : ℕ) (executable : Array ℕ) (v : Vm) (s : AddrSpace)
    → parent ≢ child
    → v.spaces parent ≡ some s
    → ((j : ℕ) → j < s.num_pages → (s.page_table j).physical_page < num_phys_pages)
    → (v' : Vm) × (p c : AddrSpace) × (fork parent child executable v ≡ some v')
      × (v'.spaces parent ≡ some p)
      × (v'.spaces child ≡ some c)
      × ((q : ℕ) → q ≢ parent → q ≢ child → v'.spaces q ≡ v.spaces q)
      × (v'.main_memory ≡ v.main_memory)
      × ((j : ℕ)
          → j < s.num_pages
          → (p.page_table j ≡ record (s.page_table j) { read_only = true })
            × (c.page_table j ≡ record (s.page_table j) { read_only = true })
            × (v'.mgr.frame_pid (s.page_table j).physical_page child ≡ true))
unfolding fork
fork-shares parent child executable v s ne space resident =
    let (s', table, w, e, f) =
      fork_loop-Forked s.num_pages 0 child s fresh_entry v (λ j le lt. resident j (omega arith)) in
    let swap : Array ℕ = bcopy executable s.code_data_file_addr (λ j. 0) 0 s.code_data_size in
    let c : AddrSpace = record s { page_table = table; swapfile = swap } in
    (
      store_space (store_space w parent s') child c,
      s',
      c,
      rw (space, e) refl,
      ground arith,
      ground arith,
      λ q np nc. ground (arith, ap (λ (x : Array (Option AddrSpace)). x q) f.spaces),
      f.memory,
      λ j lt.
          let in_memory = resident j lt in
          (
            ground (arith, f.parent_pages j),
            ground (arith, f.child_pages j),
            f.noted j (omega arith) (omega arith),
          ),
    )

fork_loop-wild :
    (rounds i child wild : ℕ) (s : AddrSpace) (table : Array TranslationEntry) (v : Vm)
    → i ≤ wild
    → wild < i + rounds
    → num_phys_pages ≤ (s.page_table wild).physical_page
    → fork_loop rounds i child s table v ≡ none
unfolding fork_loop
fork_loop-wild zero i child wild s table v le lt out = absurd (omega arith)
fork_loop-wild (suc rounds) i child wild s table v le lt out =
    let e = s.page_table i in
    elim (Bool-cases (ltb e.physical_page num_phys_pages)) [
      | inr far ↦ rw (set_share-wild e.physical_page child v (ground arith)) refl
      | inl near ↦ elim (le-cases i wild le) [
        | inl here ↦ rw (set_share-wild e.physical_page child v (rw here at out)) refl
        | inr later ↦
            let ne : (wild == i) ≡ false = ground arith in
            rw (set_share-some e.physical_page child v (ground arith)) (
              fork_loop-wild rounds (i + 1) child wild (store_entry s i (shared_entry e))
                (update table i (shared_entry e)) (shared_with v e.physical_page child) later
                (omega arith) (rw ne out))
      ]
    ]

-- `Fork` of a process with a page whose physical page is -1 fails: it writes outside `framePID`.
pub fork-wild :
    (parent child wild : ℕ) (executable : Array ℕ) (v : Vm) (s : AddrSpace)
    → v.spaces parent ≡ some s
    → wild < s.num_pages
    → (s.page_table wild).physical_page ≡ no_page
    → fork parent child executable v ≡ none
unfolding fork
fork-wild parent child wild executable v s space lt absent =
    rw
      (
        space,
        fork_loop-wild s.num_pages 0 child wild s fresh_entry v (omega arith) (omega arith)
            (omega arith),
      )
      refl
