-- ===== src/Userprog/Families.antt =====
-- Who is whose child: `AppendChildPCB`, `GetChildPCB`, `RemoveChildPCB`, and the numbers that
-- `CreatePCB` and `RemovePCB` hand out.
use cop5614nachos.Base.{
  ℕ, ◌+◌, ◌<◌, ◌≡◌, ◌≢◌, refl, sym, ap, ◌∙◌, true, false, Option, none, some, [], ◌∷◌, ltb, ◌==◌,
  if◌then◌else◌, Bool-cases, inl, inr, >>=-next, ==_refl, update-at, Array, update, arith,
}
use cop5614nachos.Bitmap.{BitMap, test}
use cop5614nachos.Bitmap.Bits.{
  is_set, marked, cleared, clear-cleared, num_bits-marked, num_bits-cleared, test-is_set,
  is_set-marked, is_set-cleared,
}
use cop5614nachos.Bitmap.Search.{bit_map-is_set}
use cop5614nachos.Bitmap.Counting.{free_bits, num_clear-free_bits, free_bits-cleared, find-Marks}
use cop5614nachos.Threads.LinkedList.Cells.{Entries, Represents}
use cop5614nachos.Threads.LinkedList.Ends.{sorted_remove-Represents}
use cop5614nachos.Threads.LinkedList.Sorted.{insert_sorted}
use cop5614nachos.Threads.LinkedList.SortedInsert.{sorted_insert-Represents}
use cop5614nachos.Threads.LinkedList.Lookup.{lookup, search_key-lookup}
use cop5614nachos.Userprog.OpenFiles.{Pof, pof_maxnum}
use cop5614nachos.Userprog.Processes.{
  Pcb, Processes, store_pcb, new_pcb, create_pcb, remove_pcb, get_num_free_pcbs, get_pcb,
  append_child_pcb, remove_child_pcb, get_child_pcb,
}

lookup-insert_sorted :
    (q k x : ℕ) (xs : Entries)
    → lookup k xs ≡ none
    → lookup q (insert_sorted k x xs) ≡ (if k == q then some x else lookup q xs)
lookup-insert_sorted q k x [] out = refl
lookup-insert_sorted q k x ((j, y) ∷ xs) out = elim (Bool-cases (ltb k j)) [
  | inl front ↦ rw front refl
  | inr later ↦ rw later (ground (arith, lookup-insert_sorted q k x xs))
]

some-injective : {a b : Option ℕ} → some a ≡ some b → a ≡ b
some-injective e = cc

get_child_pcb-lookup :
    (ps : Processes) (a : ℕ) (block : Pcb) (q : ℕ) {xs : Entries}
    → ps.pcb a ≡ some block
    → Represents ps.cells block.children_pcb xs
    → get_child_pcb a q ps ≡ some (lookup q xs)
unfolding get_child_pcb
get_child_pcb-lookup ps a block q at r =
    >>=-next _ at (search_key-lookup q block.children_pcb ps.cells r)

-- No entry has a key below `k`.
abbrev pub IsLeast : ℕ → Entries → Type 0
IsLeast k [] = Unit
IsLeast k ((j, y) ∷ xs) = (k < j) × IsLeast k xs

lookup-IsLeast : (k : ℕ) (xs : Entries) → IsLeast k xs → lookup k xs ≡ none
lookup-IsLeast k [] least = refl
lookup-IsLeast k ((j, y) ∷ xs) least = ground (arith, least.0, lookup-IsLeast k xs least.1)

-- `RemoveChildPCB` of any child takes the one with the smallest number off the list, and keeps the
-- child that it is given: where the numbers of the other children are larger than `k`, a child with
-- another number is given, and `GetChildPCB` found both, it then finds no child `k` and every other
-- child as before, the one that was to be removed too.
pub remove_child_pcb-first :
    (ps : Processes) (parent child : ℕ) (block child_block : Pcb) (k x : ℕ) {xs : Entries}
    → ps.pcb parent ≡ some block
    → ps.pcb child ≡ some child_block
    → Represents ps.cells block.children_pcb ((k, x) ∷ xs)
    → IsLeast k xs
    → child_block.pid ≢ k
    → get_child_pcb parent child_block.pid ps ≡ some (some child)
    → (ps' : Processes) × (remove_child_pcb parent child ps ≡ some ps')
      × (get_child_pcb parent k ps ≡ some (some x))
      × (get_child_pcb parent k ps' ≡ some none)
      × (get_child_pcb parent child_block.pid ps' ≡ some (some child))
      × ((q : ℕ) → q ≢ k → get_child_pcb parent q ps' ≡ get_child_pcb parent q ps)
unfolding remove_child_pcb
remove_child_pcb-first ps parent child block child_block k x {xs} at_parent at_child r least other
      there =
    let (children, cells, e, rest) = sorted_remove-Represents block.children_pcb ps.cells r in
    let block' : Pcb = record block { children_pcb = children } in
    let ps' : Processes = record (store_pcb ps parent (some block')) { cells = cells } in
    let at_parent' : ps'.pcb parent ≡ some block' = update-at ps.pcb parent (some block') in
    let before : (q : ℕ) → get_child_pcb parent q ps ≡ some (lookup q ((k, x) ∷ xs)) =
      λ q. get_child_pcb-lookup ps parent block q at_parent r in
    let after : (q : ℕ) → get_child_pcb parent q ps' ≡ some (lookup q xs) =
      λ q. get_child_pcb-lookup ps' parent block' q at_parent' rest in
    let same : (q : ℕ) → q ≢ k → get_child_pcb parent q ps' ≡ get_child_pcb parent q ps = λ q ne.
      let skip : (k == q) ≡ false = ground arith in after q ∙ sym (before q ∙ rw skip refl) in
    (
      ps',
      >>=-next _ at_parent (>>=-next _ at_child (>>=-next _ e refl)),
      before k ∙ rw (==_refl k) refl,
      after k ∙ ap some (lookup-IsLeast k xs least),
      same child_block.pid other ∙ there,
      same,
    )

-- After `AppendChildPCB` of a child whose number no other child has, `GetChildPCB` finds it by its
-- number, and the other children by theirs as before.
pub append_child_pcb-get_child_pcb :
    (ps : Processes) (parent child : ℕ) (block child_block : Pcb) {xs : Entries}
    → ps.pcb parent ≡ some block
    → ps.pcb child ≡ some child_block
    → Represents ps.cells block.children_pcb xs
    → get_child_pcb parent child_block.pid ps ≡ some none
    → (ps' : Processes) × (append_child_pcb parent child ps ≡ some ps')
      × ((q : ℕ)
          → get_child_pcb parent q ps'
            ≡ (if child_block.pid == q then some (some child) else get_child_pcb parent q ps))
unfolding append_child_pcb
append_child_pcb-get_child_pcb ps parent child block child_block {xs} at_parent at_child r out =
    let pid = child_block.pid in
    let none_yet : lookup pid xs ≡ none =
      some-injective (sym (get_child_pcb-lookup ps parent block pid at_parent r) ∙ out) in
    let (children, cells, e, longer) =
      sorted_insert-Represents child pid block.children_pcb ps.cells r in
    let block' : Pcb = record block { children_pcb = children } in
    let ps' : Processes = record (store_pcb ps parent (some block')) { cells = cells } in
    (
      ps',
      >>=-next _ at_parent (>>=-next _ at_child (>>=-next _ e refl)),
      λ q.
          let before = get_child_pcb-lookup ps parent block q at_parent r in
          get_child_pcb-lookup ps' parent block' q (update-at ps.pcb parent (some block')) longer
          ∙ ap some (lookup-insert_sorted q pid child xs none_yet)
          ∙ elim (Bool-cases (pid == q)) [
            | inl same ↦ rw same refl
            | inr other ↦ rw other (sym before)
          ],
    )

-- A bit that was marked is tested and cleared again.
test-marked : (b : BitMap) (i : ℕ) → i < b.num_bits → test (marked b i) i ≡ some true
test-marked b i lt =
    test-is_set (marked b i) i (omega (arith, num_bits-marked b i))
    ∙ ap some (is_set-marked b i i ∙ rw (==_refl i) refl)

test-cleared : (b : BitMap) (i : ℕ) → i < b.num_bits → test (cleared b i) i ≡ some false
test-cleared b i lt =
    test-is_set (cleared b i) i (omega (arith, num_bits-cleared b i))
    ∙ ap some (is_set-cleared b i i ∙ rw (==_refl i) refl)

-- With a number free, `CreatePCB` makes a block with a number that was free, `GetPCB` finds it by
-- the number, and `RemovePCB` gives the number back.
pub create_pcb-remove_pcb :
    (ps : Processes) (garbage : Array ℕ) (slots : Array (Option Pof))
    → 0 < free_bits ps.pid_map
    → (block : Pcb) × (ps1 : Processes) × (ps2 : Processes) × (is_set ps.pid_map block.pid ≡ false)
      × (create_pcb garbage slots ps ≡ some (some ps.pcb_limit, ps1))
      × (ps1.pcb ps.pcb_limit ≡ some block)
      × (get_pcb block.pid ps1 ≡ some (some ps.pcb_limit))
      × (remove_pcb ps.pcb_limit ps1 ≡ some ps2)
      × (get_pcb block.pid ps2 ≡ some none)
      × (get_num_free_pcbs ps2 ≡ get_num_free_pcbs ps)
unfolding create_pcb new_pcb get_pcb remove_pcb get_num_free_pcbs
create_pcb-remove_pcb ps garbage slots room =
    let (i, (slot, lt, unused, count)) = find-Marks ps.pid_map room in
    let (map, made, size, clear_bits) = bit_map-is_set pof_maxnum garbage in
    let positive : (free_bits ps.pid_map == 0) ≡ false = ground (arith, room) in
    let inside : i < (marked ps.pid_map i).num_bits =
      omega (arith, lt, num_bits-marked ps.pid_map i) in
    let set : is_set (marked ps.pid_map i) i ≡ true =
      is_set-marked ps.pid_map i i ∙ rw (==_refl i) refl in
    let a = ps.pcb_limit in
    let block : Pcb = record {
      pid = i;
      this_thread = none;
      parent_pcb = none;
      children_pcb = record { first = none; last = none };
      child_exit_value = 0;
      pofs = record { pof_map = map; pof_array = slots };
    } in
    let made_block : new_pcb i garbage slots ≡ some block = >>=-next _ made refl in
    let ps1 : Processes = record ps {
      pid_map = marked ps.pid_map i;
      all_pcb = update ps.all_pcb i (some a);
      pcb = update ps.pcb a (some block);
      pcb_limit = a + 1;
    } in
    let ps2 : Processes = record ps1 {
      pid_map = cleared (marked ps.pid_map i) i;
      all_pcb = update ps1.all_pcb i none;
    } in
    (
      block,
      ps1,
      ps2,
      unused,
      >>=-next _ (num_clear-free_bits ps.pid_map)
          (rw positive (>>=-next _ slot (>>=-next _ made_block refl))),
      update-at ps.pcb a (some block),
      >>=-next _ (test-marked ps.pid_map i lt) (ap some (update-at ps.all_pcb i (some a))),
      >>=-next {m = ps1.pcb a} _ (update-at ps.pcb a (some block))
          (>>=-next _ (clear-cleared (marked ps.pid_map i) i inside) refl),
      >>=-next _ (test-cleared (marked ps.pid_map i) i inside) refl,
      num_clear-free_bits ps2.pid_map
          ∙ ap some (free_bits-cleared (marked ps.pid_map i) i inside set ∙ sym count)
          ∙ sym (num_clear-free_bits ps.pid_map),
    )
