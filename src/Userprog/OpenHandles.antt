-- ===== src/Userprog/OpenHandles.antt =====
-- What `Open` and `Close` do to the two tables of open files.
use cop5614nachos.Base.{
  ℕ, ◌+◌, ◌%◌, ◌^◌, ◌<◌, ◌≡◌, refl, ap, ◌∙◌, true, false, ◌||◌, none, some, ◌==◌, >>=-next, ==_refl,
  update-at, update, arith,
}
use cop5614nachos.Bitmap.{BitMap, test, clear, find}
use cop5614nachos.Bitmap.Bits.{
  is_set, marked, cleared, clear-cleared, num_bits-marked, test-is_set, is_set-marked,
  is_set-cleared,
}
use cop5614nachos.Bitmap.Counting.{free_bits, num_clear-free_bits, find-Marks}
use cop5614nachos.Userprog.OpenFiles.{
  Name, FileSystem, Sof, SofMgr, Pof, PofTable, find_sof_by_name, find_pof_by_name, create_sof,
  remove_sof, inc_sof_counter, create_pof, remove_pof, get_num_free_pof, get_num_free_sof,
  get_pof_sof_index, put_sof, decrement,
}
use cop5614nachos.Userprog.FileCalls.{open_name, close_slot}

-- A bit that was marked is tested and cleared.
test-marked : (b : BitMap) (i : ℕ) → i < b.num_bits → test (marked b i) i ≡ some true
test-marked b i lt =
    test-is_set (marked b i) i (omega (arith, num_bits-marked b i))
    ∙ ap some (is_set-marked b i i ∙ rw (==_refl i) refl)

clear-marked :
    (b : BitMap) (i : ℕ) → i < b.num_bits → clear (marked b i) i ≡ some (cleared (marked b i) i)
clear-marked b i lt = clear-cleared (marked b i) i (omega (arith, num_bits-marked b i))

-- To mark a clear bit and clear it leaves every bit as it was.
is_set-cleared-marked :
    (b : BitMap) (i j : ℕ) → is_set b i ≡ false → is_set (cleared (marked b i) i) j ≡ is_set b j
is_set-cleared-marked b i j unused =
    ground (arith, is_set-cleared (marked b i) i j, is_set-marked b i j)

module _ {World : Type 0} (fs : FileSystem World) (name : Name) (pofs : PofTable) (sofs : SofMgr)
    (world world1 : World) (handle i j : ℕ) where
  abbrev opened_pof : Pof
  opened_pof = record { filename = name; sof_index = j; offset = 0 }

  abbrev pub opened_pofs : PofTable
  opened_pofs = record {
    pof_map = marked pofs.pof_map i;
    pof_array = update pofs.pof_array i (some opened_pof);
  }

  abbrev pub opened_sof : ℕ → Sof
  opened_sof counter = record { filename = name; open_file = handle; counter = counter }

  abbrev created_sofs : SofMgr
  created_sofs = put_sof (record sofs { sof_map = marked sofs.sof_map j }) j (opened_sof 0)

  abbrev pub opened_sofs : SofMgr
  opened_sofs = put_sof created_sofs j (opened_sof 1)

  create_sof-opened :
      fs.open_file name world ≡ (some handle, world1)
      → find sofs.sof_map ≡ some (some j, marked sofs.sof_map j)
      → create_sof fs name sofs world ≡ some (some j, created_sofs, world1)
  unfolding create_sof
  create_sof-opened opens slot =
      rw (create_sof, ap (λ r. r.0) opens, slot, ap (λ r. r.1) opens) refl

  inc_sof_counter-created : inc_sof_counter j created_sofs ≡ some opened_sofs
  unfolding inc_sof_counter
  inc_sof_counter-created =
      >>=-next {m = created_sofs.sof_array j} _ (update-at sofs.sof_array j (some (opened_sof 0)))
        refl

  get_pof_sof_index-opened : get_pof_sof_index i opened_pofs ≡ some j
  unfolding get_pof_sof_index
  get_pof_sof_index-opened =
      >>=-next {m = opened_pofs.pof_array i} _ (update-at pofs.pof_array i (some opened_pof)) refl

  open_name-opened :
      find_sof_by_name name sofs ≡ some none
      → find_pof_by_name name pofs ≡ some none
      → (free_bits pofs.pof_map == 0 || free_bits sofs.sof_map == 0) ≡ false
      → fs.open_file name world ≡ (some handle, world1)
      → find sofs.sof_map ≡ some (some j, marked sofs.sof_map j)
      → find pofs.pof_map ≡ some (some i, marked pofs.pof_map i)
      → open_name fs name pofs sofs world ≡ some (some i, opened_pofs, opened_sofs, world1)
  unfolding open_name get_num_free_pof get_num_free_sof create_pof
  open_name-opened no_sof no_pof room opens slot_j slot_i = >>=-next _ no_sof (
      >>=-next _ no_pof (
        >>=-next _ {a = (some j, created_sofs, world1)}
          (>>=-next _ (num_clear-free_bits pofs.pof_map) (
            >>=-next _ (num_clear-free_bits sofs.sof_map)
              (rw room (create_sof-opened opens slot_j))))
          (>>=-next _ {a = (some i, opened_pofs)} (>>=-next _ slot_i refl)
            (>>=-next _ {a = opened_sofs} inc_sof_counter-created refl))))

  -- `Close` of the slot that this `Open` returned.
  close_slot-opened :
      i < pofs.pof_map.num_bits
      → j < sofs.sof_map.num_bits
      → close_slot i opened_pofs opened_sofs
        ≡ some (
          record {
            pof_map = cleared (marked pofs.pof_map i) i;
            pof_array = update opened_pofs.pof_array i none;
          },
          record {
            sof_map = cleared (marked sofs.sof_map j) j;
            sof_array = update opened_sofs.sof_array j none;
          },
        )
  unfolding close_slot remove_pof remove_sof
  close_slot-opened i_lt j_lt = >>=-next _ {a = j} get_pof_sof_index-opened (
      >>=-next _
        {a = record {
          pof_map = cleared (marked pofs.pof_map i) i;
          pof_array = update opened_pofs.pof_array i none;
        }}
        (>>=-next _ (test-marked pofs.pof_map i i_lt)
          (>>=-next _ (clear-marked pofs.pof_map i i_lt) refl))
        (>>=-next _
          {a = record {
            sof_map = cleared (marked sofs.sof_map j) j;
            sof_array = update opened_sofs.sof_array j none;
          }}
          (>>=-next _ (test-marked sofs.sof_map j j_lt) (
            >>=-next {m = opened_sofs.sof_array j} _
              (update-at created_sofs.sof_array j (some (opened_sof 1)))
              (>>=-next _ (clear-marked sofs.sof_map j j_lt) refl)))
          refl))

-- An `Open` of a name that is in neither table, with room in both and a file that opens, makes an
-- entry in each, counted once, and `Close` of the slot that it returns leaves in use exactly the
-- slots that were in use before.
pub open_name-close_slot :
    {World : Type 0} (fs : FileSystem World) (name : Name) (pofs : PofTable) (sofs : SofMgr)
    (world world1 : World) (handle : ℕ)
    → find_sof_by_name name sofs ≡ some none
    → find_pof_by_name name pofs ≡ some none
    → 0 < free_bits pofs.pof_map
    → 0 < free_bits sofs.sof_map
    → fs.open_file name world ≡ (some handle, world1)
    → (i j : ℕ) × (pofs1 : PofTable) × (sofs1 : SofMgr) × (pofs2 : PofTable) × (sofs2 : SofMgr)
      × (open_name fs name pofs sofs world ≡ some (some i, pofs1, sofs1, world1))
      × (pofs1.pof_array i ≡ some (record { filename = name; sof_index = j; offset = 0 }))
      × (sofs1.sof_array j ≡ some (record { filename = name; open_file = handle; counter = 1 }))
      × (close_slot i pofs1 sofs1 ≡ some (pofs2, sofs2))
      × ((k : ℕ) → is_set pofs2.pof_map k ≡ is_set pofs.pof_map k)
      × ((k : ℕ) → is_set sofs2.sof_map k ≡ is_set sofs.sof_map k)
open_name-close_slot fs name pofs sofs world world1 handle no_sof no_pof pof_room sof_room opens =
    let (i, (slot_i, i_lt, i_free, i_count)) = find-Marks pofs.pof_map pof_room in
    let (j, (slot_j, j_lt, j_free, j_count)) = find-Marks sofs.sof_map sof_room in
    (
      i,
      j,
      opened_pofs fs name pofs sofs world world1 handle i j,
      opened_sofs fs name pofs sofs world world1 handle i j,
      record {
        pof_map = cleared (marked pofs.pof_map i) i;
        pof_array = update (opened_pofs fs name pofs sofs world world1 handle i j).pof_array i none;
      },
      record {
        sof_map = cleared (marked sofs.sof_map j) j;
        sof_array = update (opened_sofs fs name pofs sofs world world1 handle i j).sof_array j none;
      },
      open_name-opened fs name pofs sofs world world1 handle i j no_sof no_pof (ground arith) opens
          slot_j slot_i,
      update-at pofs.pof_array i (some (record { filename = name; sof_index = j; offset = 0 })),
      update-at (created_sofs fs name pofs sofs world world1 handle i j).sof_array j
          (some (record { filename = name; open_file = handle; counter = 1 })),
      close_slot-opened fs name pofs sofs world world1 handle i j i_lt j_lt,
      λ k. is_set-cleared-marked pofs.pof_map i k i_free,
      λ k. is_set-cleared-marked sofs.sof_map j k j_free,
    )

decrement_suc : (c : ℕ) → c + 1 < 2 ^ 32 → decrement ((c + 1) % 2 ^ 32) ≡ c
decrement_suc c fits = ground arith

counted : (n c : ℕ) → n ≡ c → 0 < c → (n == 0) ≡ false
counted n c e used = ground arith

-- A second `Open` of a file that the process has open returns the same slot and counts the file once
-- more, and one `Close` then frees the slot but leaves the count as it was: the file stays in the
-- system's table for a process that no longer has it.
pub open_name-leaks :
    {World : Type 0} (fs : FileSystem World) (name : Name) (pofs : PofTable) (sofs : SofMgr)
    (world : World) (i : ℕ) (pof : Pof) (sof : Sof)
    → find_sof_by_name name sofs ≡ some (some pof.sof_index)
    → find_pof_by_name name pofs ≡ some (some i)
    → pofs.pof_array i ≡ some pof
    → sofs.sof_array pof.sof_index ≡ some sof
    → i < pofs.pof_map.num_bits
    → pof.sof_index < sofs.sof_map.num_bits
    → is_set pofs.pof_map i ≡ true
    → is_set sofs.sof_map pof.sof_index ≡ true
    → 0 < sof.counter
    → sof.counter + 1 < 2 ^ 32
    → (sofs1 : SofMgr) × (pofs2 : PofTable) × (sofs2 : SofMgr) × (open_name fs name pofs sofs world
        ≡ some (some i, pofs, sofs1, world))
      × (close_slot i pofs sofs1 ≡ some (pofs2, sofs2))
      × (is_set pofs2.pof_map i ≡ false)
      × (sofs2.sof_map ≡ sofs.sof_map)
      × (sofs2.sof_array pof.sof_index ≡ some sof)
unfolding open_name inc_sof_counter close_slot get_pof_sof_index remove_pof remove_sof
open_name-leaks fs name pofs sofs world i pof sof has_sof has_pof at_i at_j i_lt j_lt i_set j_set
      used fits =
    let j = pof.sof_index in
    let more : Sof = record sof { counter = (sof.counter + 1) % 2 ^ 32 } in
    let sofs1 : SofMgr = put_sof sofs j more in
    let down : decrement more.counter ≡ sof.counter = decrement_suc sof.counter fits in
    let still : (decrement more.counter == 0) ≡ false =
      counted (decrement more.counter) sof.counter down used in
    (
      sofs1,
      record { pof_map = cleared pofs.pof_map i; pof_array = update pofs.pof_array i none },
      put_sof sofs1 j (record more { counter = decrement more.counter }),
      >>=-next _ has_sof (
          >>=-next _ has_pof
            (>>=-next {m = inc_sof_counter j sofs} _ {a = sofs1} (>>=-next _ at_j refl) refl)),
      >>=-next _ {a = j} (>>=-next _ at_i refl) (
          >>=-next _
            {a = record {
              pof_map = cleared pofs.pof_map i;
              pof_array = update pofs.pof_array i none;
            }}
            (>>=-next _ (test-is_set pofs.pof_map i i_lt ∙ ap some i_set)
              (>>=-next _ (clear-cleared pofs.pof_map i i_lt) refl))
            (>>=-next _ {a = put_sof sofs1 j (record more { counter = decrement more.counter })}
              (>>=-next _ (test-is_set sofs.sof_map j j_lt ∙ ap some j_set) (
                >>=-next {m = sofs1.sof_array j} _ (update-at sofs.sof_array j (some more))
                  (rw still refl)))
              refl)),
      is_set-cleared pofs.pof_map i i ∙ rw (==_refl i) refl,
      refl,
      update-at sofs1.sof_array j (some (record more { counter = decrement more.counter }))
          ∙ ap (λ c. some (record sof { counter = c })) down,
    )
