-- ===== src/Machine/Memory/Laws.antt =====
-- A word that is written is read back, and a write touches no byte outside its access.
use cop5614nachos.Base.{
  ℕ, ◌+◌, ◌*◌, ◌/◌, ◌%◌, ◌^◌, ◌≤◌, ◌<◌, ◌≡◌, ◌≢◌, refl, ap, ◌∙◌, ◌⊎◌, Bool, true, false, some,
  arith, ◌==◌, if◌then◌else◌, Array, update,
}
use cop5614nachos.Machine.State.{page_size, Machine, TranslationEntry}
use cop5614nachos.Machine.Translate.{address}
use cop5614nachos.Machine.Translate.Laws.{
  IsAccess, UsesTable, after, expected, touched, translate-expected,
}
use cop5614nachos.Machine.Memory.{
  Handler, sign_extend, store_short, store_word, fetch, put, read_mem, write_mem,
}

-- What a read of `size` bytes makes of a value written at that size.
abbrev pub truncated : ℕ → ℕ → ℕ
truncated size value =
    if size == 1
    then sign_extend (value % 256)
    else if size == 2
    then value % 65536
    else value % 2 ^ 32

-- The memory after a write of one of the three sizes.
abbrev pub stored : Array ℕ → ℕ → ℕ → ℕ → Array ℕ
stored memory p size value =
    if size == 1
    then update memory p (value % 256)
    else if size == 2
    then store_short memory p value
    else store_word memory p value

put-stored :
    (memory : Array ℕ) (p size value : ℕ)
    → IsAccess size
    → put memory p size value ≡ some (stored memory p size value)
unfolding put
put-stored memory p size value ok = ground arith

fetch-stored :
    (memory : Array ℕ) (p size value : ℕ)
    → IsAccess size
    → fetch (stored memory p size value) p size ≡ some (truncated size value)
unfolding fetch
fetch-stored memory p size value ok = ground arith

stored-outside :
    (memory : Array ℕ) (p size value q : ℕ)
    → IsAccess size
    → (q < p) ⊎ (p + size ≤ q)
    → stored memory p size value q ≡ memory q
stored-outside memory p size value q ok out = ground arith

module _ (handler : Handler) (m : Machine) {table : Array TranslationEntry}
    (uses : UsesTable m table) where
  -- The page table after a write access.
  abbrev dirtied : ℕ → Array TranslationEntry
  dirtied virt_addr =
      update table (virt_addr / page_size) (touched (table (virt_addr / page_size)) true)

  abbrev written : ℕ → ℕ → ℕ → ℕ → Machine
  written addr p size value = record m {
    page_table = some (dirtied addr);
    main_memory = stored m.main_memory p size value;
  }

  -- A successful write, taken apart.
  write_mem-address :
      (addr size value : ℕ) {m' : Machine}
      → IsAccess size
      → write_mem handler addr size value m ≡ some (true, m')
      → (p : ℕ) × (expected table m.page_table_size addr size true ≡ address p)
        × (m' ≡ written addr p size value)
  unfolding write_mem
  write_mem-address addr size value ok e =
      let p = (table (addr / page_size)).physical_page * page_size + addr % page_size in
      let step = translate-expected m uses addr size true ok in
      let bytes = put-stored m.main_memory p size value ok in
      (p, ground (arith, step, bytes), ground (arith, step, bytes))

  -- The same address is read through the page table that the write left.
  reads_back :
      (addr size p : ℕ)
      → expected table m.page_table_size addr size true ≡ address p
      → expected (dirtied addr) m.page_table_size addr size false ≡ address p
  reads_back addr size p e = ground arith

  -- After a successful `WriteMem` of 1, 2 or 4 bytes, through the page table, `ReadMem` at the same
  -- address and size succeeds with the value cut to that size, a byte sign-extended.
  pub read_mem-write_mem :
      (addr size value : ℕ) {m' : Machine}
      → IsAccess size
      → write_mem handler addr size value m ≡ some (true, m')
      → (m'' : Machine) × (read_mem handler addr size m' ≡ some (some (truncated size value), m''))
  unfolding read_mem
  read_mem-write_mem addr size value {m'} ok e =
      let (p, e1, e2) = write_mem-address addr size value ok e in
      let same : read_mem handler addr size m'
          ≡ read_mem handler addr size (written addr p size value) =
        ap (read_mem handler addr size) e2 in
      let step =
        translate-expected (written addr p size value) {table = dirtied addr} (uses.0, refl) addr
          size false ok in
      let back = reads_back addr size p e1 in
      (
        after (written addr p size value) (dirtied addr) addr false (address p),
        same ∙ rw (step, back, fetch-stored m.main_memory p size value ok) refl,
      )

  expected-frame :
      (addr size : ℕ) (writing : Bool) (p : ℕ)
      → IsAccess size
      → expected table m.page_table_size addr size writing ≡ address p
      → (p / page_size ≡ (table (addr / page_size)).physical_page)
        × (p % page_size + size ≤ page_size)
  expected-frame addr size writing p ok e = ground arith

  -- A successful `WriteMem` of 1, 2 or 4 bytes, through the page table, changes no byte outside the
  -- frame that the table names for the address.
  pub write_mem-frame :
      (addr size value : ℕ) {m' : Machine}
      → IsAccess size
      → write_mem handler addr size value m ≡ some (true, m')
      → (q : ℕ) → q / page_size ≢ (table (addr / page_size)).physical_page
      → m'.main_memory q ≡ m.main_memory q
  write_mem-frame addr size value {m'} ok e q other =
      let (p, e1, e2) = write_mem-address addr size value ok e in
      ap (λ (x : Machine). x.main_memory q) e2
      ∙ stored-outside m.main_memory p size value q ok
          (omega (arith, expected-frame addr size true p ok e1))
