-- ===== src/Machine/Translate/Laws.antt =====
-- What a translation through the page table promises.
use cop5614nachos.Base.{
  ℕ, ◌+◌, ◌*◌, ◌/◌, ◌%◌, inl, inr, refl, ◌==◌, ◌≤◌, ◌<◌, ◌≡◌, ◌≢◌, ◌⊎◌, Bool, true, false, not,
  none, some, ◌&&◌, arith, leb, if◌then◌else◌, Array, update,
}
use cop5614nachos.Machine.State.{
  page_size, num_phys_pages, memory_size, ExceptionType, page_fault_exception, read_only_exception,
  bus_error_exception, address_error_exception, TranslationEntry, Machine,
}
use cop5614nachos.Machine.Translate.{Translation, fault, address, misaligned, translate}

-- The sizes that the instructions use.
abbrev pub IsAccess : ℕ → Type 0
IsAccess size = (size ≡ 1) ⊎ (size ≡ 2) ⊎ (size ≡ 4)

-- The machine translates through this page table.
abbrev pub UsesTable : Machine → Array TranslationEntry → Type 0
UsesTable m table = (m.tlb ≡ none) × (m.page_table ≡ some table)

-- The entry after an access: `use` is set, and `dirty` too by a write.
abbrev pub touched : TranslationEntry → Bool → TranslationEntry
touched e writing = record e { use_bit = true; dirty = (if writing then true else e.dirty) }

-- The answer as the page table gives it, in the order of the checks.
abbrev pub expected : Array TranslationEntry → ℕ → ℕ → ℕ → Bool → Translation
expected table table_size virt_addr size writing =
    let e = table (virt_addr / page_size) in
    if misaligned virt_addr size
    then fault address_error_exception
    else if leb table_size (virt_addr / page_size)
    then fault address_error_exception
    else if not e.valid
    then fault page_fault_exception
    else if e.read_only && writing
    then fault read_only_exception
    else if leb num_phys_pages e.physical_page
    then fault bus_error_exception
    else address (e.physical_page * page_size + virt_addr % page_size)

-- The machine afterwards: only the entry of a translated page changes.
abbrev pub after : Machine → Array TranslationEntry → ℕ → Bool → Translation → Machine
after m table virt_addr writing (fault e) = m
after m table virt_addr writing (address p) =
    let vpn = virt_addr / page_size in
    record m { page_table = some (update table vpn (touched (table vpn) writing)) }

-- A test of the last bits of the address is one of the remainder by the size.
misaligned-test :
    (virt_addr size : ℕ) → IsAccess size → misaligned virt_addr size ≡ not (virt_addr % size == 0)
misaligned-test virt_addr size (inl one) = rw one (ground arith)
misaligned-test virt_addr size (inr (inl two)) = rw two (ground arith)
misaligned-test virt_addr size (inr (inr four)) = rw four (ground arith)

-- What an entry allows: the page is in memory, on the machine, and may be written if it is to be.
pub record Allows (e : TranslationEntry) (writing : Bool) : Type 0 where
  pub valid : e.valid ≡ true
  pub writable : (e.read_only && writing) ≡ false
  pub on_machine : e.physical_page < num_phys_pages

-- Which accesses of 1, 2 or 4 bytes the page table translates, and the exceptions of the others.
pub record Judged (table : Array TranslationEntry) (table_size virt_addr size : ℕ) (writing : Bool)
    (r : Translation) : Type 0 where
  pub misaligned_fault : virt_addr % size ≢ 0 → r ≡ fault address_error_exception
  pub past_table : table_size * page_size ≤ virt_addr → r ≡ fault address_error_exception
  pub translated :
      virt_addr % size ≡ 0
      → virt_addr < table_size * page_size
      → Allows (table (virt_addr / page_size)) writing
      → r
        ≡ address
            ((table (virt_addr / page_size)).physical_page * page_size + virt_addr % page_size)
  pub absent :
      virt_addr % size ≡ 0
      → virt_addr < table_size * page_size
      → (table (virt_addr / page_size)).valid ≡ false
      → r ≡ fault page_fault_exception
  pub protected :
      virt_addr % size ≡ 0
      → virt_addr < table_size * page_size
      → (table (virt_addr / page_size)).valid ≡ true
      → (table (virt_addr / page_size)).read_only ≡ true
      → writing ≡ true
      → r ≡ fault read_only_exception
  pub wild_frame :
      virt_addr % size ≡ 0
      → virt_addr < table_size * page_size
      → (table (virt_addr / page_size)).valid ≡ true
      → ((table (virt_addr / page_size)).read_only && writing) ≡ false
      → num_phys_pages ≤ (table (virt_addr / page_size)).physical_page
      → r ≡ fault bus_error_exception

expected-Judged :
    (table : Array TranslationEntry) (table_size virt_addr size : ℕ) (writing : Bool)
    → IsAccess size
    → Judged table table_size virt_addr size writing
        (expected table table_size virt_addr size writing)
expected-Judged table table_size virt_addr size writing ok =
    let test = misaligned-test virt_addr size ok in
    record {
      misaligned_fault = λ off. rw test (ground arith);
      past_table = λ past. ground arith;
      translated = λ on inside allowed.
          rw test (ground (arith, allowed.valid, allowed.writable, allowed.on_machine));
      absent = λ on inside gone. rw test (ground arith);
      protected = λ on inside here only writes. rw test (ground arith);
      wild_frame = λ on inside here may out. rw test (ground arith);
    }

-- The whole access lies in the frame of its page.
access-fits :
    (virt_addr size frame : ℕ)
    → IsAccess size
    → virt_addr % size ≡ 0
    → frame < num_phys_pages
    → let p = frame * page_size + virt_addr % page_size in (p % size ≡ 0) × (p + size ≤ memory_size)
access-fits virt_addr size frame (inl one) on lt = rw one (omega arith, omega arith)
access-fits virt_addr size frame (inr (inl two)) on lt =
    let even : virt_addr % 2 ≡ 0 = rw two at on in rw two (omega arith, omega arith)
access-fits virt_addr size frame (inr (inr four)) on lt =
    let even : virt_addr % 4 ≡ 0 = rw four at on in rw four (omega arith, omega arith)

-- What an answer says of its access.
expected-address :
    (table : Array TranslationEntry) (table_size virt_addr size : ℕ) (writing : Bool) {p : ℕ}
    → IsAccess size
    → expected table table_size virt_addr size writing ≡ address p
    → (virt_addr % size ≡ 0)
      × (virt_addr < table_size * page_size)
      × Allows (table (virt_addr / page_size)) writing
      × (p ≡ (table (virt_addr / page_size)).physical_page * page_size + virt_addr % page_size)
expected-address table table_size virt_addr size writing ok e =
    let test = misaligned-test virt_addr size ok in
    (
      ground (arith, test),
      ground arith,
      record { valid = ground arith; writable = ground arith; on_machine = ground arith },
      ground arith,
    )

module _ (m : Machine) {table : Array TranslationEntry} (uses : UsesTable m table) where
  -- A translation through the page table, of an access of 1, 2 or 4 bytes, answers as the table says,
  -- checks in order: alignment, table size, valid, read-only, frame number. Only a translated page's
  -- entry changes: `use` is set, and `dirty` by a write.
  pub translate-expected :
      (virt_addr size : ℕ) (writing : Bool)
      → IsAccess size
      → let r = expected table m.page_table_size virt_addr size writing in
        translate m virt_addr size writing ≡ some (r, after m table virt_addr writing r)
  unfolding translate
  translate-expected virt_addr size writing ok = ground arith

  -- A translation through the page table, of an access of 1, 2 or 4 bytes, never fails its `ASSERT`.
  -- An address that is not a multiple of the size, or lies past the table, is an address error. Any
  -- other is translated exactly when the entry of its page is valid, writable if it is written, and
  -- names a frame of the machine; the answer is then the offset in that frame, a multiple of the size
  -- with the whole access inside the main memory, and of the machine only that entry has changed:
  -- `use` is set, and `dirty` by a write. Else the exception is a page fault, a write to a read-only
  -- page or a bus error, by the first that applies, and the machine has not changed.
  pub translate-Judged :
      (virt_addr size : ℕ) (writing : Bool)
      → IsAccess size
      → (r : Translation) × (m' : Machine) × (translate m virt_addr size writing ≡ some (r, m'))
        × Judged table m.page_table_size virt_addr size writing r
        × ((p : ℕ)
            → r ≡ address p
            → (virt_addr % size ≡ 0)
              × (virt_addr < m.page_table_size * page_size)
              × Allows (table (virt_addr / page_size)) writing
              × (p % size ≡ 0)
              × (p / page_size ≡ (table (virt_addr / page_size)).physical_page)
              × (p % page_size ≡ virt_addr % page_size)
              × (p + size ≤ memory_size)
              × (m' ≡ after m table virt_addr writing (address p)))
        × ((x : ExceptionType) → r ≡ fault x → m' ≡ m)
  translate-Judged virt_addr size writing ok =
      let r = expected table m.page_table_size virt_addr size writing in
      (
        r,
        after m table virt_addr writing r,
        translate-expected virt_addr size writing ok,
        expected-Judged table m.page_table_size virt_addr size writing ok,
        λ p e.
            let (on, inside, allowed, at) =
              expected-address table m.page_table_size virt_addr size writing ok e in
            let frame = (table (virt_addr / page_size)).physical_page in
            let (multiple, fits) = access-fits virt_addr size frame ok on allowed.on_machine in
            (
              on,
              inside,
              allowed,
              rw at multiple,
              omega (arith, at),
              omega (arith, at),
              rw at fits,
              rw e refl,
            ),
        λ x e. rw e refl,
      )
