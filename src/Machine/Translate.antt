-- ===== src/Machine/Translate.antt =====
-- Machine::Translate of translate.cc.
pub mod Laws
use cop5614nachos.Base.{
  ℕ, zero, suc, ◌+◌, ◌*◌, ◌/◌, ◌%◌, Bool, true, false, not, Option, none, some, ◌&&◌, ◌||◌, ltb,
  leb, ◌==◌, if◌then◌else◌, Array, update, assert, ◌>>=◌, ◌>>◌,
}
use cop5614nachos.Machine.State.{
  page_size, num_phys_pages, memory_size, tlb_size, ExceptionType, no_exception,
  page_fault_exception, read_only_exception, bus_error_exception, address_error_exception,
  TranslationEntry, Machine,
}

-- The physical address that `*physAddr` gets, or the exception.
pub data Translation : Type 0 where
  fault : ExceptionType → Translation
  address : ℕ → Translation

-- Where the entry that serves the address stands.
pub data Slot : Type 0 where
  in_table : ℕ → Slot
  in_tlb : ℕ → Slot

pub data Lookup : Type 0 where
  missing : ExceptionType → Lookup
  found : Slot → TranslationEntry → Lookup

-- `size == 4 && (virtAddr & 0x3)`, `size == 2 && (virtAddr & 0x1)`.
abbrev pub misaligned : ℕ → ℕ → Bool
misaligned virt_addr size =
    (size == 4 && not (virt_addr % 4 == 0)) || (size == 2 && not (virt_addr % 2 == 0))

-- The search of the TLB, `rounds` entries from `i` on.
unfoldable pub find_entry : ℕ → ℕ → Array TranslationEntry → ℕ → Lookup
find_entry zero i tlb vpn = missing page_fault_exception
find_entry (suc rounds) i tlb vpn =
    let rest = find_entry rounds (i + 1) tlb vpn in
    if (tlb i).valid && (tlb i).virtual_page == vpn then found (in_tlb i) (tlb i) else rest

unfoldable pub lookup_table : Array TranslationEntry → ℕ → ℕ → Lookup
lookup_table table table_size vpn =
    if leb table_size vpn
    then missing address_error_exception
    else if not (table vpn).valid
    then missing page_fault_exception
    else found (in_table vpn) (table vpn)

-- Neither pointer or both of them fail an `ASSERT`.
unfoldable pub lookup_entry :
    Option (Array TranslationEntry) → Option (Array TranslationEntry) → ℕ → ℕ → Option Lookup
unfolding find_entry lookup_table
lookup_entry (some tlb) (some table) table_size vpn = none
lookup_entry none none table_size vpn = none
lookup_entry none (some table) table_size vpn = some (lookup_table table table_size vpn)
lookup_entry (some tlb) none table_size vpn = some (find_entry tlb_size 0 tlb vpn)

abbrev set_entry :
    Option (Array TranslationEntry) → ℕ → TranslationEntry → Option (Array TranslationEntry)
set_entry none i e = none
set_entry (some table) i e = some (update table i e)

-- The write through the pointer `entry`.
abbrev pub store_entry : Machine → Slot → TranslationEntry → Machine
store_entry m (in_table i) e = record m { page_table = set_entry m.page_table i e }
store_entry m (in_tlb i) e = record m { tlb = set_entry m.tlb i e }

unfoldable pub finish : Machine → ℕ → ℕ → Bool → Lookup → Option (Translation × Machine)
finish m offset size writing (missing e) = some (fault e, m)
finish m offset size writing (found slot entry) =
    if entry.read_only && writing
    then some (fault read_only_exception, m)
    else if leb num_phys_pages entry.physical_page
    then some (fault bus_error_exception, m)
    else do
      let phys_addr = entry.physical_page * page_size + offset
      assert (leb (phys_addr + size) memory_size)
      some (
        address phys_addr,
        store_entry m slot
            (record entry { use_bit = true; dirty = (if writing then true else entry.dirty) }),
      )

unfoldable pub translate : Machine → ℕ → ℕ → Bool → Option (Translation × Machine)
unfolding lookup_entry finish
translate m virt_addr size writing =
    if misaligned virt_addr size then some (fault address_error_exception, m) else do
      lookup ← lookup_entry m.tlb m.page_table m.page_table_size (virt_addr / page_size)
      finish m (virt_addr % page_size) size writing lookup
