-- ===== src/Userprog/AddrSpace.antt =====
-- userprog/addrspace.cc: page tables filled on demand, shared by `Fork` and split on a write.
pub mod CopyOnWrite
pub mod Faults
pub mod Sharing
use cop5614nachos.Base.{
  ℕ, zero, suc, ◌+◌, ◌-◌, ◌*◌, ◌/◌, ◌%◌, Bool, true, false, not, Option, none, some, ◌&&◌, ltb, leb,
  ◌==◌, if◌then◌else◌, Array, update, bcopy, assert, ◌>>=◌, ◌>>◌,
}
use cop5614nachos.Utility.{div_round_up}
use cop5614nachos.Machine.State.{page_size, num_phys_pages, memory_size, TranslationEntry}
use cop5614nachos.Userprog.Vm.{
  no_page, user_stack_size, AddrSpace, Vm, space_of, store_space, entry_at, store_entry,
}
use cop5614nachos.Userprog.MemoryMgr.{get_page, clear_page, unset_share, set_share}

-- The header of a NOFF file, in the byte order of the host.
pub record NoffHeader : Type 0 where
  pub code_size : ℕ
  pub code_virtual_addr : ℕ
  pub code_in_file_addr : ℕ
  pub init_data_size : ℕ
  pub uninit_data_size : ℕ

-- An entry of a new table; the physical page is -1.
abbrev pub fresh_entry : ℕ → TranslationEntry
fresh_entry i = record {
  virtual_page = i;
  physical_page = no_page;
  valid = false;
  read_only = false;
  use_bit = false;
  dirty = false;
  zero_filled = false;
}

abbrev pub image_size : NoffHeader → ℕ
image_size noff = noff.code_size + noff.init_data_size + noff.uninit_data_size + user_stack_size

-- AllocateSwapFile: the code and data of the executable, then zeros.
abbrev pub swap_image : NoffHeader → Array ℕ → Array ℕ
swap_image noff executable =
    bcopy executable noff.code_in_file_addr (λ j. 0) 0 (noff.code_size + noff.init_data_size)

-- The constructor `AddrSpace(executable, newPCB, filename)`.
unfoldable pub addr_space : NoffHeader → Array ℕ → AddrSpace
addr_space noff executable =
    let pages = div_round_up (image_size noff) page_size in
    record {
      page_table = fresh_entry;
      num_pages = pages;
      code_data_size = noff.code_size + noff.init_data_size;
      code_data_virt_addr = noff.code_virtual_addr;
      code_data_file_addr = noff.code_in_file_addr;
      swap_file_size = pages * page_size;
      swapfile = swap_image noff executable;
    }

-- `bzero(machine->mainMemory + ppn * PageSize, PageSize)`
abbrev pub zero_frame : Array ℕ → ℕ → Array ℕ
zero_frame memory frame = bcopy (λ j. 0) 0 memory (frame * page_size) page_size

-- A page that lies past the code and data and was not yet handed out is zeroed, any other is read
-- from the swap file.
abbrev pub zero_fills : AddrSpace → ℕ → TranslationEntry → Bool
zero_fills s virt_addr e =
    leb (s.code_data_size + s.code_data_virt_addr) virt_addr && not e.zero_filled

-- The frame's new contents.
abbrev pub page_contents : AddrSpace → ℕ → TranslationEntry → Array ℕ → ℕ → Array ℕ
page_contents s virt_addr e memory frame =
    if zero_fills s virt_addr e
    then zero_frame memory frame
    else bcopy s.swapfile (virt_addr / page_size * page_size) memory (frame * page_size) page_size

-- The entry of a page that was brought into a frame.
abbrev pub resident : AddrSpace → ℕ → TranslationEntry → ℕ → TranslationEntry
resident s virt_addr e frame = record e {
  virtual_page = virt_addr / page_size;
  physical_page = frame;
  valid = true;
  read_only = false;
  zero_filled = (if zero_fills s virt_addr e then true else e.zero_filled);
}

unfoldable pub page_in : ℕ → ℕ → Vm → Option Vm
page_in pid virt_addr v = do
  let vpn = virt_addr / page_size
  (frame, w) ← get_page pid no_page v
  s ← space_of w pid
  e ← entry_at s vpn
  some (record (store_space w pid (store_entry s vpn (resident s virt_addr e frame))) {
    main_memory = page_contents s virt_addr e w.main_memory frame;
  })

-- `bcopy` from one frame to another.
abbrev pub copy_frame : Array ℕ → ℕ → ℕ → Array ℕ
copy_frame memory from to = bcopy memory (from * page_size) memory (to * page_size) page_size

unfoldable pub cow : ℕ → ℕ → Vm → Option Vm
cow pid virt_addr v = do
  let vpn = virt_addr / page_size
  s ← space_of v pid
  e ← entry_at s vpn
  (frame, w) ← get_page pid e.physical_page v
  s' ← space_of w pid
  e' ← entry_at s' vpn
  let split : AddrSpace =
      store_entry s' vpn (record e' { physical_page = frame; read_only = false })
  unset_share e'.physical_page pid (record (store_space w pid split) {
    main_memory = copy_frame w.main_memory e'.physical_page frame;
  })

-- ReleaseMemory, pages from `i` on.
unfoldable pub release_loop : ℕ → ℕ → ℕ → AddrSpace → Vm → Option Vm
release_loop zero i pid s v = some v
release_loop (suc rounds) i pid s v = do
  let e : TranslationEntry = s.page_table i
  w ←
      if e.physical_page == no_page
      then some v
      else if e.read_only
      then unset_share e.physical_page pid v
      else clear_page e.physical_page v
  release_loop rounds (i + 1) pid s w

-- The space is an argument, since on exit `allPCB[pid]` is NULL by now. No step of the loop changes
-- it: `UnsetShare` has taken the frame from this process before it looks for the last sharer.
unfoldable pub release_memory : ℕ → AddrSpace → Vm → Option Vm
unfolding release_loop
release_memory pid s v = release_loop s.num_pages 0 pid s v

-- `ReplaceMemory` keeps `numPages` as it was; `zeroFilled` of the new entries is not set, `garbage`.
unfoldable pub replace_memory : NoffHeader → Array ℕ → Array Bool → ℕ → Vm → Option Vm
unfolding release_memory
replace_memory noff executable garbage pid v = do
  s ← space_of v pid
  w ← release_memory pid s v
  s' ← space_of w pid
  some (
      store_space w pid (record s' {
        code_data_size = noff.code_size + noff.init_data_size;
        code_data_virt_addr = noff.code_virtual_addr;
        code_data_file_addr = noff.code_in_file_addr;
        swap_file_size = s'.num_pages * page_size;
        swapfile = swap_image noff executable;
        page_table = λ i. record (fresh_entry i) { zero_filled = garbage i };
      }))

-- The entries of parent and child after `Fork` has shared the page.
abbrev pub shared_entry : TranslationEntry → TranslationEntry
shared_entry e = if e.physical_page == no_page then e else record e { read_only = true }

-- The loop of `Fork`: each page is shared with the child, whose table is built beside.
unfoldable pub fork_loop :
    ℕ
    → ℕ
    → ℕ
    → AddrSpace
    → Array TranslationEntry
    → Vm
    → Option (AddrSpace × Array TranslationEntry × Vm)
fork_loop zero i child s table v = some (s, table, v)
fork_loop (suc rounds) i child s table v = do
  let e : TranslationEntry = s.page_table i
  w ← set_share e.physical_page child v
  fork_loop rounds (i + 1) child (store_entry s i (shared_entry e))
      (update table i (shared_entry e)) w

-- `Fork(newPCB)`: the child's swap file is made from the executable again.
unfoldable pub fork : ℕ → ℕ → Array ℕ → Vm → Option Vm
unfolding fork_loop
fork parent child executable v = do
  s ← space_of v parent
  (s', table, w) ← fork_loop s.num_pages 0 child s fresh_entry v
  let swap : Array ℕ = bcopy executable s.code_data_file_addr (λ j. 0) 0 s.code_data_size
  let child_space : AddrSpace = record s { page_table = table; swapfile = swap }
  some (store_space (store_space w parent s') child child_space)

-- `Translate(virtAddr, &physAddr, size)` for a `virtAddr` that is not negative: the physical address
-- or FALSE, after a page fault served at once where the page is not in memory.
unfoldable pub translate : ℕ → ℕ → ℕ → Vm → Option (Option ℕ × Vm)
translate pid virt_addr size v = do
  let vpn = virt_addr / page_size
  s ← space_of v pid
  if leb s.num_pages vpn then some (none, v) else do
    w ← if (s.page_table vpn).valid then some v else page_in pid virt_addr v
    s' ← space_of w pid
    let e : TranslationEntry = s'.page_table vpn
    if leb num_phys_pages e.physical_page then some (none, w) else do
      let phys_addr = e.physical_page * page_size + virt_addr % page_size
      assert (leb (phys_addr + size) memory_size)
      some (some phys_addr, store_space w pid (store_entry s' vpn (record e { use_bit = true })))
