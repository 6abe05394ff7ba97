-- ===== src/Userprog/FileCalls.antt =====
-- userprog/exception.cc: the system calls on files. The printed lines are left out. `none` is a
-- stopped kernel: a failed `ASSERT` or a wild access.
use cop5614nachos.Base.{
  ℕ, zero, suc, ◌+◌, ◌-◌, ◌%◌, ◌^◌, true, false, not, ◌||◌, Option, none, some, ltb, ◌==◌, ◌>>=◌,
  ◌>>◌, assert, Array, update,
}
use cop5614nachos.Userprog.UserMemory.{read_string, user_read_write, to_user, to_kernel}
use cop5614nachos.Userprog.OpenFiles.{
  Name, FileSystem, SofMgr, PofTable, find_sof_by_name, find_pof_by_name, create_sof, remove_sof,
  inc_sof_counter, write_sof, read_sof, create_pof, remove_pof, test_pof, get_num_free_pof,
  get_num_free_sof, set_pof_offset, get_pof_offset, get_pof_sof_index,
}
use cop5614nachos.Userprog.System.{
  System, minus_one, is_negative, c_string, update_pc_regs, current_pcb, answer, store_files,
}

-- The tables after `Close` of the slot.
unfoldable pub close_slot : ℕ → PofTable → SofMgr → Option (PofTable × SofMgr)
unfolding get_pof_sof_index remove_pof remove_sof
close_slot pof_index pofs sofs = do
  sof_index ← get_pof_sof_index pof_index pofs
  pofs1 ← remove_pof pof_index pofs
  sofs1 ← remove_sof sof_index sofs
  some (pofs1, sofs1)

module _ {World : Type 0} where
  -- The tables after `Open` of a name, and the slot that it returns.
  unfoldable pub open_name :
      FileSystem World
      → Name
      → PofTable
      → SofMgr
      → World
      → Option (Option ℕ × PofTable × SofMgr × World)
  unfolding find_sof_by_name find_pof_by_name create_sof create_pof inc_sof_counter get_num_free_pof
      get_num_free_sof
  open_name fs name pofs sofs world = do
    sof_found ← find_sof_by_name name sofs
    pof_found ← find_pof_by_name name pofs
    (sof, sofs1, world1) ← elim sof_found [
      | some i ↦ some (some i, sofs, world)
      | none ↦ elim pof_found [
        | some i ↦ none
        | none ↦ do
          free_pof ← get_num_free_pof pofs
          free_sof ← get_num_free_sof sofs
          elim (free_pof == 0 || free_sof == 0) [
            | true ↦ some (none, sofs, world)
            | false ↦ create_sof fs name sofs world
          ]
      ]
    ]
    elim sof [
      | none ↦ some (none, pofs, sofs1, world1)
      | some sof_index ↦ do
        (pof, pofs1) ← elim pof_found [
          | some i ↦ some (some i, pofs)
          | none ↦ create_pof sof_index name pofs
        ]
        elim pof [
          | none ↦ some (none, pofs1, sofs1, world1)
          | some pof_index ↦ do
            sofs2 ← inc_sof_counter sof_index sofs1
            some (some pof_index, pofs1, sofs2, world1)
        ]
    ]

  -- `OpenSystemcall`; `garbage` is what `new char[256]` holds.
  unfoldable pub open_systemcall : FileSystem World → Array ℕ → System World → Option (System World)
  unfolding read_string open_name
  open_systemcall fs garbage sys = do
    (a, block) ← current_pcb sys
    (whole, filename, vm) ← read_string block.pid (sys.registers 4) garbage 256 sys.vm
    (slot, pofs, sofs, world) ← open_name fs (c_string 256 0 filename) block.pofs sys.sofs sys.world
    let stored = store_files a block pofs sofs world (record sys { vm = vm })
    some (elim slot [ none ↦ answer minus_one stored | some i ↦ answer (i + 2) stored ])

  -- `CloseSystemcall`; a number below 2 is an index before the array.
  unfoldable pub close_systemcall : System World → Option (System World)
  unfolding close_slot
  close_systemcall sys = do
    (a, block) ← current_pcb sys
    let r4 = sys.registers 4
    assert (not (ltb r4 2))
    (pofs, sofs) ← close_slot (r4 - 2) block.pofs sys.sofs
    some (update_pc_regs (store_files a block pofs sofs sys.world sys))

  -- `CreateSystemcall`
  unfoldable pub create_systemcall :
      FileSystem World → Array ℕ → System World → Option (System World)
  unfolding read_string
  create_systemcall fs garbage sys = do
    (a, block) ← current_pcb sys
    (whole, filename, vm) ← read_string block.pid (sys.registers 4) garbage 256 sys.vm
    let (created, world) = fs.create_file (c_string 256 0 filename) sys.world
    some (update_pc_regs (record sys { vm = vm; world = world }))

  -- A write of the buffer to an open file, at the process's offset, which then moves by `size`.
  unfoldable pub write_slot :
      FileSystem World → Array ℕ → ℕ → ℕ → PofTable → SofMgr → World → Option (PofTable × World)
  unfolding get_pof_sof_index get_pof_offset write_sof set_pof_offset
  write_slot fs buffer size i pofs sofs world = do
    sof_index ← get_pof_sof_index i pofs
    offset ← get_pof_offset i pofs
    (num_written, world') ← write_sof fs buffer size offset sof_index sofs world
    pofs' ← set_pof_offset i ((offset + size) % 2 ^ 32) pofs
    some (pofs', world')

  -- `WriteSystemcall`; `new char[size + 1]` wants a size that is not negative.
  unfoldable pub write_systemcall :
      FileSystem World → Array ℕ → System World → Option (System World)
  unfolding user_read_write test_pof write_slot
  write_systemcall fs garbage sys = do
    (a, block) ← current_pcb sys
    let virt_addr = sys.registers 4
    let size = sys.registers 5
    let slot = sys.registers 6
    assert (ltb (size + 1) (2 ^ 31))
    (buffer, vm) ← user_read_write to_kernel block.pid garbage virt_addr size sys.vm
    let there : System World = record sys { vm = vm }
    elim (ltb slot 2 || is_negative slot) [
      | true ↦ some (update_pc_regs there)
      | false ↦ do
        is_open ← test_pof (slot - 2) block.pofs
        elim is_open [
          | false ↦ some (update_pc_regs there)
          | true ↦ do
            (pofs, world) ← write_slot fs buffer size (slot - 2) block.pofs sys.sofs sys.world
            some (update_pc_regs (store_files a block pofs sys.sofs world there))
        ]
    ]

  -- A read from an open file: the count, the buffer, and the offset moved by the count.
  unfoldable pub read_slot :
      FileSystem World
      → Array ℕ
      → ℕ
      → ℕ
      → PofTable
      → SofMgr
      → World
      → Option (ℕ × Array ℕ × PofTable × World)
  unfolding get_pof_sof_index get_pof_offset read_sof set_pof_offset
  read_slot fs buffer size i pofs sofs world = do
    sof_index ← get_pof_sof_index i pofs
    offset ← get_pof_offset i pofs
    (num_read, filled, world') ← read_sof fs buffer size offset sof_index sofs world
    pofs' ← set_pof_offset i ((offset + num_read) % 2 ^ 32) pofs
    some (num_read, filled, pofs', world')

  -- `buffer[i] = getchar()` for each `i` below the size.
  unfoldable pub console_loop : FileSystem World → ℕ → ℕ → Array ℕ → World → Array ℕ × World
  console_loop fs zero i buffer world = (buffer, world)
  console_loop fs (suc rounds) i buffer world =
      let (c, world') = fs.get_char world in
      console_loop fs rounds (i + 1) (update buffer i (c % 256)) world'

  -- `ReadSystemcall`; only a read from a file leaves its count in register 2.
  unfoldable pub read_systemcall : FileSystem World → Array ℕ → System World → Option (System World)
  unfolding user_read_write test_pof read_slot console_loop
  read_systemcall fs garbage sys = do
    (a, block) ← current_pcb sys
    let virt_addr = sys.registers 4
    let size = sys.registers 5
    let slot = sys.registers 6
    assert (ltb (size + 1) (2 ^ 31))
    elim (slot == 0) [
      | true ↦ do
        let (typed, world) = console_loop fs size 0 garbage sys.world
        (buffer, vm) ← user_read_write to_user block.pid (update typed size 0) virt_addr size sys.vm
        some (update_pc_regs (record sys { vm = vm; world = world }))
      | false ↦ elim (slot == 1 || is_negative slot) [
        | true ↦ some (update_pc_regs sys)
        | false ↦ do
          is_open ← test_pof (slot - 2) block.pofs
          elim is_open [
            | false ↦ some (update_pc_regs sys)
            | true ↦ do
              (num_read, filled, pofs, world) ←
                  read_slot fs garbage size (slot - 2) block.pofs sys.sofs sys.world
              (buffer, vm) ←
                  user_read_write to_user block.pid (update filled size 0) virt_addr size sys.vm
              some (
                  answer num_read
                    (store_files a block pofs sys.sofs world (record sys { vm = vm })))
          ]
      ]
    ]
