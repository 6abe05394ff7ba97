-- ===== src/Userprog/UserMemory.antt =====
-- userprog/addrspace.cc: how the kernel reads a string from a process's memory, and copies between
-- it and a buffer of its own. An int address is the pattern of its 32 bits.
use cop5614nachos.Base.{
  ℕ, zero, suc, ◌+◌, ◌-◌, ◌%◌, ◌^◌, Bool, true, false, Option, none, some, ltb, leb, ◌==◌,
  if◌then◌else◌, ◌>>=◌, ◌>>◌, assert, Array, update, bcopy,
}
use cop5614nachos.Machine.State.{page_size}
use cop5614nachos.Userprog.Vm.{Vm}
use cop5614nachos.Userprog.AddrSpace.{translate}

-- `Translate`, FALSE for a negative address.
unfoldable pub translate_int : ℕ → ℕ → ℕ → Vm → Option (Option ℕ × Vm)
unfolding translate
translate_int pid virt_addr size v =
    if leb (2 ^ 31) virt_addr then some (none, v) else translate pid virt_addr size v

-- The bytes of `ReadString` from `cur_buffer` on, `left` of which have room.
unfoldable pub read_string_loop : ℕ → ℕ → ℕ → ℕ → Array ℕ → Vm → Option (Bool × Array ℕ × Vm)
unfolding translate_int
read_string_loop zero cur_buffer pid virt_addr buffer v = some (true, buffer, v)
read_string_loop (suc left) cur_buffer pid virt_addr buffer v = do
  (found, w) ← translate_int pid virt_addr 1 v
  elim found [
    | none ↦ some (false, buffer, w)
    | some phys_addr ↦
        let c = w.main_memory phys_addr in
        let filled = update buffer cur_buffer c in
        elim (c == 0) [
          | true ↦ some (true, filled, w)
          | false ↦ read_string_loop left (cur_buffer + 1) pid ((virt_addr + 1) % 2 ^ 32) filled w
        ]
  ]

-- `ReadString(stringAddr, stringBuffer, size)`, for a positive size.
unfoldable pub read_string : ℕ → ℕ → Array ℕ → ℕ → Vm → Option (Bool × Array ℕ × Vm)
unfolding read_string_loop
read_string pid string_addr buffer size v = read_string_loop size 0 pid string_addr buffer v

-- `'r'` of `userReadWrite` is the way from the buffer to the process.
pub data Direction : Type 0 where
  to_user to_kernel : Direction

-- What the copies share: `curBuffer`, `curVirtAddr` and `leftSize`, the buffer and the memory.
pub record Copying : Type 0 where
  pub cur_buffer : ℕ
  pub cur_virt_addr : ℕ
  pub left_size : ℕ
  pub buffer : Array ℕ
  pub vm : Vm

abbrev pub move_bytes : Direction → ℕ → ℕ → Copying → Copying
move_bytes to_user phys_addr size c = record c {
  vm = record (c.vm) { main_memory = bcopy c.buffer c.cur_buffer c.vm.main_memory phys_addr size };
}
move_bytes to_kernel phys_addr size c = record c {
  buffer = bcopy c.vm.main_memory phys_addr c.buffer c.cur_buffer size;
}

-- One `Translate` and, where it succeeds, the copy of `size` bytes.
unfoldable pub copy_part : Direction → ℕ → ℕ → Copying → Option (Bool × Copying)
unfolding translate_int
copy_part direction pid size c = do
  (found, w) ← translate_int pid c.cur_virt_addr size c.vm
  let there : Copying = record c { vm = w }
  elim found [
    | none ↦ some (false, there)
    | some phys_addr ↦
        let moved = move_bytes direction phys_addr size there in
        some (
          true,
          record moved {
            cur_buffer = moved.cur_buffer + size;
            cur_virt_addr = (moved.cur_virt_addr + size) % 2 ^ 32;
            left_size = moved.left_size - size;
          },
        )
  ]

-- `while (leftSize >= PageSize)`. A page that does not translate is tried for ever, which is `none`,
-- as is the end of the fuel.
unfoldable pub copy_pages : ℕ → Direction → ℕ → Copying → Option Copying
unfolding copy_part
copy_pages zero direction pid c = if ltb c.left_size page_size then some c else none
copy_pages (suc fuel) direction pid c = elim (ltb c.left_size page_size) [
  | true ↦ some c
  | false ↦ do
    (copied, c') ← copy_part direction pid page_size c
    if copied then copy_pages fuel direction pid c' else none
]

abbrev pub min : ℕ → ℕ → ℕ
min a b = if ltb a b then a else b

-- The bytes up to the end of the first page, where the address is inside one.
unfoldable pub copy_head : Direction → ℕ → Copying → Option Copying
unfolding copy_part
copy_head direction pid c =
    let inside = c.cur_virt_addr % page_size in
    if inside == 0
    then some c
    else do (copied, c') ← copy_part direction pid (min c.left_size (page_size - inside)) c; some c'

unfoldable pub copy_tail : Direction → ℕ → Copying → Option Copying
unfolding copy_part
copy_tail direction pid c =
    if c.left_size == 0
    then some c
    else do (copied, c') ← copy_part direction pid c.left_size c; some c'

-- `userReadWrite(buffer, virtAddr, size, opt)`, for a size and an address that are not negative; the
-- `ASSERT` at its end stops the kernel when a part did not translate.
unfoldable pub user_read_write : Direction → ℕ → Array ℕ → ℕ → ℕ → Vm → Option (Array ℕ × Vm)
unfolding copy_head copy_pages copy_tail
user_read_write direction pid buffer virt_addr size v = do
  c1 ← copy_head direction pid (record {
    cur_buffer = 0;
    cur_virt_addr = virt_addr;
    left_size = size;
    buffer = buffer;
    vm = v;
  })
  c2 ← copy_pages size direction pid c1
  c3 ← copy_tail direction pid c2
  assert (c3.cur_buffer == size)
  some (c3.buffer, c3.vm)
