-- ===== src/Machine/State.antt =====
-- machine.h, translate.h and machine.cc: the registers, the main memory, the page table and the TLB.
use cop5614nachos.Base.{ℕ, ◌*◌, Bool, Option, some, ltb, Array, update, assert, ◌>>◌}

abbrev pub page_size : ℕ
page_size = 128

abbrev pub num_phys_pages : ℕ
num_phys_pages = 32

abbrev pub memory_size : ℕ
memory_size = num_phys_pages * page_size

abbrev pub tlb_size : ℕ
tlb_size = 4

pub data ExceptionType : Type 0 where
  no_exception syscall_exception page_fault_exception read_only_exception : ExceptionType
  bus_error_exception address_error_exception overflow_exception : ExceptionType
  illegal_instr_exception : ExceptionType

-- The physical page -1 that the kernel stores is the pattern `2 ^ 32 - 1`.
pub record TranslationEntry : Type 0 where
  pub virtual_page : ℕ
  pub physical_page : ℕ
  pub valid : Bool
  pub read_only : Bool
  pub use_bit : Bool
  pub dirty : Bool
  pub zero_filled : Bool

abbrev pub stack_reg : ℕ
stack_reg = 29

abbrev pub hi_reg : ℕ
hi_reg = 32

abbrev pub lo_reg : ℕ
lo_reg = 33

abbrev pub pc_reg : ℕ
pc_reg = 34

abbrev pub next_pc_reg : ℕ
next_pc_reg = 35

abbrev pub prev_pc_reg : ℕ
prev_pc_reg = 36

abbrev pub load_reg : ℕ
load_reg = 37

abbrev pub load_value_reg : ℕ
load_value_reg = 38

abbrev pub bad_vaddr_reg : ℕ
bad_vaddr_reg = 39

abbrev pub num_total_regs : ℕ
num_total_regs = 40

-- `tlb` and `pageTable` are pointers, `none` for NULL; exactly one of them is in use.
pub record Machine : Type 0 where
  pub main_memory : Array ℕ
  pub registers : Array ℕ
  pub tlb : Option (Array TranslationEntry)
  pub page_table : Option (Array TranslationEntry)
  pub page_table_size : ℕ

unfoldable pub read_register : Machine → ℕ → Option ℕ
read_register m num = do assert (ltb num num_total_regs); some (m.registers num)

unfoldable pub write_register : Machine → ℕ → ℕ → Option Machine
write_register m num value = do
  assert (ltb num num_total_regs)
  some (record m { registers = update m.registers num value })

-- The pending load goes to its register, the next one is noted, and register 0 stays zero.
unfoldable pub delayed_load : Machine → ℕ → ℕ → Machine
delayed_load m next_reg next_value =
    let landed : Array ℕ = update m.registers (m.registers load_reg) (m.registers load_value_reg) in
    let noted : Array ℕ = update (update landed load_reg next_reg) load_value_reg next_value in
    record m { registers = update noted 0 0 }
