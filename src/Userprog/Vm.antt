-- ===== src/Userprog/Vm.antt =====
-- The state that the paging code shares: memorymgr.h, addrspace.h, the table `allPCB` of processmgr.h
-- and the main memory of the machine. The kernel runs one operation at a time under `memoryLock`
-- and `VMLock`, so the locks are left out. A frame or page -1 is the pattern `2 ^ 32 - 1`, and a
-- frame time -1 is `none`. `none` as the result of an operation is an access through a null pointer
-- or outside an array.
use cop5614nachos.Base.{ℕ, Bool, Option, none, some, ltb, Array, update, if◌then◌else◌}
use cop5614nachos.Bitmap.{BitMap}
use cop5614nachos.Machine.State.{TranslationEntry}

abbrev pub pidmap_size : ℕ
pidmap_size = 32

-- -1 as an unsigned word.
abbrev pub no_page : ℕ
no_page = 0xffff_ffff

abbrev pub user_stack_size : ℕ
user_stack_size = 1024

-- `timestamp` counts up from 0 and is taken not to reach `2 ^ 31`.
pub record MemoryMgr : Type 0 where
  pub memory_map : BitMap
  pub frametime : Array (Option ℕ)
  pub frame_pid : Array (Array Bool)
  pub timestamp : ℕ

-- The swap file is a UNIX file (FILESYS_STUB): its bytes.
pub record AddrSpace : Type 0 where
  pub page_table : Array TranslationEntry
  pub num_pages : ℕ
  pub code_data_size : ℕ
  pub code_data_virt_addr : ℕ
  pub code_data_file_addr : ℕ
  pub swap_file_size : ℕ
  pub swapfile : Array ℕ

-- `spaces pid` is `allPCB[pid]->thisAddrSpace`, and `none` where `allPCB[pid]` is NULL.
pub record Vm : Type 0 where
  pub mgr : MemoryMgr
  pub spaces : Array (Option AddrSpace)
  pub main_memory : Array ℕ

-- `processMgr->allPCB[pid]->thisAddrSpace->...`
abbrev pub space_of : Vm → ℕ → Option AddrSpace
space_of v pid = v.spaces pid

abbrev pub store_space : Vm → ℕ → AddrSpace → Vm
store_space v pid s = record v { spaces = update v.spaces pid (some s) }

-- A write to `pageTable[vpn]`, which must exist.
abbrev pub entry_at : AddrSpace → ℕ → Option TranslationEntry
entry_at s vpn = if ltb vpn s.num_pages then some (s.page_table vpn) else none

abbrev pub store_entry : AddrSpace → ℕ → TranslationEntry → AddrSpace
store_entry s vpn e = record s { page_table = update s.page_table vpn e }
