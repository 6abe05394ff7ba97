-- ===== src/Userprog/System.antt =====
-- The state that the system calls of userprog/exception.cc work on, and what every call does with it.
use cop5614nachos.Base.{
  ℕ, zero, suc, ◌+◌, ◌-◌, ◌%◌, ◌^◌, Bool, Option, some, [], ◌∷◌, leb, ◌==◌, if◌then◌else◌, ◌>>=◌,
  Array, update,
}
use cop5614nachos.Machine.State.{pc_reg, next_pc_reg, prev_pc_reg}
use cop5614nachos.Threads.Kernel.{Kernel}
use cop5614nachos.Userprog.Vm.{Vm}
use cop5614nachos.Userprog.OpenFiles.{Name, SofMgr, PofTable}
use cop5614nachos.Userprog.Processes.{Pcb, Processes, store_pcb}

-- The registers are the machine's; `pcb_of t` is the block of the process that thread `t` runs,
-- `thread->space->thisPCB`, and `user_registers pid` what the address space of the process saved.
-- `new Thread` is the thread `thread_limit`.
pub record System (World : Type 0) : Type 0 where
  pub registers : Array ℕ
  pub vm : Vm
  pub processes : Processes
  pub sofs : SofMgr
  pub kernel : Kernel
  pub pcb_of : Array (Option ℕ)
  pub user_registers : Array (Array ℕ)
  pub thread_limit : ℕ
  pub world : World

-- -1 in a register.
abbrev pub minus_one : ℕ
minus_one = 2 ^ 32 - 1

-- An int that a register holds is negative.
abbrev pub is_negative : ℕ → Bool
is_negative value = leb (2 ^ 31) value

-- The bytes of a C string up to its NUL.
abbrev pub c_string : ℕ → ℕ → Array ℕ → Name
c_string zero i buffer = []
c_string (suc rounds) i buffer =
    let later = c_string rounds (i + 1) buffer in if buffer i == 0 then [] else buffer i ∷ later

module _ {World : Type 0} where
  abbrev pub set_register : ℕ → ℕ → System World → System World
  set_register reg value sys = record sys { registers = update sys.registers reg value }

  -- `UpdatePCRegs`
  unfoldable pub update_pc_regs : System World → System World
  update_pc_regs sys =
      let r = sys.registers in
      let r1 = update r pc_reg ((r pc_reg + 4) % 2 ^ 32) in
      let r2 = update r1 prev_pc_reg ((r prev_pc_reg + 4) % 2 ^ 32) in
      record sys { registers = update r2 next_pc_reg ((r next_pc_reg + 4) % 2 ^ 32) }

  -- `currentThread->space->thisPCB`
  abbrev pub current_pcb : System World → Option (ℕ × Pcb)
  current_pcb sys = do
    a ← sys.pcb_of sys.kernel.current_thread
    block ← sys.processes.pcb a
    some (a, block)

  -- The result in register 2, and past the system call.
  abbrev pub answer : ℕ → System World → System World
  answer value sys = update_pc_regs (set_register 2 value sys)

  -- The tables of a process's open files and of the system's, and the files.
  abbrev pub store_files : ℕ → Pcb → PofTable → SofMgr → World → System World → System World
  store_files a block pofs sofs world sys = record sys {
    processes = store_pcb sys.processes a (some (record block { pofs = pofs }));
    sofs = sofs;
    world = world;
  }
