-- ===== src/Userprog/ProcessCalls.antt =====
-- userprog/exception.cc: the system calls on processes, the two faults, and which handler an
-- exception goes to. The printed lines are left out, and `VMLock`, since nothing sleeps while it is
-- held. `none` is a stopped kernel: a failed `ASSERT` or a wild access.
use cop5614nachos.Base.{
  ℕ, ◌+◌, ◌-◌, ◌%◌, ◌^◌, true, false, ◌||◌, Option, none, some, leb, ◌==◌, if◌then◌else◌, ◌>>=◌,
  ◌>>◌, assert, Array, update,
}
use cop5614nachos.Machine.State.{pc_reg, next_pc_reg, prev_pc_reg, bad_vaddr_reg}
use cop5614nachos.Threads.Kernel.{finish, fork}
use cop5614nachos.Userprog.AddrSpace
use cop5614nachos.Userprog.Vm.{Vm, space_of}
use cop5614nachos.Userprog.AddrSpace.{page_in, cow, release_memory}
use cop5614nachos.Userprog.OpenFiles.{Pof, close_all}
use cop5614nachos.Userprog.Processes.{
  create_pcb, append_child_pcb, store_pcb, remove_pcb, is_set_pid, get_pcb, get_child_pcb,
  remove_child_parent_pcb, remove_parent_pcb_child,
}
use cop5614nachos.Machine.State.{
  ExceptionType, syscall_exception, page_fault_exception, read_only_exception,
}
use cop5614nachos.Userprog.System.{System, minus_one, is_negative, current_pcb, answer}

-- The handlers of exception.cc.
pub data Handler : Type 0 where
  halts exits forks execs yields joins kills creates opens closes writes reads : Handler
  pages_in copies_on_write : Handler

-- `ExceptionHandler`: by the exception and the code in register 2; the rest fails an `ASSERT`.
abbrev pub syscall_handler : ℕ → Option Handler
syscall_handler type =
    if type == 0
    then some halts
    else if type == 1
    then some exits
    else if type == 9
    then some forks
    else if type == 2
    then some execs
    else if type == 10
    then some yields
    else if type == 3
    then some joins
    else if type == 11
    then some kills
    else if type == 4
    then some creates
    else if type == 5
    then some opens
    else if type == 8
    then some closes
    else if type == 7
    then some writes
    else if type == 6
    then some reads
    else none

unfoldable pub handler_of : ExceptionType → ℕ → Option Handler
handler_of syscall_exception type = syscall_handler type
handler_of page_fault_exception type = some pages_in
handler_of read_only_exception type = some copies_on_write
handler_of _ type = none

-- What is left when `ReleaseMemory` is called in `Exit` and `Kill`: `allPCB[pid]` is NULL.
abbrev pub forget_space : ℕ → Vm → Vm
forget_space pid v = record v { spaces = update v.spaces pid none }

-- The registers that the child starts with: the parent's, at the address in register 4.
abbrev pub child_registers : Array ℕ → Array ℕ
child_registers r =
    let start = r 4 in
    update (update (update r pc_reg start) next_pc_reg ((start + 4) % 2 ^ 32)) prev_pc_reg
      ((start + (2 ^ 32 - 4)) % 2 ^ 32)

module _ {World : Type 0} where
  -- The process part that `Exit` and `Kill` share: the family, the number, the memory, the files.
  unfoldable pub end_process : ℕ → ℕ → System World → Option (System World)
  unfolding remove_child_parent_pcb remove_parent_pcb_child remove_pcb release_memory close_all
  end_process a exit_value sys = do
    block ← sys.processes.pcb a
    space ← space_of sys.vm block.pid
    ps1 ← remove_child_parent_pcb a sys.processes
    ps2 ← remove_parent_pcb_child a exit_value ps1
    ps3 ← remove_pcb a ps2
    vm ← release_memory block.pid space (forget_space block.pid sys.vm)
    ended ← ps3.pcb a
    (pofs, sofs) ← close_all ended.pofs sys.sofs
    some (record sys { processes = store_pcb ps3 a none; vm = vm; sofs = sofs })

  -- `ExitSystemcall`
  unfoldable pub exit_systemcall : System World → Option (System World)
  unfolding end_process finish
  exit_systemcall sys = do
    (a, block) ← current_pcb sys
    ended ← end_process a (sys.registers 4) sys
    some (record ended { kernel = finish ended.kernel })

  -- `JoinSystemcall` up to its loop: the answer -1, or the child that it waits for.
  unfoldable pub join_check : System World → Option (Option ℕ)
  unfolding get_child_pcb
  join_check sys = do
    (a, block) ← current_pcb sys
    let join_pid = sys.registers 4
    elim (is_negative join_pid || leb sys.processes.num_total_pid join_pid) [
      | true ↦ some none
      | false ↦ do
        found ← get_child_pcb a join_pid sys.processes
        elim found [
          | none ↦ some none
          | some child ↦ do
            child_block ← sys.processes.pcb child
            parent ← child_block.parent_pcb
            parent_block ← sys.processes.pcb parent
            assert (parent_block.pid == block.pid)
            some (some child)
        ]
    ]

  -- The loop of `JoinSystemcall`, each time that its thread runs: once more, or the answer.
  unfoldable pub join_poll : ℕ → System World → Option (Option (System World))
  unfolding is_set_pid
  join_poll join_pid sys = do
    alive ← is_set_pid join_pid sys.processes
    elim alive [
      | true ↦ some none
      | false ↦ do (a, block) ← current_pcb sys; some (some (answer block.child_exit_value sys))
    ]

  -- `KillSystemcall` up to the removal of the thread from the scheduler: the process does not exist,
  -- is the caller itself, or is ended.
  unfoldable pub kill_process : System World → Option (System World)
  unfolding get_pcb exit_systemcall end_process
  kill_process sys = do
    (a, block) ← current_pcb sys
    let kill_pid = sys.registers 4
    found ← get_pcb kill_pid sys.processes
    elim found [
      | none ↦ some (answer minus_one sys)
      | some killed ↦ elim (kill_pid == block.pid) [
        | true ↦ exit_systemcall sys
        | false ↦ do
          killed_block ← sys.processes.pcb killed
          thread ← killed_block.this_thread
          end_process killed minus_one sys
      ]
    ]

  -- `PageFaultHandler` and `ReadOnlyExceptionHandler`
  unfoldable pub page_fault_handler : System World → Option (System World)
  unfolding page_in
  page_fault_handler sys = do
    (a, block) ← current_pcb sys
    vm ← page_in block.pid (sys.registers bad_vaddr_reg) sys.vm
    some (record sys { vm = vm })

  unfoldable pub read_only_exception_handler : System World → Option (System World)
  unfolding cow
  read_only_exception_handler sys = do
    (a, block) ← current_pcb sys
    vm ← cow block.pid (sys.registers bad_vaddr_reg) sys.vm
    some (record sys { vm = vm })

  -- `ForkSystemcall`; `garbage` and `slots` are what `new PCB` finds in memory, and `executable` the
  -- file that the child's swap file is made from.
  unfoldable pub fork_systemcall :
      Array ℕ → Array (Option Pof) → Array ℕ → System World → Option (System World)
  unfolding create_pcb append_child_pcb
  fork_systemcall garbage slots executable sys = do
    (a, block) ← current_pcb sys
    let saved : System World = record sys {
      user_registers = update sys.user_registers block.pid sys.registers;
    }
    (made, ps) ← create_pcb garbage slots sys.processes
    elim made [
      | none ↦ some (answer minus_one saved)
      | some child ↦ do
        child_block ← ps.pcb child
        vm ← AddrSpace.fork block.pid child_block.pid executable sys.vm
        let thread = sys.thread_limit
        let ps1 =
            store_pcb ps child
              (some (record child_block { this_thread = some thread; parent_pcb = some a }))
        ps2 ← append_child_pcb a child ps1
        some (
            answer child_block.pid (record saved {
              processes = ps2;
              vm = vm;
              pcb_of = update sys.pcb_of thread (some child);
              thread_limit = thread + 1;
              user_registers =
                  update saved.user_registers child_block.pid (child_registers sys.registers);
              kernel = fork thread sys.kernel;
            }))
    ]
