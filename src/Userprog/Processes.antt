-- ===== src/Userprog/Processes.antt =====
-- userprog/processmgr.cc and the family part of pcb.cc: process control blocks, at addresses as
-- `new` gives them, the process numbers in use and who is whose child. `pidLock` is left out, since
-- nothing sleeps while it is held. `none` as the result is a failed `ASSERT`, or an access through
-- NULL or to a block that was deleted.
use cop5614nachos.Base.{
  ℕ, ◌+◌, Bool, true, false, Option, none, some, ◌==◌, if◌then◌else◌, ◌>>=◌, Array, update,
}
use cop5614nachos.Bitmap.{BitMap, bit_map, test, clear, find, num_clear}
use cop5614nachos.Threads.LinkedList.{
  LinkedList, Store, empty_list, sorted_insert, sorted_remove, search_key, mapcar,
}
use cop5614nachos.Userprog.OpenFiles.{PofTable, Pof, pof_maxnum}

-- `thisThread` and `thisAddrSpace` are kept by the thread and by the process number.
pub record Pcb : Type 0 where
  pub pid : ℕ
  pub this_thread : Option ℕ
  pub parent_pcb : Option ℕ
  pub children_pcb : LinkedList
  pub child_exit_value : ℕ
  pub pofs : PofTable

-- `pcb a` is the block at address `a`, and `pcb_limit` the address that `new` takes next; `cells`
-- holds the cells of the lists of children.
pub record Processes : Type 0 where
  pub num_total_pid : ℕ
  pub pid_map : BitMap
  pub all_pcb : Array (Option ℕ)
  pub pcb : Array (Option Pcb)
  pub pcb_limit : ℕ
  pub cells : Store

abbrev pub store_pcb : Processes → ℕ → Option Pcb → Processes
store_pcb ps a block = record ps { pcb = update ps.pcb a block }

-- `ProcessMgr(size)`, with the bits and the pointers that `new` leaves.
unfoldable pub process_mgr : ℕ → Array ℕ → Array (Option ℕ) → Option Processes
process_mgr size garbage pointers = do
  map ← bit_map size garbage
  some (record {
    num_total_pid = size;
    pid_map = map;
    all_pcb = pointers;
    pcb = λ a. none;
    pcb_limit = 0;
    cells = record { cell = λ a. none; limit = 0 };
  })

-- `PCB(inputPID)`
unfoldable pub new_pcb : ℕ → Array ℕ → Array (Option Pof) → Option Pcb
unfolding empty_list
new_pcb pid garbage slots = do
  map ← bit_map pof_maxnum garbage
  some (record {
    pid = pid;
    this_thread = none;
    parent_pcb = none;
    children_pcb = empty_list;
    child_exit_value = 0;
    pofs = record { pof_map = map; pof_array = slots };
  })

-- `CreatePCB`: the address, or NULL when no number is free.
unfoldable pub create_pcb : Array ℕ → Array (Option Pof) → Processes → Option (Option ℕ × Processes)
unfolding new_pcb
create_pcb garbage slots ps = do
  num_free ← num_clear ps.pid_map
  elim (num_free == 0) [
    | true ↦ some (none, ps)
    | false ↦ do
      (found, map) ← find ps.pid_map
      pid ← found
      block ← new_pcb pid garbage slots
      let a = ps.pcb_limit
      some (
        some a,
        record ps {
          pid_map = map;
          all_pcb = update ps.all_pcb pid (some a);
          pcb = update ps.pcb a (some block);
          pcb_limit = a + 1;
        },
      )
  ]

-- `RemovePCB`
unfoldable pub remove_pcb : ℕ → Processes → Option Processes
remove_pcb a ps = do
  block ← ps.pcb a
  map ← clear ps.pid_map block.pid
  some (record ps { pid_map = map; all_pcb = update ps.all_pcb block.pid none })

unfoldable pub get_num_free_pcbs : Processes → Option ℕ
get_num_free_pcbs ps = num_clear ps.pid_map

-- `IsSet`
unfoldable pub is_set_pid : ℕ → Processes → Option Bool
is_set_pid pid ps = test ps.pid_map pid

-- `GetPCB`
unfoldable pub get_pcb : ℕ → Processes → Option (Option ℕ)
get_pcb pid ps = do used ← test ps.pid_map pid; some (if used then ps.all_pcb pid else none)

-- `AppendChildPCB` of the block at `parent`.
unfoldable pub append_child_pcb : ℕ → ℕ → Processes → Option Processes
append_child_pcb parent child ps = do
  block ← ps.pcb parent
  child_block ← ps.pcb child
  (children, cells) ← sorted_insert child child_block.pid block.children_pcb ps.cells
  some (record ps {
    pcb = update ps.pcb parent (some (record block { children_pcb = children }));
    cells = cells;
  })

-- `RemoveChildPCB`: the number of the child goes into a variable that `SortedRemove` overwrites.
unfoldable pub remove_child_pcb : ℕ → ℕ → Processes → Option Processes
remove_child_pcb parent child ps = do
  block ← ps.pcb parent
  child_block ← ps.pcb child
  (removed, children, cells) ← sorted_remove block.children_pcb ps.cells
  some (record ps {
    pcb = update ps.pcb parent (some (record block { children_pcb = children }));
    cells = cells;
  })

-- `setParentPCBNULL`
abbrev pub set_parent_null : ℕ → Option Processes → Option Processes
set_parent_null a state = do
  ps ← state
  block ← ps.pcb a
  some (store_pcb ps a (some (record block { parent_pcb = none })))

-- `RemoveChildParentPCB`
unfoldable pub remove_child_parent_pcb : ℕ → Processes → Option Processes
remove_child_parent_pcb a ps = do
  block ← ps.pcb a
  done ← mapcar set_parent_null ps.cells.limit block.children_pcb.first ps.cells (some ps)
  done

-- `RemoveParentPCBChild`
unfoldable pub remove_parent_pcb_child : ℕ → ℕ → Processes → Option Processes
unfolding remove_child_pcb
remove_parent_pcb_child a input_value ps = do
  block ← ps.pcb a
  elim block.parent_pcb [
    | none ↦ some ps
    | some parent ↦ do
      ps1 ← remove_child_pcb parent a ps
      parent_block ← ps1.pcb parent
      some (store_pcb ps1 parent (some (record parent_block { child_exit_value = input_value })))
  ]

-- `GetChildPCB`
unfoldable pub get_child_pcb : ℕ → ℕ → Processes → Option (Option ℕ)
get_child_pcb a child_pid ps = do block ← ps.pcb a; search_key child_pid block.children_pcb ps.cells
