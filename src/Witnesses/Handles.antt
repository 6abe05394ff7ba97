-- ===== src/Witnesses/Handles.antt =====
-- Tables of open files and of processes of userprog/, empty and with one entry.
use cop5614nachos.Base.{
  ℕ, ◌+◌, ◌≡◌, ◌≢◌, refl, true, false, none, some, [], ◌∷◌, ◌==◌, if◌then◌else◌, arith,
}
use cop5614nachos.Bitmap.{BitMap, test}
use cop5614nachos.Base.Bits.{bit}
use cop5614nachos.Bitmap.Bits.{is_set}
use cop5614nachos.Bitmap.Counting.{free_bits, clear_bits}
use cop5614nachos.Threads.LinkedList.{LinkedList, search_key, search_loop}
use cop5614nachos.Threads.LinkedList.Cells.{Represents}
use cop5614nachos.Userprog.OpenFiles.{
  Name, FileSystem, Sof, SofMgr, Pof, PofTable, find_name_loop, find_sof_by_name, find_pof_by_name,
}
use cop5614nachos.Userprog.FileCalls.{open_name, close_slot}
use cop5614nachos.Userprog.OpenHandles.{open_name-close_slot, open_name-leaks}
use cop5614nachos.Userprog.Processes.{
  Pcb, Processes, create_pcb, remove_pcb, get_num_free_pcbs, get_pcb, append_child_pcb,
  remove_child_pcb, get_child_pcb,
}
use cop5614nachos.Userprog.Families.{
  remove_child_pcb-first, append_child_pcb-get_child_pcb, create_pcb-remove_pcb,
}
use cop5614nachos.Threads.Kernel.{Kernel, just_created, running, free}
use cop5614nachos.Userprog.Vm.{Vm}
use cop5614nachos.Userprog.System.{System}

-- A file system whose state counts the calls of `Open`.
abbrev counting_files : FileSystem ℕ
counting_files = record {
  open_file = λ name w. (some 7, w + 1);
  create_file = λ name w. (true, w);
  read_at = λ h buffer size offset w. (size, buffer, w);
  write_at = λ h buffer size offset w. (size, w);
  get_char = λ w. (65, w);
}

abbrev name_a : Name
name_a = 97 ∷ []

abbrev map_of : ℕ → ℕ → BitMap
map_of size word = record { num_bits = size; num_words = 1; map = λ w. if w == 0 then word else 0 }

abbrev no_pofs : PofTable
no_pofs = record { pof_map = map_of 32 0; pof_array = λ i. none }

abbrev no_sofs : SofMgr
no_sofs = record { sof_map = map_of 128 0; sof_array = λ i. none }

no_sof : find_sof_by_name name_a no_sofs ≡ some none
unfolding find_sof_by_name find_name_loop test
no_sof = refl

no_pof : find_pof_by_name name_a no_pofs ≡ some none
unfolding find_pof_by_name find_name_loop test
no_pof = refl

pof_free_bits : free_bits no_pofs.pof_map ≡ 32
unfolding clear_bits is_set bit
pof_free_bits = refl

sof_free_bits : free_bits no_sofs.sof_map ≡ 128
unfolding clear_bits is_set bit
sof_free_bits = refl

open_name-close_slot_example :
    (i j : ℕ) × (pofs1 : PofTable) × (sofs1 : SofMgr) × (pofs2 : PofTable) × (sofs2 : SofMgr)
    × (open_name counting_files name_a no_pofs no_sofs 0 ≡ some (some i, pofs1, sofs1, 1))
    × (pofs1.pof_array i ≡ some (record { filename = name_a; sof_index = j; offset = 0 }))
    × (sofs1.sof_array j ≡ some (record { filename = name_a; open_file = 7; counter = 1 }))
    × (close_slot i pofs1 sofs1 ≡ some (pofs2, sofs2))
    × ((k : ℕ) → is_set pofs2.pof_map k ≡ is_set no_pofs.pof_map k)
    × ((k : ℕ) → is_set sofs2.sof_map k ≡ is_set no_sofs.sof_map k)
open_name-close_slot_example =
    open_name-close_slot counting_files name_a no_pofs no_sofs 0 1 7 no_sof no_pof
      (omega (arith, pof_free_bits)) (omega (arith, sof_free_bits)) refl

abbrev a_pof : Pof
a_pof = record { filename = name_a; sof_index = 3; offset = 0 }

abbrev a_sof : Sof
a_sof = record { filename = name_a; open_file = 7; counter = 1 }

-- Slot 2 of the process is slot 3 of the system.
abbrev one_pof : PofTable
one_pof = record { pof_map = map_of 32 4; pof_array = λ i. if i == 2 then some a_pof else none }

abbrev one_sof : SofMgr
one_sof = record { sof_map = map_of 128 8; sof_array = λ i. if i == 3 then some a_sof else none }

has_sof : find_sof_by_name name_a one_sof ≡ some (some 3)
unfolding find_sof_by_name find_name_loop test
has_sof = refl

has_pof : find_pof_by_name name_a one_pof ≡ some (some 2)
unfolding find_pof_by_name find_name_loop test
has_pof = refl

pof_set : is_set one_pof.pof_map 2 ≡ true
unfolding is_set bit
pof_set = refl

sof_set : is_set one_sof.sof_map 3 ≡ true
unfolding is_set bit
sof_set = refl

open_name-leaks_example :
    (sofs1 : SofMgr) × (pofs2 : PofTable) × (sofs2 : SofMgr) × (open_name counting_files name_a
        one_pof one_sof 0
      ≡ some (some 2, one_pof, sofs1, 0))
    × (close_slot 2 one_pof sofs1 ≡ some (pofs2, sofs2))
    × (is_set pofs2.pof_map 2 ≡ false)
    × (sofs2.sof_map ≡ one_sof.sof_map)
    × (sofs2.sof_array 3 ≡ some a_sof)
open_name-leaks_example =
    open_name-leaks counting_files name_a one_pof one_sof 0 2 a_pof a_sof has_sof has_pof refl refl
      (omega arith) (omega arith) pof_set sof_set (omega arith) (omega arith)

abbrev no_children : LinkedList
no_children = record { first = none; last = none }

abbrev block_of : ℕ → LinkedList → Pcb
block_of pid children = record {
  pid = pid;
  this_thread = none;
  parent_pcb = none;
  children_pcb = children;
  child_exit_value = 0;
  pofs = no_pofs;
}

-- Process 0 at address 0, with process 1 at address 1 as its child, and process 2 at address 2.
abbrev first_child : LinkedList
first_child = record { first = some 0; last = some 0 }

abbrev three_blocks : Processes
three_blocks = record {
  num_total_pid = 32;
  pid_map = map_of 32 7;
  all_pcb = λ pid. some pid;
  pcb = λ a.
      if a == 0
      then some (block_of 0 first_child)
      else if a == 1
      then some (block_of 1 no_children)
      else if a == 2
      then some (block_of 2 no_children)
      else none;
  pcb_limit = 3;
  cells = record {
    cell = λ a. if a == 0 then some (record { next = none; key = 1; item = 1 }) else none;
    limit = 1;
  };
}

first_child-Represents : Represents three_blocks.cells first_child ((1, 1) ∷ [])
first_child-Represents = record {
  cells = (0, 1, 1) ∷ [];
  holds = record {
    starts = refl;
    ends = refl;
    linked = (refl, tt);
    distinct = (refl, tt);
    below = λ a m. ground arith;
  };
  view = refl;
}

-- The same with process 2 as the second child.
abbrev both_children : LinkedList
both_children = record { first = some 0; last = some 1 }

abbrev two_children : Processes
two_children = record three_blocks {
  pcb = λ a.
      if a == 0
      then some (block_of 0 both_children)
      else if a == 1
      then some (block_of 1 no_children)
      else if a == 2
      then some (block_of 2 no_children)
      else none;
  cells = record {
    cell = λ a.
        if a == 0
        then some (record { next = some 1; key = 1; item = 1 })
        else if a == 1
        then some (record { next = none; key = 2; item = 2 })
        else none;
    limit = 2;
  };
}

both_children-Represents : Represents two_children.cells both_children ((1, 1) ∷ (2, 2) ∷ [])
both_children-Represents = record {
  cells = (0, 1, 1) ∷ (1, 2, 2) ∷ [];
  holds = record {
    starts = refl;
    ends = refl;
    linked = (refl, (refl, tt));
    distinct = (refl, (refl, tt));
    below = λ a m. ground arith;
  };
  view = refl;
}

second_child : get_child_pcb 0 2 two_children ≡ some (some 2)
unfolding get_child_pcb search_key search_loop
second_child = refl

remove_child_pcb-first_example :
    (ps' : Processes) × (remove_child_pcb 0 2 two_children ≡ some ps')
    × (get_child_pcb 0 1 two_children ≡ some (some 1))
    × (get_child_pcb 0 1 ps' ≡ some none)
    × (get_child_pcb 0 2 ps' ≡ some (some 2))
    × ((q : ℕ) → q ≢ 1 → get_child_pcb 0 q ps' ≡ get_child_pcb 0 q two_children)
remove_child_pcb-first_example =
    remove_child_pcb-first two_children 0 2 (block_of 0 both_children) (block_of 2 no_children) 1 1
      refl refl both_children-Represents (omega arith, tt) (omega arith) second_child

other_child : get_child_pcb 0 2 three_blocks ≡ some none
unfolding get_child_pcb search_key search_loop
other_child = refl

append_child_pcb-get_child_pcb_example :
    (ps' : Processes) × (append_child_pcb 0 2 three_blocks ≡ some ps')
    × ((q : ℕ)
        → get_child_pcb 0 q ps'
          ≡ (if 2 == q then some (some 2) else get_child_pcb 0 q three_blocks))
append_child_pcb-get_child_pcb_example =
    append_child_pcb-get_child_pcb three_blocks 0 2 (block_of 0 first_child)
      (block_of 2 no_children) refl refl first_child-Represents other_child

pid_free_bits : free_bits three_blocks.pid_map ≡ 29
unfolding clear_bits is_set bit
pid_free_bits = refl

create_pcb-remove_pcb_example :
    (block : Pcb) × (ps1 : Processes) × (ps2 : Processes) × (is_set three_blocks.pid_map block.pid
      ≡ false)
    × (create_pcb (λ w. 9) (λ i. none) three_blocks ≡ some (some 3, ps1))
    × (ps1.pcb 3 ≡ some block)
    × (get_pcb block.pid ps1 ≡ some (some 3))
    × (remove_pcb 3 ps1 ≡ some ps2)
    × (get_pcb block.pid ps2 ≡ some none)
    × (get_num_free_pcbs ps2 ≡ get_num_free_pcbs three_blocks)
create_pcb-remove_pcb_example =
    create_pcb-remove_pcb three_blocks (λ w. 9) (λ i. none) (omega (arith, pid_free_bits))

-- Process 0 runs alone, with 256 in every register.
abbrev alone : Kernel
alone = record {
  current_thread = 0;
  idle = false;
  status = λ t. if t == 0 then running else just_created;
  resume = λ t. free;
  ready_list = [];
  thread_to_be_destroyed = none;
  semaphore = λ s. record { value = 0; queue = [] };
  lock = λ l. record { is_held = false; lock_holder = none; queue = [] };
  blocked = λ c. [];
}

abbrev no_memory : Vm
no_memory = record {
  mgr = record {
    memory_map = map_of 32 0;
    frametime = λ i. none;
    frame_pid = λ f q. false;
    timestamp = 0;
  };
  spaces = λ q. none;
  main_memory = λ i. 0;
}

abbrev running_system : System ℕ
running_system = record {
  registers = λ r. 256;
  vm = no_memory;
  processes = three_blocks;
  sofs = no_sofs;
  kernel = alone;
  pcb_of = λ t. some 0;
  user_registers = λ pid r. 0;
  thread_limit = 1;
  world = 0;
}
