-- ===== src/Userprog/WildNumbers.antt =====
-- Numbers from a user program that stop the kernel: `BitMap::Test` fails its `ASSERT` for them.
use cop5614nachos.Base.{
  ℕ, ◌+◌, ◌-◌, ◌^◌, ◌≤◌, ◌<◌, ◌≡◌, refl, ap, ◌∙◌, ◌%◌, true, false, ◌||◌, Option, none, some, ltb,
  ◌>>=◌, >>=-next, Array, arith,
}
use cop5614nachos.Bitmap.{BitMap, test}
use cop5614nachos.Bitmap.Bits.{is_set, test-is_set}
use cop5614nachos.Machine.State.{pc_reg}
use cop5614nachos.Userprog.Vm.{Vm}
use cop5614nachos.Userprog.UserMemory.{to_kernel, user_read_write}
use cop5614nachos.Userprog.OpenFiles.{FileSystem, test_pof}
use cop5614nachos.Userprog.Processes.{Pcb, Processes, get_pcb}
use cop5614nachos.Userprog.System.{
  System, minus_one, is_negative, update_pc_regs, current_pcb, answer,
}
use cop5614nachos.Userprog.FileCalls.{write_systemcall}
use cop5614nachos.Userprog.ProcessCalls.{kill_process}

>>=-stops : {A B : Type 0} {m : Option A} (f : A → Option B) → m ≡ none → (m >>= f) ≡ none
>>=-stops f e = rw e refl

test-wild : (b : BitMap) (i : ℕ) → b.num_bits ≤ i → test b i ≡ none
unfolding test
test-wild b i out = let past : ltb i b.num_bits ≡ false = ground arith in rw past refl

get_pcb-wild : (pid : ℕ) (ps : Processes) → ps.pid_map.num_bits ≤ pid → get_pcb pid ps ≡ none
unfolding get_pcb
get_pcb-wild pid ps out = >>=-stops _ (test-wild ps.pid_map pid out)

-- `Kill` of a number without a process: a number that is not a process number stops the kernel, and
-- a process number that is free is answered with -1 in register 2, past the call, with nothing else
-- changed.
pub kill_process-wild :
    {World : Type 0} (sys : System World) (a : ℕ) (block : Pcb)
    → current_pcb sys ≡ some (a, block)
    → is_set sys.processes.pid_map (sys.registers 4) ≡ false
    → (sys.processes.pid_map.num_bits ≤ sys.registers 4 → kill_process sys ≡ none)
      × (sys.registers 4 < sys.processes.pid_map.num_bits
          → (sys' : System World) × (kill_process sys ≡ some sys')
            × (sys'.registers 2 ≡ 2 ^ 32 - 1)
            × (sys'.registers pc_reg ≡ (sys.registers pc_reg + 4) % 2 ^ 32)
            × (record sys' { registers = sys.registers } ≡ sys))
unfolding kill_process get_pcb update_pc_regs
kill_process-wild sys a block runs unset = (
  λ out. >>=-next _ runs (>>=-stops _ (get_pcb-wild (sys.registers 4) sys.processes out)),
  λ lt.
      let free = test-is_set sys.processes.pid_map (sys.registers 4) lt ∙ ap some unset in
      (
        answer minus_one sys,
        >>=-next _ runs (>>=-next _ (>>=-next _ free refl) refl),
        ground arith,
        ground arith,
        refl,
      ),
)

-- `Write` to a file number past the table stops the kernel, once the bytes have been copied from the
-- process, where a number in the table that is not open is only reported.
pub write_systemcall-wild :
    {World : Type 0} (fs : FileSystem World) (garbage buffer : Array ℕ) (sys : System World) (a : ℕ)
    (block : Pcb) (vm : Vm)
    → current_pcb sys ≡ some (a, block)
    → sys.registers 5 + 1 < 2 ^ 31
    → user_read_write to_kernel block.pid garbage (sys.registers 4) (sys.registers 5) sys.vm
      ≡ some (buffer, vm)
    → 2 ≤ sys.registers 6
    → sys.registers 6 < 2 ^ 31
    → block.pofs.pof_map.num_bits + 2 ≤ sys.registers 6
    → write_systemcall fs garbage sys ≡ none
unfolding write_systemcall test_pof
write_systemcall-wild fs garbage buffer sys a block vm runs size copied low high out =
    let sized : ltb (sys.registers 5 + 1) (2 ^ 31) ≡ true = ground arith in
    let file : (ltb (sys.registers 6) 2 || is_negative (sys.registers 6)) ≡ false = ground arith in
    >>=-next _ runs (
      rw sized (
        >>=-next _ copied (
          rw file
            (>>=-stops _ (test-wild block.pofs.pof_map (sys.registers 6 - 2) (omega arith))))))
