-- ===== src/Machine/Mips/Execute/Cases.antt =====
-- What the cases of `OneInstruction` share: how a case ends, the branches, the link and the overflow
-- tests, and how an exception returns early.
use cop5614nachos.Base.{
  ℕ, Bool, not, ◌&&◌, Option, none, some, ◌==◌, if◌then◌else◌, update, ◌>>=◌, bit_and, bit_xor,
}
use cop5614nachos.Machine.State.{Machine, next_pc_reg, ExceptionType}
use cop5614nachos.Machine.Memory.{Handler, raise_exception, read_mem, write_mem}
use cop5614nachos.Machine.Mips.Word.{sign_bit, plus, minus, shift_left}

-- An instruction either returns early, after an exception, or leaves `pcAfter`, `nextLoadReg` and
-- `nextLoadValue`.
pub data Outcome : Type 0 where
  returned : Machine → Outcome
  executed : Machine → ℕ → ℕ → ℕ → Outcome

abbrev pub r31 : ℕ
r31 = 31

abbrev pub index_to_addr : ℕ → ℕ
index_to_addr x = shift_left x 2

abbrev pub set_register : Machine → ℕ → ℕ → Machine
set_register m reg value = record m { registers = update m.registers reg value }

-- `registers[reg] = value; break;`
abbrev pub result : Machine → ℕ → ℕ → ℕ → Option Outcome
result m reg value pc_after = some (executed (set_register m reg value) pc_after 0 0)

-- `break` of a branch, taken or not.
abbrev pub branch : Machine → Bool → ℕ → ℕ → Option Outcome
branch m taken offset pc_after = some (
    executed m (if taken then plus (m.registers next_pc_reg) (index_to_addr offset) else pc_after) 0
      0)

-- `registers[R31] = registers[NextPCReg] + 4`
abbrev pub link : Machine → ℕ → Machine
link m reg = set_register m reg (plus (m.registers next_pc_reg) 4)

-- The overflow tests of OP_ADD, OP_ADDI and OP_SUB.
abbrev pub add_overflows : ℕ → ℕ → Bool
add_overflows x y =
    bit_and (bit_xor x y) sign_bit == 0 && not (bit_and (bit_xor x (plus x y)) sign_bit == 0)

abbrev pub addi_overflows : ℕ → ℕ → Bool
addi_overflows x extra =
    bit_and (bit_xor x extra) sign_bit == 0
    && not (bit_and (bit_xor extra (plus x extra)) sign_bit == 0)

abbrev pub sub_overflows : ℕ → ℕ → Bool
sub_overflows x y =
    not (bit_and (bit_xor x y) sign_bit == 0) && not (bit_and (bit_xor x (minus x y)) sign_bit == 0)

abbrev pub as_int : Bool → ℕ
as_int b = if b then 1 else 0

module _ (handler : Handler) where
  abbrev pub raise : ExceptionType → ℕ → Machine → Option Outcome
  raise which bad m = do m' ← raise_exception handler which bad m; some (returned m')

  -- `if (!machine->ReadMem(addr, size, &value)) return;` and what follows.
  abbrev pub load : ℕ → ℕ → Machine → (ℕ → Machine → Option Outcome) → Option Outcome
  load addr size m continue = do
    (value, m') ← read_mem handler addr size m
    elim value [ none ↦ some (returned m') | some v ↦ continue v m' ]

  -- `if (!machine->WriteMem(addr, size, value)) return; break;`
  abbrev pub store : ℕ → ℕ → ℕ → ℕ → Machine → Option Outcome
  store addr size value pc_after m = do
    (done, m') ← write_mem handler addr size value m
    some (if done then executed m' pc_after 0 0 else returned m')
