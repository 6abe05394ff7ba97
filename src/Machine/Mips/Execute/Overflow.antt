-- ===== src/Machine/Mips/Execute/Overflow.antt =====
-- OP_ADD and OP_SUB of `OneInstruction`: when they raise the overflow exception.
use cop5614nachos.Base.{
  ℕ, ◌+◌, ◌%◌, ◌<◌, ◌≡◌, Bool, not, ◌&&◌, ltb, leb, ◌==◌, if◌then◌else◌, bit_and, bit_xor, arith,
}
use cop5614nachos.Base.Bits.{and-pow, bit-div, bit-xor}
use cop5614nachos.Machine.State.{Machine, overflow_exception}
use cop5614nachos.Machine.Memory.{Handler}
use cop5614nachos.Machine.Mips.Word.{word_size, sign_bit, plus, minus}
use cop5614nachos.Machine.Mips.Decode.{Instruction, op_add, op_sub}
use cop5614nachos.Machine.Mips.Execute.{execute}
use cop5614nachos.Machine.Mips.Execute.Cases.{add_overflows, sub_overflows, result, raise}

-- The value of a word as an `int`, plus `2 ^ 31`.
abbrev pub raised : ℕ → ℕ
raised x = (x + sign_bit) % word_size

-- `x + y` and `x - y` are numbers that an `int` holds.
abbrev pub sum_fits : ℕ → ℕ → Bool
sum_fits x y =
    leb sign_bit (raised x + raised y) && ltb (raised x + raised y) (sign_bit + word_size)

abbrev pub difference_fits : ℕ → ℕ → Bool
difference_fits x y =
    leb (raised y) (raised x + sign_bit) && ltb (raised x + sign_bit) (raised y + word_size)

same_sign :
    (x y : ℕ)
    → x < word_size
    → y < word_size
    → (bit_and (bit_xor x y) sign_bit == 0)
      ≡ (if leb sign_bit x then leb sign_bit y else not (leb sign_bit y))
same_sign x y hx hy =
    ground (arith, and-pow (bit_xor x y) 31, bit-xor x y 31, bit-div x 31, bit-div y 31)

add_overflows-fits :
    (x y : ℕ) → x < word_size → y < word_size → add_overflows x y ≡ not (sum_fits x y)
add_overflows-fits x y hx hy =
    rw (same_sign x y hx hy, same_sign x (plus x y) hx (omega arith)) (ground arith)

sub_overflows-fits :
    (x y : ℕ) → x < word_size → y < word_size → sub_overflows x y ≡ not (difference_fits x y)
sub_overflows-fits x y hx hy =
    rw (same_sign x y hx hy, same_sign x (minus x y) hx (omega arith)) (ground arith)

-- OP_ADD on two words stores their sum, wrapped around, when the sum of the two as signed numbers is
-- a signed word, and otherwise raises the overflow exception and stores nothing.
pub execute-add :
    (handler : Handler) (i : Instruction) (pc_after : ℕ) (m : Machine)
    → let x = m.registers i.rs in
      let y = m.registers i.rt in
      x < word_size
      → y < word_size
      → execute handler op_add i pc_after m ≡ (
          if sum_fits x y
          then result m i.rd (plus x y) pc_after
          else raise handler overflow_exception 0 m)
unfolding execute
execute-add handler i pc_after m hx hy =
    let x = m.registers i.rs in
    let y = m.registers i.rt in rw (add_overflows-fits x y hx hy) (ground arith)

-- OP_SUB on two words stores their difference, wrapped around, when the difference of the two as
-- signed numbers is a signed word, and otherwise raises the overflow exception and stores nothing.
pub execute-sub :
    (handler : Handler) (i : Instruction) (pc_after : ℕ) (m : Machine)
    → let x = m.registers i.rs in
      let y = m.registers i.rt in
      x < word_size
      → y < word_size
      → execute handler op_sub i pc_after m ≡ (
          if difference_fits x y
          then result m i.rd (minus x y) pc_after
          else raise handler overflow_exception 0 m)
unfolding execute
execute-sub handler i pc_after m hx hy =
    let x = m.registers i.rs in
    let y = m.registers i.rt in rw (sub_overflows-fits x y hx hy) (ground arith)
