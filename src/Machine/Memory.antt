-- ===== src/Machine/Memory.antt =====
-- Machine::ReadMem and WriteMem of translate.cc, and RaiseException of machine.cc. The trap enters
-- the kernel: `handler` is `ExceptionHandler` of userprog/exception.cc, which runs on the machine
-- and may stop the program.
pub mod Laws
use cop5614nachos.Base.{
  ℕ, ◌+◌, ◌-◌, ◌*◌, ◌/◌, ◌%◌, ◌^◌, Bool, true, false, Option, none, some, ltb, ◌==◌, if◌then◌else◌,
  Array, update, ◌>>=◌,
}
use cop5614nachos.Machine.State.{ExceptionType, bad_vaddr_reg, Machine, delayed_load}
use cop5614nachos.Machine.Translate.{fault, address, translate}

abbrev pub Handler : Type 0
Handler = ExceptionType → Machine → Option Machine

-- `char` is signed: a byte from 128 on is negative as an `int`.
abbrev pub sign_extend : ℕ → ℕ
sign_extend byte = if ltb byte 128 then byte else byte + (2 ^ 32 - 256)

-- `*(unsigned short *)` and `*(unsigned int *)` on a little-endian host.
abbrev pub load_short : Array ℕ → ℕ → ℕ
load_short memory p = memory p + 256 * memory (p + 1)

abbrev pub load_word : Array ℕ → ℕ → ℕ
load_word memory p =
    memory p + 256 * memory (p + 1) + 65536 * memory (p + 2) + 16777216 * memory (p + 3)

-- The `switch` on the size of `ReadMem`; any other size fails an `ASSERT`.
unfoldable pub fetch : Array ℕ → ℕ → ℕ → Option ℕ
fetch memory p size =
    if size == 1
    then some (sign_extend (memory p))
    else if size == 2
    then some (load_short memory p)
    else if size == 4
    then some (load_word memory p)
    else none

abbrev pub store_short : Array ℕ → ℕ → ℕ → Array ℕ
store_short memory p value = update (update memory p (value % 256)) (p + 1) (value / 256 % 256)

abbrev pub store_word : Array ℕ → ℕ → ℕ → Array ℕ
store_word memory p value =
    update (update (store_short memory p value) (p + 2) (value / 65536 % 256)) (p + 3)
      (value / 16777216 % 256)

-- The `switch` on the size of `WriteMem`.
unfoldable pub put : Array ℕ → ℕ → ℕ → ℕ → Option (Array ℕ)
put memory p size value =
    if size == 1
    then some (update memory p (value % 256))
    else if size == 2
    then some (store_short memory p value)
    else if size == 4
    then some (store_word memory p value)
    else none

module _ (handler : Handler) where
  unfoldable pub raise_exception : ExceptionType → ℕ → Machine → Option Machine
  raise_exception which bad_vaddr m =
      handler which
        (delayed_load (record m { registers = update m.registers bad_vaddr_reg bad_vaddr }) 0 0)

  -- The value, or `none` for FALSE, and the machine afterwards.
  unfoldable pub read_mem : ℕ → ℕ → Machine → Option (Option ℕ × Machine)
  unfolding fetch
  read_mem addr size m = do
    (result, m') ← translate m addr size false
    elim result [
      | fault exception ↦ do m'' ← raise_exception exception addr m'; some (none, m'')
      | address p ↦ do value ← fetch m'.main_memory p size; some (some value, m')
    ]

  unfoldable pub write_mem : ℕ → ℕ → ℕ → Machine → Option (Bool × Machine)
  unfolding put
  write_mem addr size value m = do
    (result, m') ← translate m addr size true
    elim result [
      | fault exception ↦ do m'' ← raise_exception exception addr m'; some (false, m'')
      | address p ↦ do
        memory ← put m'.main_memory p size value
        some (true, record m' { main_memory = memory })
    ]
