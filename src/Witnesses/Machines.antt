-- ===== src/Witnesses/Machines.antt =====
-- A machine with two pages in memory, and words for the instructions.
use cop5614nachos.Base.{
  ◌+◌, ◌-◌, ◌*◌, ◌%◌, ◌^◌, ◌<◌, ◌≤◌, ◌/◌, ℕ, ◌≡◌, inl, inr, refl, true, false, Array, arith,
  if◌then◌else◌, some, none, update,
}
use cop5614nachos.Machine.State.{page_size, memory_size, Machine, TranslationEntry, ExceptionType}
use cop5614nachos.Machine.Translate.{
  Translation, address, fault, translate, finish, lookup_entry, lookup_table,
}
use cop5614nachos.Machine.Translate.Laws.{UsesTable, Judged, Allows, after, translate-Judged}
use cop5614nachos.Machine.Memory.{Handler, read_mem, write_mem, put}
use cop5614nachos.Machine.Memory.Laws.{truncated, stored, read_mem-write_mem}
use cop5614nachos.Machine.Mips.Word.{magnitude}
use cop5614nachos.Machine.Mips.Mult.{mult, differ_in_sign}
use cop5614nachos.Machine.Mips.Mult.Digits.{double}
use cop5614nachos.Machine.Mips.Mult.Product.{mult-signed_product}
use cop5614nachos.Machine.Mips.Decode.{Instruction, decode, op_lw}
use cop5614nachos.Machine.Mips.Decode.Encoding.{immediate_form, decode-encode}

abbrev entries : Array TranslationEntry
entries = λ i. record {
  virtual_page = i;
  physical_page = i + 5;
  valid = true;
  read_only = false;
  use_bit = false;
  dirty = false;
  zero_filled = false;
}

abbrev machine : Machine
machine = record {
  main_memory = λ i. i % 256;
  registers = λ i. i;
  tlb = none;
  page_table = some entries;
  page_table_size = 2;
}

machine-UsesTable : UsesTable machine entries
machine-UsesTable = (refl, refl)

abbrev stop : Handler
stop = λ which m. none

abbrev written : Machine
written = record machine {
  main_memory = stored (machine.main_memory) 772 4 1000;
  page_table = some (update entries 1 (record (entries 1) { use_bit = true; dirty = true }));
}

translate-Judged_example :
    (r : Translation) × (m' : Machine) × (translate machine 132 4 true ≡ some (r, m'))
    × Judged entries 2 132 4 true r
    × ((p : ℕ)
        → r ≡ address p
        → (132 % 4 ≡ 0)
          × (132 < 2 * page_size)
          × Allows (entries 1) true
          × (p % 4 ≡ 0)
          × (p / page_size ≡ (entries 1).physical_page)
          × (p % page_size ≡ 4)
          × (p + 4 ≤ memory_size)
          × (m' ≡ after machine entries 132 true (address p)))
    × ((x : ExceptionType) → r ≡ fault x → m' ≡ machine)
translate-Judged_example = translate-Judged machine machine-UsesTable 132 4 true (inr (inr refl))

read_mem-write_mem_example :
    (m'' : Machine) × (read_mem stop 132 4 written ≡ some (some (truncated 4 1000), m''))
unfolding write_mem translate put lookup_entry lookup_table finish
read_mem-write_mem_example =
    read_mem-write_mem stop machine machine-UsesTable 132 4 1000 {m' = written} (inr (inr refl))
      refl

mult-signed_product_example : double (mult 0xffff_ffff 70000 true) ≡ (
    if differ_in_sign 0xffff_ffff 70000
    then (2 ^ 64 - magnitude 0xffff_ffff * magnitude 70000) % 2 ^ 64
    else magnitude 0xffff_ffff * magnitude 70000)
mult-signed_product_example = mult-signed_product 0xffff_ffff 70000 (omega arith) (omega arith)

-- `lw $8, -4($29)`.
decode-encode_example :
    (i : Instruction) × (decode 0x8fa8_fffc ≡ some i)
    × (i.value ≡ 0x8fa8_fffc)
    × ((i.op_code ≡ op_lw) × (i.rs ≡ 29) × (i.rt ≡ 8) × (i.extra ≡ 0xffff_fffc))
decode-encode_example = decode-encode (immediate_form op_lw 35 29 8 0xfffc) (
  inr (
      inr (
        inr (
          inr
            (inr (inr (inr (inr (inr (inr (inr (inr (inr (inr (inr (inl (refl, refl)))))))))))))))),
  omega arith,
  omega arith,
  omega arith,
)
