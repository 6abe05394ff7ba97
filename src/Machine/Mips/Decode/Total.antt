-- ===== src/Machine/Mips/Decode/Total.antt =====
-- `Decode` is total: the tables have an entry for each 6-bit code, the marks SPECIAL and BCOND never
-- remain, and every field is in range.
use cop5614nachos.Base.{
  ℕ, zero, suc, ◌/◌, ◌^◌, ◌<◌, ◌≡◌, refl, Bool, true, false, ◌&&◌, some, List, [], ◌∷◌, bit_and,
  arith,
}
use cop5614nachos.Base.Lists.{length}
use cop5614nachos.Base.Bits.{and-le}
use cop5614nachos.Machine.Mips.Decode.{
  OpCode, OpInfo, Instruction, op_table, special_table, table_entry, branch_code, final_code,
  extra_of, decode, special, bcond, op_rfe,
}

-- Neither a mark of the tables nor RFE.
abbrev pub is_instruction : OpCode → Bool
is_instruction special = false
is_instruction bcond = false
is_instruction op_rfe = false
is_instruction _ = true

-- A code that stands in the tables.
abbrev is_known : OpCode → Bool
is_known op_rfe = false
is_known _ = true

all_entries : {A : Type 0} → (A → Bool) → List A → Bool
all_entries p [] = true
all_entries p (x ∷ xs) = p x && all_entries p xs

table_entry-some :
    {A : Type 0} (p : A → Bool) (xs : List A) (i : ℕ)
    → i < length xs
    → all_entries p xs ≡ true
    → (x : A) × (table_entry xs i ≡ some x) × (p x ≡ true)
unfolding table_entry all_entries
table_entry-some p [] i lt all = absurd (omega arith)
table_entry-some p (x ∷ xs) zero lt all = (x, refl, ground arith)
table_entry-some p (x ∷ xs) (suc i) lt all = table_entry-some p xs i (omega arith) (ground arith)

op_table-known : all_entries (λ (info : OpInfo). is_known info.op_code) op_table ≡ true
unfolding all_entries
op_table-known = refl

special_table-instruction : all_entries is_instruction special_table ≡ true
unfolding all_entries
special_table-instruction = refl

branch_code-instruction : (i : ℕ) → is_instruction (branch_code i) ≡ true
unfolding branch_code
branch_code-instruction i = ground arith

final_code-instruction :
    (code : OpCode) (value : ℕ)
    → is_known code ≡ true
    → (c : OpCode) × (final_code code value ≡ some c) × (is_instruction c ≡ true)
unfolding final_code
final_code-instruction special value known =
    let low : bit_and value 0x3f < length special_table = omega (arith, and-le value 0x3f) in
    table_entry-some is_instruction special_table (bit_and value 0x3f) low special_table-instruction
final_code-instruction bcond value known =
    (branch_code (bit_and value 0x1f_0000), refl, branch_code-instruction (bit_and value 0x1f_0000))
final_code-instruction op_rfe value known = absurd (ground arith)
final_code-instruction code value known = (code, refl, refl)

-- Every word decodes, to a code that is neither a mark of the tables nor RFE, with three register
-- numbers below 32.
pub decode-total :
    (value : ℕ)
    → (i : Instruction) × (decode value ≡ some i)
      × (is_instruction i.op_code ≡ true)
      × (i.rs < 32)
      × (i.rt < 32)
      × (i.rd < 32)
unfolding decode
decode-total value =
    let index = bit_and (value / 2 ^ 26) 0x3f in
    let (info, e, known) =
      table_entry-some (λ (x : OpInfo). is_known x.op_code) op_table index
        (omega (arith, and-le (value / 2 ^ 26) 0x3f)) op_table-known in
    let (code, e', instruction) = final_code-instruction info.op_code value known in
    (
      record {
        value = value;
        op_code = code;
        rs = bit_and (value / 2 ^ 21) 0x1f;
        rt = bit_and (value / 2 ^ 16) 0x1f;
        rd = bit_and (value / 2 ^ 11) 0x1f;
        extra = extra_of info.format value;
      },
      rw (e, e') refl,
      instruction,
      omega (arith, and-le (value / 2 ^ 21) 0x1f),
      omega (arith, and-le (value / 2 ^ 16) 0x1f),
      omega (arith, and-le (value / 2 ^ 11) 0x1f),
    )
