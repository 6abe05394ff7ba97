-- ===== src/Machine/Mips/Decode/Encoding.antt =====
-- The encoding of the MIPS instruction set, by the numbers of its manual, and `Decode` against it.
use cop5614nachos.Base.{
  ℕ, ◌+◌, ◌-◌, ◌*◌, ◌/◌, ◌%◌, ◌^◌, ◌<◌, ◌≡◌, ◌⊎◌, refl, ap, ◌∙◌, some, List, [], ◌∷◌, ltb,
  if◌then◌else◌, bit_and, bit_or, arith, inl, inr,
}
use cop5614nachos.Base.Bits.Masks.{and-below, and-shifted, or-shifted}
use cop5614nachos.Machine.Mips.Decode.{
  OpCode, OpInfo, Instruction, i_type, j_type, r_type, op_table, special_table, table_entry,
  branch_code, final_code, extra_of, decode, special, bcond, ifmt, rfmt, op_add, op_addi, op_addiu,
  op_addu, op_and, op_andi, op_beq, op_bgez, op_bgezal, op_bgtz, op_blez, op_bltz, op_bltzal,
  op_bne, op_div, op_divu, op_j, op_jal, op_jalr, op_jr, op_lb, op_lbu, op_lh, op_lhu, op_lui,
  op_lw, op_lwl, op_lwr, op_mfhi, op_mflo, op_mthi, op_mtlo, op_mult, op_multu, op_nor, op_or,
  op_ori, op_sb, op_sh, op_sll, op_sllv, op_slt, op_slti, op_sltiu, op_sltu, op_sra, op_srav,
  op_srl, op_srlv, op_sub, op_subu, op_sw, op_swl, op_swr, op_xor, op_xori, op_syscall,
}

-- The function codes of the instructions on registers.
abbrev pub functions : List (OpCode × ℕ)
functions =
    (op_sll, 0)
    ∷ (op_srl, 2)
    ∷ (op_sra, 3)
    ∷ (op_sllv, 4)
    ∷ (op_srlv, 6)
    ∷ (op_srav, 7)
    ∷ (op_jr, 8)
    ∷ (op_jalr, 9)
    ∷ (op_syscall, 12)
    ∷ (op_mfhi, 16)
    ∷ (op_mthi, 17)
    ∷ (op_mflo, 18)
    ∷ (op_mtlo, 19)
    ∷ (op_mult, 24)
    ∷ (op_multu, 25)
    ∷ (op_div, 26)
    ∷ (op_divu, 27)
    ∷ (op_add, 32)
    ∷ (op_addu, 33)
    ∷ (op_sub, 34)
    ∷ (op_subu, 35)
    ∷ (op_and, 36)
    ∷ (op_or, 37)
    ∷ (op_xor, 38)
    ∷ (op_nor, 39)
    ∷ (op_slt, 42)
    ∷ (op_sltu, 43)
    ∷ []

-- The codes of the instructions with an immediate.
abbrev pub immediates : List (OpCode × ℕ)
immediates =
    (op_beq, 4)
    ∷ (op_bne, 5)
    ∷ (op_blez, 6)
    ∷ (op_bgtz, 7)
    ∷ (op_addi, 8)
    ∷ (op_addiu, 9)
    ∷ (op_slti, 10)
    ∷ (op_sltiu, 11)
    ∷ (op_andi, 12)
    ∷ (op_ori, 13)
    ∷ (op_xori, 14)
    ∷ (op_lui, 15)
    ∷ (op_lb, 32)
    ∷ (op_lh, 33)
    ∷ (op_lwl, 34)
    ∷ (op_lw, 35)
    ∷ (op_lbu, 36)
    ∷ (op_lhu, 37)
    ∷ (op_lwr, 38)
    ∷ (op_sb, 40)
    ∷ (op_sh, 41)
    ∷ (op_swl, 42)
    ∷ (op_sw, 43)
    ∷ (op_swr, 46)
    ∷ []

abbrev pub jumps : List (OpCode × ℕ)
jumps = (op_j, 2) ∷ (op_jal, 3) ∷ []

-- The branches that share the code 1 stand in the field of the second register.
abbrev pub branches : List (OpCode × ℕ)
branches = (op_bltz, 0) ∷ (op_bgez, 1) ∷ (op_bltzal, 16) ∷ (op_bgezal, 17) ∷ []

-- The pair stands in the list.
abbrev pub Listed : OpCode → ℕ → List (OpCode × ℕ) → Type 0
Listed op n [] = ⊥
Listed op n ((c, m) ∷ xs) = ((op ≡ c) × (n ≡ m)) ⊎ Listed op n xs

abbrev Each : (OpCode → ℕ → Type 0) → List (OpCode × ℕ) → Type 0
Each P [] = Unit
Each P ((c, m) ∷ xs) = P c m × Each P xs

infixr 5 ◌also◌
◌also◌ : {A B : Type 0} → A → B → A × B
a also b = (a, b)

Each-Listed :
    (P : OpCode → ℕ → Type 0) (xs : List (OpCode × ℕ)) (op : OpCode) (n : ℕ)
    → Each P xs
    → Listed op n xs
    → P op n
Each-Listed P [] op n each listed = absurd listed
Each-Listed P ((c, m) ∷ xs) op n each (inl (same, at)) = rw (same, at) each.0
Each-Listed P ((c, m) ∷ xs) op n each (inr later) = Each-Listed P xs op n each.1 later

-- The tables of the source give the operation its number.
abbrev HasFunction : OpCode → ℕ → Type 0
HasFunction op n = (n < 64) × (table_entry special_table n ≡ some op)

abbrev HasCode : (OpCode → OpInfo) → OpCode → ℕ → Type 0
HasCode format op n =
    (n < 64)
    × (table_entry op_table n ≡ some (format op))
    × ((value : ℕ) → final_code op value ≡ some op)

abbrev HasBranch : OpCode → ℕ → Type 0
HasBranch op n = (n < 32) × (branch_code (n * 2 ^ 16) ≡ op)

functions-special_table : Each HasFunction functions
unfolding table_entry
functions-special_table =
    (omega arith, refl)
    also (omega arith, refl)
    also (omega arith, refl)
    also (omega arith, refl)
    also (omega arith, refl)
    also (omega arith, refl)
    also (omega arith, refl)
    also (omega arith, refl)
    also (omega arith, refl)
    also (omega arith, refl)
    also (omega arith, refl)
    also (omega arith, refl)
    also (omega arith, refl)
    also (omega arith, refl)
    also (omega arith, refl)
    also (omega arith, refl)
    also (omega arith, refl)
    also (omega arith, refl)
    also (omega arith, refl)
    also (omega arith, refl)
    also (omega arith, refl)
    also (omega arith, refl)
    also (omega arith, refl)
    also (omega arith, refl)
    also (omega arith, refl)
    also (omega arith, refl)
    also (omega arith, refl)
    also tt

immediates-op_table : Each (HasCode i_type) immediates
unfolding table_entry final_code
immediates-op_table =
    (omega arith, refl, λ value. refl)
    also (omega arith, refl, λ value. refl)
    also (omega arith, refl, λ value. refl)
    also (omega arith, refl, λ value. refl)
    also (omega arith, refl, λ value. refl)
    also (omega arith, refl, λ value. refl)
    also (omega arith, refl, λ value. refl)
    also (omega arith, refl, λ value. refl)
    also (omega arith, refl, λ value. refl)
    also (omega arith, refl, λ value. refl)
    also (omega arith, refl, λ value. refl)
    also (omega arith, refl, λ value. refl)
    also (omega arith, refl, λ value. refl)
    also (omega arith, refl, λ value. refl)
    also (omega arith, refl, λ value. refl)
    also (omega arith, refl, λ value. refl)
    also (omega arith, refl, λ value. refl)
    also (omega arith, refl, λ value. refl)
    also (omega arith, refl, λ value. refl)
    also (omega arith, refl, λ value. refl)
    also (omega arith, refl, λ value. refl)
    also (omega arith, refl, λ value. refl)
    also (omega arith, refl, λ value. refl)
    also (omega arith, refl, λ value. refl)
    also tt

jumps-op_table : Each (HasCode j_type) jumps
unfolding table_entry final_code
jumps-op_table = (omega arith, refl, λ value. refl) also (omega arith, refl, λ value. refl) also tt

branches-branch_code : Each HasBranch branches
unfolding branch_code
branches-branch_code =
    ((omega arith, refl), ((omega arith, refl), ((omega arith, refl), ((omega arith, refl), tt))))

-- An instruction, by its fields and the number of its operation: on registers, with an immediate, a
-- jump, or a branch of code 1.
pub data Assembly : Type 0 where
  register_form : (op : OpCode) (funct rs rt rd shift : ℕ) → Assembly
  immediate_form : (op : OpCode) (code rs rt immediate : ℕ) → Assembly
  jump_form : (op : OpCode) (code target : ℕ) → Assembly
  branch_form : (op : OpCode) (code rs offset : ℕ) → Assembly

abbrev pub IsAssembly : Assembly → Type 0
IsAssembly (register_form op funct rs rt rd shift) =
    Listed op funct functions × (rs < 32) × (rt < 32) × (rd < 32) × (shift < 32)
IsAssembly (immediate_form op code rs rt immediate) =
    Listed op code immediates × (rs < 32) × (rt < 32) × (immediate < 2 ^ 16)
IsAssembly (jump_form op code target) = Listed op code jumps × (target < 2 ^ 26)
IsAssembly (branch_form op code rs offset) = Listed op code branches × (rs < 32) × (offset < 2 ^ 16)

-- The word of the instruction.
abbrev pub encode : Assembly → ℕ
encode (register_form op funct rs rt rd shift) =
    rs * 2 ^ 21 + rt * 2 ^ 16 + rd * 2 ^ 11 + shift * 2 ^ 6 + funct
encode (immediate_form op code rs rt immediate) =
    code * 2 ^ 26 + rs * 2 ^ 21 + rt * 2 ^ 16 + immediate
encode (jump_form op code target) = code * 2 ^ 26 + target
encode (branch_form op code rs offset) = 2 ^ 26 + rs * 2 ^ 21 + code * 2 ^ 16 + offset

-- A half word as a signed number, in a word.
abbrev pub extended : ℕ → ℕ
extended half = if ltb half (2 ^ 15) then half else half + (2 ^ 32 - 2 ^ 16)

-- The fields that `OneInstruction` uses.
abbrev pub Decoded : Assembly → Instruction → Type 0
Decoded (register_form op funct rs rt rd shift) i =
    (i.op_code ≡ op) × (i.rs ≡ rs) × (i.rt ≡ rt) × (i.rd ≡ rd) × (i.extra ≡ shift)
Decoded (immediate_form op code rs rt immediate) i =
    (i.op_code ≡ op) × (i.rs ≡ rs) × (i.rt ≡ rt) × (i.extra ≡ extended immediate)
Decoded (jump_form op code target) i = (i.op_code ≡ op) × (i.extra ≡ target)
Decoded (branch_form op code rs offset) i =
    (i.op_code ≡ op) × (i.rs ≡ rs) × (i.extra ≡ extended offset)

extra_of-immediate : (value : ℕ) → extra_of ifmt value ≡ extended (value % 2 ^ 16)
unfolding extra_of
extra_of-immediate value =
    let low : bit_and value 0xffff ≡ value % 2 ^ 16 = and-below 16 value in
    let half = value % 2 ^ 16 in
    let top : bit_and half 0x8000 ≡ 2 ^ 15 * bit_and (half / 2 ^ 15) 1 = and-shifted 15 half 1 in
    let one : bit_and (half / 2 ^ 15) 1 ≡ half / 2 ^ 15 % 2 = and-below 1 (half / 2 ^ 15) in
    let joined : bit_or half 0xffff_0000 ≡ half + 2 ^ 16 * 0xffff =
      or-shifted 16 half 0xffff (omega arith) in
    rw (low, top, one, joined) (ground arith)

decode-fields :
    (value : ℕ) (info : OpInfo) (code : OpCode)
    → table_entry op_table (value / 2 ^ 26 % 64) ≡ some info
    → final_code info.op_code value ≡ some code
    → decode value
      ≡ some (record {
        value = value;
        op_code = code;
        rs = value / 2 ^ 21 % 32;
        rt = value / 2 ^ 16 % 32;
        rd = value / 2 ^ 11 % 32;
        extra = extra_of info.format value;
      })
unfolding decode
decode-fields value info code entry final =
    let index : bit_and (value / 2 ^ 26) 0x3f ≡ value / 2 ^ 26 % 64 =
      and-below 6 (value / 2 ^ 26) in
    let rs : bit_and (value / 2 ^ 21) 0x1f ≡ value / 2 ^ 21 % 32 = and-below 5 (value / 2 ^ 21) in
    let rt : bit_and (value / 2 ^ 16) 0x1f ≡ value / 2 ^ 16 % 32 = and-below 5 (value / 2 ^ 16) in
    let rd : bit_and (value / 2 ^ 11) 0x1f ≡ value / 2 ^ 11 % 32 = and-below 5 (value / 2 ^ 11) in
    rw (index, rs, rt, rd, entry, final) refl

-- Every instruction of the four forms, encoded with the numbers of the manual, decodes to its
-- operation with the registers, the shift, the target or the immediate that it was made of, the
-- immediate extended by its sign.
pub decode-encode :
    (a : Assembly)
    → IsAssembly a
    → (i : Instruction) × (decode (encode a) ≡ some i) × (i.value ≡ encode a) × Decoded a i
unfolding final_code extra_of
decode-encode (register_form op funct rs rt rd shift) (listed, rs_lt, rt_lt, rd_lt, shift_lt) =
    let v = encode (register_form op funct rs rt rd shift) in
    let (small, entry) =
      Each-Listed HasFunction functions op funct functions-special_table listed in
    let index : v / 2 ^ 26 % 64 ≡ 0 = omega arith in
    let low : bit_and v 0x3f ≡ funct = and-below 6 v ∙ omega arith in
    let shifted : extra_of rfmt v ≡ shift = and-below 5 (v / 2 ^ 6) ∙ omega arith in
    (
      _,
      decode-fields v (r_type special) op (rw index refl) (rw low entry),
      refl,
      (refl, omega arith, omega arith, omega arith, shifted),
    )
decode-encode (immediate_form op code rs rt immediate) (listed, rs_lt, rt_lt, lt) =
    let v = encode (immediate_form op code rs rt immediate) in
    let (small, entry, final) =
      Each-Listed (HasCode i_type) immediates op code immediates-op_table listed in
    let index : v / 2 ^ 26 % 64 ≡ code = omega arith in
    let low : v % 2 ^ 16 ≡ immediate = omega arith in
    (
      _,
      decode-fields v (i_type op) op (rw index entry) (final v),
      refl,
      (refl, omega arith, omega arith, extra_of-immediate v ∙ ap extended low),
    )
decode-encode (jump_form op code target) (listed, lt) =
    let v = encode (jump_form op code target) in
    let (small, entry, final) = Each-Listed (HasCode j_type) jumps op code jumps-op_table listed in
    let index : v / 2 ^ 26 % 64 ≡ code = omega arith in
    (
      _,
      decode-fields v (j_type op) op (rw index entry) (final v),
      refl,
      (refl, and-below 26 v ∙ omega arith),
    )
decode-encode (branch_form op code rs offset) (listed, rs_lt, lt) =
    let v = encode (branch_form op code rs offset) in
    let (small, named) = Each-Listed HasBranch branches op code branches-branch_code listed in
    let index : v / 2 ^ 26 % 64 ≡ 1 = omega arith in
    let low : v % 2 ^ 16 ≡ offset = omega arith in
    let middle : bit_and v 0x1f_0000 ≡ code * 2 ^ 16 =
      and-shifted 16 v 0x1f ∙ omega (arith, and-below 5 (v / 2 ^ 16)) in
    (
      _,
      decode-fields v (i_type bcond) op (rw index refl) (rw (middle, named) refl),
      refl,
      (refl, omega arith, extra_of-immediate v ∙ ap extended low),
    )
