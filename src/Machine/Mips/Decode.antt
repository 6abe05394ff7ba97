-- ===== src/Machine/Mips/Decode.antt =====
-- machine/mipssim.h and `Instruction::Decode` of machine/mipssim.cc.
pub mod Total
pub mod Encoding
use cop5614nachos.Base.{
  ℕ, zero, suc, ◌+◌, ◌-◌, ◌*◌, ◌/◌, ◌%◌, ◌^◌, Bool, true, false, Option, none, some, List, [], ◌∷◌,
  leb, ltb, ◌==◌, if◌then◌else◌, ◌>>=◌, bit_and, bit_or,
}

-- The codes of mipssim.h; `special` and `bcond` stand in `opTable` only.
pub data OpCode : Type 0 where
  op_add op_addi op_addiu op_addu op_and op_andi op_beq op_bgez : OpCode
  op_bgezal op_bgtz op_blez op_bltz op_bltzal op_bne op_div op_divu : OpCode
  op_j op_jal op_jalr op_jr op_lb op_lbu op_lh op_lhu : OpCode
  op_lui op_lw op_lwl op_lwr op_mfhi op_mflo op_mthi op_mtlo : OpCode
  op_mult op_multu op_nor op_or op_ori op_rfe op_sb op_sh : OpCode
  op_sll op_sllv op_slt op_slti op_sltiu op_sltu op_sra op_srav : OpCode
  op_srl op_srlv op_sub op_subu op_sw op_swl op_swr op_xor : OpCode
  op_xori op_syscall op_unimp op_res : OpCode
  special bcond : OpCode

pub data Format : Type 0 where
  ifmt jfmt rfmt : Format

pub record OpInfo : Type 0 where
  pub op_code : OpCode
  pub format : Format

abbrev pub i_type : OpCode → OpInfo
i_type code = record { op_code = code; format = ifmt }

abbrev pub j_type : OpCode → OpInfo
j_type code = record { op_code = code; format = jfmt }

abbrev pub r_type : OpCode → OpInfo
r_type code = record { op_code = code; format = rfmt }

abbrev pub op_table : List OpInfo
op_table =
    r_type special
    ∷ i_type bcond
    ∷ j_type op_j
    ∷ j_type op_jal
    ∷ i_type op_beq
    ∷ i_type op_bne
    ∷ i_type op_blez
    ∷ i_type op_bgtz
    ∷ i_type op_addi
    ∷ i_type op_addiu
    ∷ i_type op_slti
    ∷ i_type op_sltiu
    ∷ i_type op_andi
    ∷ i_type op_ori
    ∷ i_type op_xori
    ∷ i_type op_lui
    ∷ i_type op_unimp
    ∷ i_type op_unimp
    ∷ i_type op_unimp
    ∷ i_type op_unimp
    ∷ i_type op_res
    ∷ i_type op_res
    ∷ i_type op_res
    ∷ i_type op_res
    ∷ i_type op_res
    ∷ i_type op_res
    ∷ i_type op_res
    ∷ i_type op_res
    ∷ i_type op_res
    ∷ i_type op_res
    ∷ i_type op_res
    ∷ i_type op_res
    ∷ i_type op_lb
    ∷ i_type op_lh
    ∷ i_type op_lwl
    ∷ i_type op_lw
    ∷ i_type op_lbu
    ∷ i_type op_lhu
    ∷ i_type op_lwr
    ∷ i_type op_res
    ∷ i_type op_sb
    ∷ i_type op_sh
    ∷ i_type op_swl
    ∷ i_type op_sw
    ∷ i_type op_res
    ∷ i_type op_res
    ∷ i_type op_swr
    ∷ i_type op_res
    ∷ i_type op_unimp
    ∷ i_type op_unimp
    ∷ i_type op_unimp
    ∷ i_type op_unimp
    ∷ i_type op_res
    ∷ i_type op_res
    ∷ i_type op_res
    ∷ i_type op_res
    ∷ i_type op_unimp
    ∷ i_type op_unimp
    ∷ i_type op_unimp
    ∷ i_type op_unimp
    ∷ i_type op_res
    ∷ i_type op_res
    ∷ i_type op_res
    ∷ i_type op_res
    ∷ []

abbrev pub special_table : List OpCode
special_table =
    op_sll ∷ op_res ∷ op_srl ∷ op_sra ∷ op_sllv ∷ op_res ∷ op_srlv ∷ op_srav ∷ op_jr ∷ op_jalr
    ∷ op_res ∷ op_res ∷ op_syscall ∷ op_unimp ∷ op_res ∷ op_res ∷ op_mfhi ∷ op_mthi ∷ op_mflo
    ∷ op_mtlo ∷ op_res ∷ op_res ∷ op_res ∷ op_res ∷ op_mult ∷ op_multu ∷ op_div ∷ op_divu ∷ op_res
    ∷ op_res ∷ op_res ∷ op_res ∷ op_add ∷ op_addu ∷ op_sub ∷ op_subu ∷ op_and ∷ op_or ∷ op_xor
    ∷ op_nor ∷ op_res ∷ op_res ∷ op_slt ∷ op_sltu ∷ op_res ∷ op_res ∷ op_res ∷ op_res ∷ op_res
    ∷ op_res ∷ op_res ∷ op_res ∷ op_res ∷ op_res ∷ op_res ∷ op_res ∷ op_res ∷ op_res ∷ op_res
    ∷ op_res ∷ op_res ∷ op_res ∷ op_res ∷ op_res ∷ []

-- `table[i]`
unfoldable pub table_entry {ℓ} : {A : Type ℓ} → List A → ℕ → Option A
table_entry [] i = none
table_entry (x ∷ xs) zero = some x
table_entry (x ∷ xs) (suc i) = table_entry xs i

pub record Instruction : Type 0 where
  pub value : ℕ
  pub op_code : OpCode
  pub rs : ℕ
  pub rt : ℕ
  pub rd : ℕ
  pub extra : ℕ

-- The immediate or the target, by the format.
unfoldable pub extra_of : Format → ℕ → ℕ
extra_of ifmt value =
    let low = bit_and value 0xffff in
    if bit_and low 0x8000 == 0 then low else bit_or low 0xffff_0000
extra_of rfmt value = bit_and (value / 2 ^ 6) 0x1f
extra_of jfmt value = bit_and value 0x3ff_ffff

-- The branches that share the code `bcond`.
unfoldable pub branch_code : ℕ → OpCode
branch_code i =
    if i == 0
    then op_bltz
    else if i == 0x1_0000
    then op_bgez
    else if i == 0x10_0000
    then op_bltzal
    else if i == 0x11_0000
    then op_bgezal
    else op_unimp

-- The second half of `Decode`.
unfoldable pub final_code : OpCode → ℕ → Option OpCode
unfolding table_entry branch_code
final_code special value = table_entry special_table (bit_and value 0x3f)
final_code bcond value = some (branch_code (bit_and value 0x1f_0000))
final_code code value = some code

-- The shifts of a negative `value` are of an unsigned word, as the fields are masked.
unfoldable pub decode : ℕ → Option Instruction
unfolding extra_of final_code
decode value = do
  info ← table_entry op_table (bit_and (value / 2 ^ 26) 0x3f)
  code ← final_code info.op_code value
  some (record {
    value = value;
    op_code = code;
    rs = bit_and (value / 2 ^ 21) 0x1f;
    rt = bit_and (value / 2 ^ 16) 0x1f;
    rd = bit_and (value / 2 ^ 11) 0x1f;
    extra = extra_of info.format value;
  })
