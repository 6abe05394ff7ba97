-- ===== src/Machine/Mips/Execute.antt =====
-- `Machine::OneInstruction` of machine/mipssim.cc, in the order of its `switch`.
pub mod Cases
pub mod Overflow
use cop5614nachos.Base.{
  ℕ, ◌+◌, ◌-◌, ◌*◌, ◌/◌, ◌%◌, ◌^◌, Bool, true, false, not, ◌&&◌, ◌||◌, Option, none, some, ltb, leb,
  ◌==◌, if◌then◌else◌, update, assert, ◌>>=◌, ◌>>◌, bit_and, bit_or, bit_xor,
}
use cop5614nachos.Machine.State.{
  overflow_exception, address_error_exception, syscall_exception, illegal_instr_exception, Machine,
  hi_reg, lo_reg, pc_reg, next_pc_reg, prev_pc_reg, load_reg, load_value_reg, delayed_load,
  ExceptionType,
}
use cop5614nachos.Machine.Memory.{Handler, raise_exception, read_mem, write_mem}
use cop5614nachos.Machine.Mips.Word.{
  word_size, sign_bit, is_negative, plus, minus, complement, shift_left, shift_right, less, divide,
}
use cop5614nachos.Machine.Mips.Mult.{mult}
use cop5614nachos.Machine.Mips.Decode.{
  OpCode, Instruction, decode, op_add, op_addi, op_addiu, op_addu, op_and, op_andi, op_beq, op_bgez,
  op_bgezal, op_bgtz, op_blez, op_bltz, op_bltzal, op_bne, op_div, op_divu, op_j, op_jal, op_jalr,
  op_jr, op_lb, op_lbu, op_lh, op_lhu, op_lui, op_lw, op_lwl, op_lwr, op_mfhi, op_mflo, op_mthi,
  op_mtlo, op_mult, op_multu, op_nor, op_or, op_ori, op_sb, op_sh, op_sll, op_sllv, op_slt, op_slti,
  op_sltiu, op_sltu, op_sra, op_srav, op_srl, op_srlv, op_sub, op_subu, op_sw, op_swl, op_swr,
  op_xor, op_xori, op_syscall, op_unimp, op_res,
}
use cop5614nachos.Machine.Mips.Execute.Cases.{
  Outcome, returned, executed, r31, index_to_addr, result, branch, link, set_register,
  add_overflows, addi_overflows, sub_overflows, as_int, raise, load, store,
}

module _ (handler : Handler) where
  -- OP_SW to OP_UNIMP. OP_SWL and OP_SWR go on only when the address is aligned, so their other
  -- cases are never reached. OP_RFE and the marks of the table fail the `ASSERT`.
  unfoldable pub execute_sw_to_unimp : OpCode → Instruction → ℕ → Machine → Option Outcome
  execute_sw_to_unimp op_sw i pc_after m =
      store handler (plus (m.registers i.rs) i.extra) 4 (m.registers i.rt) pc_after m
  execute_sw_to_unimp op_swl i pc_after m = do
    let tmp = plus (m.registers i.rs) i.extra
    assert (bit_and tmp 3 == 0)
    load handler tmp 4 m (λ value m'. store handler tmp 4 (m'.registers i.rt) pc_after m')
  execute_sw_to_unimp op_swr i pc_after m = do
    let tmp = plus (m.registers i.rs) i.extra
    assert (bit_and tmp 3 == 0)
    load handler tmp 4 m (λ value m'.
        store handler tmp 4 (bit_or (bit_and value 0xff_ffff) (shift_left (m'.registers i.rt) 24))
          pc_after m')
  execute_sw_to_unimp op_syscall i pc_after m = raise handler syscall_exception 0 m
  execute_sw_to_unimp op_xor i pc_after m =
      result m i.rd (bit_xor (m.registers i.rs) (m.registers i.rt)) pc_after
  execute_sw_to_unimp op_xori i pc_after m =
      result m i.rt (bit_xor (m.registers i.rs) (bit_and i.extra 0xffff)) pc_after
  execute_sw_to_unimp op_res i pc_after m = raise handler illegal_instr_exception 0 m
  execute_sw_to_unimp op_unimp i pc_after m = raise handler illegal_instr_exception 0 m
  execute_sw_to_unimp _ i pc_after m = none

  -- OP_MFHI to OP_SUBU.
  unfoldable pub execute_mfhi_to_subu : OpCode → Instruction → ℕ → Machine → Option Outcome
  unfolding execute_sw_to_unimp mult
  execute_mfhi_to_subu op_mfhi i pc_after m = result m i.rd (m.registers hi_reg) pc_after
  execute_mfhi_to_subu op_mflo i pc_after m = result m i.rd (m.registers lo_reg) pc_after
  execute_mfhi_to_subu op_mthi i pc_after m = result m hi_reg (m.registers i.rs) pc_after
  execute_mfhi_to_subu op_mtlo i pc_after m = result m lo_reg (m.registers i.rs) pc_after
  execute_mfhi_to_subu op_mult i pc_after m =
      let product = mult (m.registers i.rs) (m.registers i.rt) true in
      result (set_register m hi_reg product.0) lo_reg product.1 pc_after
  execute_mfhi_to_subu op_multu i pc_after m =
      let product = mult (m.registers i.rs) (m.registers i.rt) false in
      result (set_register m hi_reg product.0) lo_reg product.1 pc_after
  execute_mfhi_to_subu op_nor i pc_after m =
      result m i.rd (complement (bit_or (m.registers i.rs) (m.registers i.rt))) pc_after
  execute_mfhi_to_subu op_or i pc_after m =
      result m i.rd (bit_or (m.registers i.rs) (m.registers i.rs)) pc_after
  execute_mfhi_to_subu op_ori i pc_after m =
      result m i.rt (bit_or (m.registers i.rs) (bit_and i.extra 0xffff)) pc_after
  execute_mfhi_to_subu op_sb i pc_after m =
      store handler (plus (m.registers i.rs) i.extra) 1 (m.registers i.rt) pc_after m
  execute_mfhi_to_subu op_sh i pc_after m =
      store handler (plus (m.registers i.rs) i.extra) 2 (m.registers i.rt) pc_after m
  execute_mfhi_to_subu op_sll i pc_after m =
      result m i.rd (shift_left (m.registers i.rt) i.extra) pc_after
  execute_mfhi_to_subu op_sllv i pc_after m =
      result m i.rd (shift_left (m.registers i.rt) (bit_and (m.registers i.rs) 0x1f)) pc_after
  execute_mfhi_to_subu op_slt i pc_after m =
      result m i.rd (as_int (less (m.registers i.rs) (m.registers i.rt))) pc_after
  execute_mfhi_to_subu op_slti i pc_after m =
      result m i.rt (as_int (less (m.registers i.rs) i.extra)) pc_after
  execute_mfhi_to_subu op_sltiu i pc_after m =
      result m i.rt (as_int (ltb (m.registers i.rs) i.extra)) pc_after
  execute_mfhi_to_subu op_sltu i pc_after m =
      result m i.rd (as_int (ltb (m.registers i.rs) (m.registers i.rt))) pc_after
  execute_mfhi_to_subu op_sra i pc_after m =
      result m i.rd (shift_right (m.registers i.rt) i.extra) pc_after
  execute_mfhi_to_subu op_srav i pc_after m =
      result m i.rd (shift_right (m.registers i.rt) (bit_and (m.registers i.rs) 0x1f)) pc_after
  execute_mfhi_to_subu op_srl i pc_after m =
      result m i.rd (shift_right (m.registers i.rt) i.extra) pc_after
  execute_mfhi_to_subu op_srlv i pc_after m =
      result m i.rd (shift_right (m.registers i.rt) (bit_and (m.registers i.rs) 0x1f)) pc_after
  execute_mfhi_to_subu op_sub i pc_after m =
      let x = m.registers i.rs in
      let y = m.registers i.rt in
      if sub_overflows x y
      then raise handler overflow_exception 0 m
      else result m i.rd (minus x y) pc_after
  execute_mfhi_to_subu op_subu i pc_after m =
      result m i.rd (minus (m.registers i.rs) (m.registers i.rt)) pc_after
  execute_mfhi_to_subu code i pc_after m = execute_sw_to_unimp code i pc_after m

  -- OP_LB to OP_LWR. Of the cases of OP_LWL and OP_LWR only 0 is reached, as the address is aligned.
  unfoldable pub execute_loads : OpCode → Instruction → ℕ → Machine → Option Outcome
  unfolding execute_mfhi_to_subu
  execute_loads op_lb i pc_after m = load handler (plus (m.registers i.rs) i.extra) 1 m (λ value m'.
      some (
        executed m' pc_after i.rt
          (if bit_and value 0x80 == 0 then bit_and value 0xff else bit_or value 0xffff_ff00)))
  execute_loads op_lbu i pc_after m =
      load handler (plus (m.registers i.rs) i.extra) 1 m
        (λ value m'. some (executed m' pc_after i.rt (bit_and value 0xff)))
  execute_loads op_lh i pc_after m =
      let tmp = plus (m.registers i.rs) i.extra in
      if bit_and tmp 1 == 0
      then load handler tmp 2 m (λ value m'. some (
          executed m' pc_after i.rt
            (if bit_and value 0x8000 == 0 then bit_and value 0xffff else bit_or value 0xffff_0000)))
      else raise handler address_error_exception tmp m
  execute_loads op_lhu i pc_after m =
      let tmp = plus (m.registers i.rs) i.extra in
      if bit_and tmp 1 == 0
      then load handler tmp 2 m
          (λ value m'. some (executed m' pc_after i.rt (bit_and value 0xffff)))
      else raise handler address_error_exception tmp m
  execute_loads op_lui i pc_after m = result m i.rt (shift_left i.extra 16) pc_after
  execute_loads op_lw i pc_after m =
      let tmp = plus (m.registers i.rs) i.extra in
      if bit_and tmp 3 == 0
      then load handler tmp 4 m (λ value m'. some (executed m' pc_after i.rt value))
      else raise handler address_error_exception tmp m
  execute_loads op_lwl i pc_after m = do
    let tmp = plus (m.registers i.rs) i.extra
    assert (bit_and tmp 3 == 0)
    load handler tmp 4 m (λ value m'. some (executed m' pc_after i.rt value))
  execute_loads op_lwr i pc_after m = do
    let tmp = plus (m.registers i.rs) i.extra
    assert (bit_and tmp 3 == 0)
    load handler tmp 4 m (λ value m'.
        let pending =
          if m'.registers load_reg == i.rt
          then m'.registers load_value_reg
          else m'.registers i.rt in
        some (
          executed m' pc_after i.rt
            (bit_or (bit_and pending 0xffff_ff00) (bit_and (shift_right value 24) 0xff))))
  execute_loads code i pc_after m = execute_mfhi_to_subu code i pc_after m

  -- OP_ADD to OP_JR.
  unfoldable pub execute : OpCode → Instruction → ℕ → Machine → Option Outcome
  unfolding execute_loads divide
  execute op_add i pc_after m =
      let x = m.registers i.rs in
      let y = m.registers i.rt in
      if add_overflows x y
      then raise handler overflow_exception 0 m
      else result m i.rd (plus x y) pc_after
  execute op_addi i pc_after m =
      let x = m.registers i.rs in
      if addi_overflows x i.extra
      then raise handler overflow_exception 0 m
      else result m i.rt (plus x i.extra) pc_after
  execute op_addiu i pc_after m = result m i.rt (plus (m.registers i.rs) i.extra) pc_after
  execute op_addu i pc_after m = result m i.rd (plus (m.registers i.rs) (m.registers i.rt)) pc_after
  execute op_and i pc_after m =
      result m i.rd (bit_and (m.registers i.rs) (m.registers i.rt)) pc_after
  execute op_andi i pc_after m =
      result m i.rt (bit_and (m.registers i.rs) (bit_and i.extra 0xffff)) pc_after
  execute op_beq i pc_after m = branch m (m.registers i.rs == m.registers i.rt) i.extra pc_after
  execute op_bgezal i pc_after m =
      let m' = link m r31 in branch m' (bit_and (m'.registers i.rs) sign_bit == 0) i.extra pc_after
  execute op_bgez i pc_after m =
      branch m (bit_and (m.registers i.rs) sign_bit == 0) i.extra pc_after
  execute op_bgtz i pc_after m = branch m (less 0 (m.registers i.rs)) i.extra pc_after
  execute op_blez i pc_after m = branch m (not (less 0 (m.registers i.rs))) i.extra pc_after
  execute op_bltzal i pc_after m =
      let m' = link m r31 in
      branch m' (not (bit_and (m'.registers i.rs) sign_bit == 0)) i.extra pc_after
  execute op_bltz i pc_after m =
      branch m (not (bit_and (m.registers i.rs) sign_bit == 0)) i.extra pc_after
  execute op_bne i pc_after m =
      branch m (not (m.registers i.rs == m.registers i.rt)) i.extra pc_after
  execute op_div i pc_after m =
      let y = m.registers i.rt in
      if y == 0 then result (set_register m lo_reg 0) hi_reg 0 pc_after else do
        (quotient, remainder) ← divide (m.registers i.rs) y
        result (set_register m lo_reg quotient) hi_reg remainder pc_after
  execute op_divu i pc_after m =
      let rs = m.registers i.rs in
      let rt = m.registers i.rt in
      if rt == 0
      then result (set_register m lo_reg 0) hi_reg 0 pc_after
      else result (set_register m lo_reg (rs / rt)) hi_reg (rs % rt) pc_after
  execute op_jal i pc_after m =
      some
        (executed (link m r31) (bit_or (bit_and pc_after 0xf000_0000) (index_to_addr i.extra)) 0 0)
  execute op_j i pc_after m =
      some (executed m (bit_or (bit_and pc_after 0xf000_0000) (index_to_addr i.extra)) 0 0)
  execute op_jalr i pc_after m = let m' = link m i.rd in some (executed m' (m'.registers i.rs) 0 0)
  execute op_jr i pc_after m = some (executed m (m.registers i.rs) 0 0)
  execute code i pc_after m = execute_loads code i pc_after m

  -- The delayed load and the program counters at the end.
  abbrev pub advance : Machine → ℕ → ℕ → ℕ → Machine
  advance m pc_after next_load_reg next_load_value =
      let m' = delayed_load m next_load_reg next_load_value in
      let previous = set_register m' prev_pc_reg (m'.registers pc_reg) in
      let current = set_register previous pc_reg (m'.registers next_pc_reg) in
      set_register current next_pc_reg pc_after

  unfoldable pub one_instruction : Machine → Option Machine
  unfolding execute decode
  one_instruction m = do
    (raw, m') ← read_mem handler (m.registers pc_reg) 4 m
    elim raw [
      | none ↦ some m'
      | some value ↦ do
        i ← decode value
        outcome ← execute i.op_code i (plus (m'.registers next_pc_reg) 4) m'
        elim outcome [
          | returned m'' ↦ some m''
          | executed m'' pc_after reg loaded ↦ some (advance m'' pc_after reg loaded)
        ]
    ]
