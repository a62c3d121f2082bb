-- ===== src/Cpu/Base/Arith.antt =====
-- src/z80_exec.c: the arithmetic of the unprefixed opcodes (lines 1088-1118, 1131-1148, 1152-1163,
-- 1176-1183, 1192-1199, 1216-1228, 1246-1254, 1259-1272, 1349-1409, 1470-1472 and 1493-1513).
use z80_trace.Common.{ℕ, ◌+◌, ◌-◌, Bool, true, not, ◌&&◌, bit_and, bit_or, bit_xor, u8, u16, test}
use z80_trace.Common.{◌<<<◌, ◌>>>◌, ◌==◌, if◌then◌else◌}
use z80_trace.Cpu.State.{StateZ80}
use z80_trace.Cpu.Monad.{Cpu, ◌>>=◌, ◌>>◌, gets, modify, lift}
use z80_trace.Cpu.Registers.{IndexMode, index_none, is_indexed, get_index_value, set_index_value}
use z80_trace.Cpu.Registers.{get_rp, set_rp, get_reg8_simple, set_reg8_simple, set_a, set_f}
use z80_trace.Cpu.Flags.{flag_h, flag_n, flag_c}
use z80_trace.Cpu.Alu.{add8, sub8, inc8, dec8, logic_and, logic_or, logic_xor, compare8, add16, daa}
use z80_trace.Cpu.Alu.{rotate_left_carry, rotate_right_carry, carry_of}
use z80_trace.Cpu.Bus.{read_memory, write_memory, read_immediate8, read_reg8, add_cycles}
use z80_trace.Cpu.Base.Load.{reg_field, pair_field, half_index, half_cycles, index_cycles}
use z80_trace.Cpu.Base.Load.{memory_operand, displacement}

-- The flags that the rotations of `A`, `SCF` and `CCF` set: S, Z and P/V stay, the bits 3 and 5 are
-- those of `A`.
unfoldable pub kept_flags : ℕ → ℕ → ℕ
kept_flags f a = bit_or (bit_and f 0xc4) (bit_and a 0x28)

module _ {U : Type 0} where
  unfoldable pub inc_pair : ℕ → IndexMode → Cpu U (Unit {0})
  inc_pair op index =
      let chosen = if op == 0x23 && is_indexed index then index else index_none in
      (do
        value ← gets (get_rp (pair_field op) chosen)
        modify (set_rp (pair_field op) chosen (u16 (value + 1)))
        add_cycles (if op == 0x23 && is_indexed index then 10 else 6))

  unfoldable pub dec_pair : ℕ → IndexMode → Cpu U (Unit {0})
  dec_pair op index =
      let chosen = if op == 0x2b && is_indexed index then index else index_none in
      (do
        value ← gets (get_rp (pair_field op) chosen)
        modify (set_rp (pair_field op) chosen (u16 (value + 65536 - 1)))
        add_cycles (if op == 0x2b && is_indexed index then 10 else 6))

  unfoldable pub inc_reg : ℕ → IndexMode → Cpu U (Unit {0})
  inc_reg op index =
      let reg = reg_field op in
      (do
        value ← gets (get_reg8_simple reg (half_index reg index))
        result ← lift (inc8 value)
        modify (set_reg8_simple reg (half_index reg index) result)
        add_cycles (half_cycles reg index 8 4))

  unfoldable pub dec_reg : ℕ → IndexMode → Cpu U (Unit {0})
  dec_reg op index =
      let reg = reg_field op in
      (do
        value ← gets (get_reg8_simple reg (half_index reg index))
        result ← lift (dec8 value)
        modify (set_reg8_simple reg (half_index reg index) result)
        add_cycles (half_cycles reg index 8 4))

  unfoldable pub inc_memory : IndexMode → Cpu U (Unit {0})
  inc_memory index = do
    addr ← memory_operand index
    value ← read_memory addr
    result ← lift (inc8 value)
    write_memory addr result
    add_cycles (index_cycles index 23 11)

  unfoldable pub dec_memory : IndexMode → Cpu U (Unit {0})
  dec_memory index = do
    addr ← memory_operand index
    value ← read_memory addr
    result ← lift (dec8 value)
    write_memory addr result
    add_cycles (index_cycles index 23 11)

  -- `INC` and `DEC` as they stand in the group of lines 1349-1374.
  unfoldable pub inc_dec : ℕ → IndexMode → Cpu U (Unit {0})
  inc_dec op index =
      if reg_field op == 6
      then (if bit_and op 0xc7 == 0x04 then inc_memory index else dec_memory index)
      else (if bit_and op 0xc7 == 0x04 then inc_reg op index else dec_reg op index)

  unfoldable pub add_index : ℕ → IndexMode → Cpu U (Unit {0})
  add_index op index = do
    lhs ← gets (get_index_value index)
    rhs ← gets (get_rp (pair_field op) index)
    sum ← lift (add16 lhs rhs)
    modify (set_index_value index sum)
    add_cycles (index_cycles index 15 11)

  unfoldable pub rotate_a_left_circular : StateZ80 U → StateZ80 U
  rotate_a_left_circular s =
      let a = rotate_left_carry s.a in
      record s { a = a; f = u8 (bit_or (kept_flags s.f a) (if test a 1 then flag_c else 0)) }

  unfoldable pub rotate_a_right_circular : StateZ80 U → StateZ80 U
  rotate_a_right_circular s =
      let f = u8 (bit_or (bit_and s.f 0xc4) (if test s.a 1 then flag_c else 0)) in
      let a = rotate_right_carry s.a in record s { a = a; f = bit_or f (u8 (bit_and a 0x28)) }

  unfoldable pub rotate_a_left : StateZ80 U → StateZ80 U
  rotate_a_left s =
      let new_carry = bit_and (s.a >>> 7) 1 in
      let a = u8 (bit_or (s.a <<< 1) (carry_of s.f)) in
      record s {
        a = a;
        f = u8 (bit_or (kept_flags s.f a) (if not (new_carry == 0) then flag_c else 0));
      }

  unfoldable pub rotate_a_right : StateZ80 U → StateZ80 U
  rotate_a_right s =
      let new_carry = bit_and s.a 1 in
      let a = u8 (bit_or (s.a >>> 1) (carry_of s.f <<< 7)) in
      record s {
        a = a;
        f = u8 (bit_or (kept_flags s.f a) (if not (new_carry == 0) then flag_c else 0));
      }

  unfoldable pub complement_a : StateZ80 U → StateZ80 U
  complement_a s =
      let a = bit_xor s.a 0xff in
      record s {
        a = a;
        f = u8 (bit_or (bit_or (bit_or (bit_and s.f 0xc5) flag_h) flag_n) (bit_and a 0x28));
      }

  unfoldable pub set_carry : StateZ80 U → StateZ80 U
  set_carry s = set_f (u8 (bit_or (kept_flags s.f s.a) flag_c)) s

  unfoldable pub invert_carry : StateZ80 U → StateZ80 U
  invert_carry s =
      let old_carry = test s.f flag_c in
      set_f
        (u8 (
          bit_or (bit_or (kept_flags s.f s.a) (if old_carry then flag_h else 0))
            (if old_carry then 0 else flag_c)))
        s

  unfoldable pub adjust_a : Cpu U (Unit {0})
  adjust_a = do a ← gets (λ s. s.a); value ← lift (daa a); modify (set_a value); add_cycles 4

  -- The operations on `A`, each with the carry flag read before it sets the flags.
  unfoldable pub add_to_a : Bool → ℕ → Cpu U (Unit {0})
  add_to_a with_carry value = do
    a ← gets (λ s. s.a)
    carry ← gets (λ s. if with_carry then carry_of s.f else 0)
    result ← lift (add8 a value carry)
    modify (set_a result)

  unfoldable pub sub_from_a : Bool → ℕ → Cpu U (Unit {0})
  sub_from_a with_carry value = do
    a ← gets (λ s. s.a)
    carry ← gets (λ s. if with_carry then carry_of s.f else 0)
    result ← lift (sub8 a value carry true)
    modify (set_a result)

  unfoldable pub and_a : ℕ → Cpu U (Unit {0})
  and_a value = do a ← gets (λ s. s.a); result ← lift (logic_and a value); modify (set_a result)

  unfoldable pub xor_a : ℕ → Cpu U (Unit {0})
  xor_a value = do a ← gets (λ s. s.a); result ← lift (logic_xor a value); modify (set_a result)

  unfoldable pub or_a : ℕ → Cpu U (Unit {0})
  or_a value = do a ← gets (λ s. s.a); result ← lift (logic_or a value); modify (set_a result)

  unfoldable pub compare_a : ℕ → Cpu U (Unit {0})
  compare_a value = modify (λ s. compare8 s.a value s)

  -- The switch on `op & 0xF8`.
  unfoldable pub alu_a : ℕ → ℕ → Cpu U (Unit {0})
  alu_a op value =
      let group = bit_and op 0xf8 in
      if group == 0x80
      then add_to_a Bool.false value
      else (if group == 0x88
          then add_to_a true value
          else (if group == 0x90
              then sub_from_a Bool.false value
              else (if group == 0x98
                  then sub_from_a true value
                  else (if group == 0xa0
                      then and_a value
                      else (if group == 0xa8
                          then xor_a value
                          else (if group == 0xb0 then or_a value else compare_a value))))))

  unfoldable pub alu_reg : ℕ → IndexMode → Cpu U (Unit {0})
  alu_reg op index =
      let src = bit_and op 7 in
      let indexed = is_indexed index && src == 6 in
      (do
        disp ← displacement indexed
        value ← read_reg8 src index indexed disp
        alu_a op value
        add_cycles (if indexed then 19 else (if src == 6 then 7 else 4)))

  -- An operation on `A` and the byte that follows the opcode.
  unfoldable pub alu_imm : (ℕ → Cpu U (Unit {0})) → Cpu U (Unit {0})
  alu_imm operation = do value ← read_immediate8; operation value; add_cycles 7
