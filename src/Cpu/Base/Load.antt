-- ===== src/Cpu/Base/Load.antt =====
-- src/z80_exec.c: the loads, exchanges, pushes and pops of the unprefixed opcodes (lines 1079-1087,
-- 1119-1130, 1149-1151, 1173-1175, 1189-1191, 1211-1223, 1229-1233, 1255, 1262-1266, 1278-1302,
-- 1307-1309, 1319-1347, 1425-1430 and 1464-1469).
use z80_trace.Common.{ℕ, Bool, ◌&&◌, ◌||◌, bit_and, ◌>>>◌, ◌==◌, leb, if◌then◌else◌}
use z80_trace.Cpu.State.{StateZ80}
use z80_trace.Cpu.Monad.{Cpu, ◌>>=◌, ◌>>◌, pure, gets, modify}
use z80_trace.Cpu.Registers.{IndexMode, index_none, is_indexed, compose16, get_de, set_de}
use z80_trace.Cpu.Registers.{get_hl, set_hl, get_index_value, set_index_value, set_rp, get_rp2}
use z80_trace.Cpu.Registers.{set_rp2, set_a, set_reg8_simple, effective_indexed_address}
use z80_trace.Cpu.Bus.{read_memory, write_memory, read_immediate8, read_immediate16, read_memory16}
use z80_trace.Cpu.Bus.{write_memory16, read_port, write_port, read_reg8, write_reg8, push16, pop16}
use z80_trace.Cpu.Bus.{add_cycles}

-- `(op >> 3) & 7` and `(op >> 4) & 3`.
abbrev pub reg_field : ℕ → ℕ
reg_field op = bit_and (op >>> 3) 7

abbrev pub pair_field : ℕ → ℕ
pair_field op = bit_and (op >>> 4) 3

-- `(reg >= 4 && reg <= 5) ? index : INDEX_NONE`.
unfoldable pub half_index : ℕ → IndexMode → IndexMode
half_index reg index = if leb 4 reg && leb reg 5 then index else index_none

-- `((reg >= 4 && reg <= 5) && index != INDEX_NONE) ? slow : fast`.
unfoldable pub half_cycles : ℕ → IndexMode → ℕ → ℕ → ℕ
half_cycles reg index slow fast =
    if (leb 4 reg && leb reg 5) && is_indexed index then slow else fast

-- `index != INDEX_NONE ? slow : fast`.
abbrev pub index_cycles : IndexMode → ℕ → ℕ → ℕ
index_cycles index slow fast = if is_indexed index then slow else fast

module _ {U : Type 0} where
  -- The address of a memory operand; behind an index prefix the displacement is read.
  unfoldable pub memory_operand : IndexMode → Cpu U ℕ
  memory_operand index =
      if is_indexed index
      then (read_immediate8 >>= λ disp. gets (effective_indexed_address index disp))
      else gets get_hl

  -- The displacement of an instruction that has one.
  unfoldable pub displacement : Bool → Cpu U ℕ
  displacement indexed = if indexed then read_immediate8 else pure 0

  unfoldable pub ld_pair_imm : ℕ → IndexMode → Cpu U (Unit {0})
  ld_pair_imm op index = do
    value ← read_immediate16
    modify (
        set_rp (pair_field op) (if op == 0x21 && is_indexed index then index else index_none) value)
    add_cycles 10

  unfoldable pub ld_reg_imm : ℕ → IndexMode → Cpu U (Unit {0})
  ld_reg_imm op index = do
    imm ← read_immediate8
    modify (set_reg8_simple (reg_field op) (half_index (reg_field op) index) imm)
    add_cycles (half_cycles (reg_field op) index 11 7)

  -- `LD (BC),A` and `LD (DE),A`; `LD A,(BC)` and `LD A,(DE)`.
  unfoldable pub store_a_at : (StateZ80 U → ℕ) → Cpu U (Unit {0})
  store_a_at pair = do addr ← gets pair; a ← gets (λ s. s.a); write_memory addr a; add_cycles 7

  unfoldable pub load_a_at : (StateZ80 U → ℕ) → Cpu U (Unit {0})
  load_a_at pair = do addr ← gets pair; value ← read_memory addr; modify (set_a value); add_cycles 7

  unfoldable pub store_index_at_nn : IndexMode → Cpu U (Unit {0})
  store_index_at_nn index = do
    addr ← read_immediate16
    value ← gets (get_index_value index)
    write_memory16 addr value
    add_cycles (index_cycles index 20 16)

  unfoldable pub load_index_at_nn : IndexMode → Cpu U (Unit {0})
  load_index_at_nn index = do
    addr ← read_immediate16
    value ← read_memory16 addr
    modify (set_index_value index value)
    add_cycles (index_cycles index 20 16)

  unfoldable pub store_a_at_nn : Cpu U (Unit {0})
  store_a_at_nn = do
    addr ← read_immediate16
    a ← gets (λ s. s.a)
    write_memory addr a
    add_cycles 13

  unfoldable pub load_a_at_nn : Cpu U (Unit {0})
  load_a_at_nn = do
    addr ← read_immediate16
    value ← read_memory addr
    modify (set_a value)
    add_cycles 13

  -- `LD (HL),n`, also as it stands in the group of lines 1331-1347.
  unfoldable pub ld_memory_imm : IndexMode → Cpu U (Unit {0})
  ld_memory_imm index = do
    addr ← memory_operand index
    value ← read_immediate8
    write_memory addr value
    add_cycles (index_cycles index 19 10)

  unfoldable pub input_a : Cpu U (Unit {0})
  input_a = do
    port ← read_immediate8
    addr ← gets (λ s. compose16 s.a port)
    value ← read_port addr
    modify (set_a value)
    add_cycles 11

  unfoldable pub output_a : Cpu U (Unit {0})
  output_a = do
    port ← read_immediate8
    addr ← gets (λ s. compose16 s.a port)
    value ← gets (λ s. s.a)
    write_port addr value
    add_cycles 11

  unfoldable pub exchange_stack_top : IndexMode → Cpu U (Unit {0})
  exchange_stack_top index = do
    sp ← gets (λ s. s.sp)
    value ← read_memory16 sp
    old ← gets (get_index_value index)
    write_memory16 sp old
    modify (set_index_value index value)
    add_cycles (index_cycles index 23 19)

  unfoldable pub exchange_de_hl : StateZ80 U → StateZ80 U
  exchange_de_hl s = let temp = get_de s in set_hl temp (set_de (get_hl s) s)

  unfoldable pub load_sp : IndexMode → StateZ80 U → StateZ80 U
  load_sp index s = record s { sp = get_index_value index s }

  -- `LD r,r'` (lines 1319-1329).
  unfoldable pub ld_reg_reg : ℕ → IndexMode → Cpu U (Unit {0})
  ld_reg_reg op index =
      let dst = reg_field op in
      let src = bit_and op 7 in
      let indexed = is_indexed index && (dst == 6 || src == 6) in
      (do
        disp ← displacement indexed
        value ← read_reg8 src index indexed disp
        write_reg8 dst index indexed disp value
        add_cycles (
            if indexed
            then (if dst == 6 || src == 6 then 19 else 8)
            else (if dst == 6 || src == 6 then 7 else 4)))

  unfoldable pub pop_pair : ℕ → IndexMode → Cpu U (Unit {0})
  pop_pair op index = do
    value ← pop16
    modify (set_rp2 (pair_field op) index value)
    add_cycles (if is_indexed index && op == 0xe1 then 14 else 10)

  unfoldable pub push_pair : ℕ → IndexMode → Cpu U (Unit {0})
  push_pair op index = do
    value ← gets (get_rp2 (pair_field op) index)
    push16 value
    add_cycles (if is_indexed index && op == 0xe5 then 15 else 11)
