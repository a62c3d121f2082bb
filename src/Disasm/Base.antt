-- ===== src/Disasm/Base.antt =====
-- src/z80_disasm.c, lines 311-680: `DisassembleBase`. Low and High have the cases of its switch.
pub mod Low
pub mod High
use z80_trace.Common.{ℕ, ◌+◌, Bool, not, ◌&&◌, ◌||◌, List, [], ◌∷◌, bit_and, ◌>>>◌, ◌==◌}
use z80_trace.Common.{if◌then◌else◌}
use z80_trace.Common.Text.{Text, codes}
use z80_trace.Cpu.State.{Bytes}
use z80_trace.Cpu.Registers.{IndexMode, is_indexed}
use z80_trace.Cpu.Switch.{switch_on}
use z80_trace.Cpu.Base.Decode.{is_alu_group}
use z80_trace.Disasm.Text.{Entry, Piece, chars, byte, name, written, byte_at, base_reg_name}
use z80_trace.Disasm.Text.{index_reg_name, indexed_ref}
use Low.{low_texts}
use High.{middle_texts, high_texts}

-- `INC` and `DEC` of a register or of memory.
unfoldable pub inc_dec_text : Text → Bytes → ℕ → IndexMode → ℕ → Entry
inc_dec_text mnemonic mem pc index op =
    let reg = bit_and (op >>> 3) 7 in
    if reg == 6
    then (if is_indexed index
        then written (name mnemonic ∷ name (indexed_ref index (byte_at mem (pc + 1))) ∷ []) 2
        else written (name mnemonic ∷ chars "(HL)" ∷ []) 1)
    else written (name mnemonic ∷ name (index_reg_name reg index) ∷ []) 1

unfoldable pub load_imm_text : Bytes → ℕ → IndexMode → ℕ → Entry
load_imm_text mem pc index op =
    let reg = bit_and (op >>> 3) 7 in
    if reg == 6
    then (if is_indexed index
        then written
            (chars "LD "
              ∷ name (indexed_ref index (byte_at mem (pc + 1)))
              ∷ chars ",$"
              ∷ byte (byte_at mem (pc + 2))
              ∷ [])
            3
        else written (chars "LD (HL),$" ∷ byte (byte_at mem (pc + 1)) ∷ []) 2)
    else written
        (chars "LD "
          ∷ name (index_reg_name reg index)
          ∷ chars ",$"
          ∷ byte (byte_at mem (pc + 1))
          ∷ [])
        2

unfoldable pub load_reg_text : Bytes → ℕ → IndexMode → ℕ → Entry
load_reg_text mem pc index op =
    let dst = bit_and (op >>> 3) 7 in
    let src = bit_and op 7 in
    let memref = indexed_ref index (byte_at mem (pc + 1)) in
    if is_indexed index && (dst == 6 || src == 6)
    then written
        (chars "LD "
          ∷ name (if dst == 6 then memref else base_reg_name dst)
          ∷ chars ","
          ∷ name (if src == 6 then memref else index_reg_name src index)
          ∷ [])
        2
    else written
        (chars "LD "
          ∷ name (index_reg_name dst index)
          ∷ chars ","
          ∷ name (index_reg_name src index)
          ∷ [])
        1

-- `kMnemonics` of the arithmetic group.
unfoldable pub alu_mnemonic : ℕ → Text
alu_mnemonic y =
    if y == 0
    then codes "ADD A"
    else (if y == 1
        then codes "ADC A"
        else (if y == 2
            then codes "SUB"
            else (if y == 3
                then codes "SBC A"
                else (if y == 4
                    then codes "AND"
                    else (if y == 5
                        then codes "XOR"
                        else (if y == 6 then codes "OR" else codes "CP"))))))

unfoldable pub alu_text : Bytes → ℕ → IndexMode → ℕ → Entry
alu_text mem pc index op =
    let src = bit_and op 7 in
    let mnemonic = alu_mnemonic (bit_and (op >>> 3) 7) in
    if is_indexed index && src == 6
    then written (name mnemonic ∷ chars "," ∷ name (indexed_ref index (byte_at mem (pc + 1))) ∷ [])
        2
    else written (name mnemonic ∷ chars "," ∷ name (index_reg_name src index) ∷ []) 1

-- The groups that are tested after the switch.
unfoldable pub group_text : Bytes → ℕ → IndexMode → ℕ → Entry
group_text mem pc index op =
    if bit_and op 0xc7 == 0x04
    then inc_dec_text (codes "INC ") mem pc index op
    else (if bit_and op 0xc7 == 0x05
        then inc_dec_text (codes "DEC ") mem pc index op
        else (if bit_and op 0xc7 == 0x06
            then load_imm_text mem pc index op
            else (if bit_and op 0xc0 == 0x40 && not (op == 0x76)
                then load_reg_text mem pc index op
                else (if is_alu_group op
                    then alu_text mem pc index op
                    else written (chars "DB $" ∷ byte op ∷ []) 1))))

unfoldable pub disassemble_base : Bytes → ℕ → IndexMode → Entry
disassemble_base mem pc index =
    let op = byte_at mem pc in
    switch_on op (low_texts mem pc index op) (
      switch_on op (middle_texts mem pc index op)
        (switch_on op (high_texts mem pc index op) (group_text mem pc index op)))
