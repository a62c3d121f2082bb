-- ===== src/Disasm/Cb.antt =====
-- src/z80_disasm.c, lines 51-103: `DisassembleCB`.
use z80_trace.Common.{ℕ, ◌+◌, Bool, true, false, List, [], ◌∷◌, bit_and, ◌>>>◌, ◌==◌}
use z80_trace.Common.{if◌then◌else◌}
use z80_trace.Common.Text.{Text, codes, decimal}
use z80_trace.Cpu.State.{Bytes}
use z80_trace.Cpu.Registers.{IndexMode}
use z80_trace.Disasm.Text.{Entry, Piece, chars, name, written, byte_at, base_reg_name, indexed_ref}

-- `kMnemonics`.
unfoldable pub cb_mnemonic : ℕ → Text
cb_mnemonic y =
    if y == 0
    then codes "RLC"
    else (if y == 1
        then codes "RRC"
        else (if y == 2
            then codes "RL"
            else (if y == 3
                then codes "RR"
                else (if y == 4
                    then codes "SLA"
                    else (if y == 5
                        then codes "SRA"
                        else (if y == 6 then codes "SLL" else codes "SRL"))))))

-- The operand, and the register that an indexed form writes as well.
unfoldable pub cb_operands : Bool → ℕ → Text → List Piece
cb_operands indexed_cb z memref =
    if indexed_cb
    then (if z == 6
        then name memref ∷ []
        else name memref ∷ chars "," ∷ name (base_reg_name z) ∷ [])
    else name (base_reg_name z) ∷ []

-- The text for an opcode, whose operand in memory is `memref`.
unfoldable pub cb_pieces : Bool → ℕ → Text → List Piece
cb_pieces indexed_cb op memref =
    let y = bit_and (op >>> 3) 7 in
    let z = bit_and op 7 in
    if bit_and op 0xc0 == 0x00
    then name (cb_mnemonic y) ∷ chars " " ∷ cb_operands indexed_cb z memref
    else (if bit_and op 0xc0 == 0x40
        then chars "BIT "
          ∷ name (decimal y)
          ∷ chars ","
          ∷ name (if indexed_cb then memref else base_reg_name z)
          ∷ []
        else (if bit_and op 0xc0 == 0x80
            then chars "RES " ∷ name (decimal y) ∷ chars "," ∷ cb_operands indexed_cb z memref
            else chars "SET " ∷ name (decimal y) ∷ chars "," ∷ cb_operands indexed_cb z memref))

unfoldable pub disassemble_cb : Bytes → ℕ → IndexMode → Bool → Entry
disassemble_cb mem pc index true =
    written (cb_pieces true (byte_at mem (pc + 2)) (indexed_ref index (byte_at mem (pc + 1)))) 3
disassemble_cb mem pc index false = written (cb_pieces false (byte_at mem (pc + 1)) []) 2
