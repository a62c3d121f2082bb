-- ===== src/Disasm/Base/Low.antt =====
-- src/z80_disasm.c, lines 316-436: the switch of `DisassembleBase` up to 0x76.
use z80_trace.Common.{ℕ, ◌+◌, List, [], ◌∷◌}
use z80_trace.Cpu.State.{Bytes}
use z80_trace.Cpu.Registers.{IndexMode}
use z80_trace.Disasm.Text.{Entry, chars, word, name, fixed, written, byte_at, read16}
use z80_trace.Disasm.Text.{relative_target, pair_text, condition_text}

abbrev pub low_texts : Bytes → ℕ → IndexMode → ℕ → List (List ℕ × Entry)
low_texts mem pc index op =
    (0x00 ∷ [], fixed "NOP" 1)
    ∷ (0x01 ∷ [], written (chars "LD BC,$" ∷ word (read16 mem pc) ∷ []) 3)
    ∷ (0x02 ∷ [], fixed "LD (BC),A" 1)
    ∷ (0x03 ∷ [], fixed "INC BC" 1)
    ∷ (0x07 ∷ [], fixed "RLCA" 1)
    ∷ (0x08 ∷ [], fixed "EX AF,AF'" 1)
    ∷ (0x09 ∷ [], written (chars "ADD " ∷ name (pair_text index) ∷ chars ",BC" ∷ []) 1)
    ∷ (0x0a ∷ [], fixed "LD A,(BC)" 1)
    ∷ (0x0b ∷ [], fixed "DEC BC" 1)
    ∷ (0x0f ∷ [], fixed "RRCA" 1)
    ∷ (
      0x10 ∷ [],
      written (chars "DJNZ $" ∷ word (relative_target pc (byte_at mem (pc + 1)) 2) ∷ []) 2,
    )
    ∷ (0x11 ∷ [], written (chars "LD DE,$" ∷ word (read16 mem pc) ∷ []) 3)
    ∷ (0x12 ∷ [], fixed "LD (DE),A" 1)
    ∷ (0x13 ∷ [], fixed "INC DE" 1)
    ∷ (0x17 ∷ [], fixed "RLA" 1)
    ∷ (
      0x18 ∷ [],
      written (chars "JR $" ∷ word (relative_target pc (byte_at mem (pc + 1)) 2) ∷ []) 2,
    )
    ∷ (0x19 ∷ [], written (chars "ADD " ∷ name (pair_text index) ∷ chars ",DE" ∷ []) 1)
    ∷ (0x1a ∷ [], fixed "LD A,(DE)" 1)
    ∷ (0x1b ∷ [], fixed "DEC DE" 1)
    ∷ (0x1f ∷ [], fixed "RRA" 1)
    ∷ (
      0x20 ∷ 0x28 ∷ 0x30 ∷ 0x38 ∷ [],
      written
          (chars "JR "
            ∷ name (condition_text op)
            ∷ chars ",$"
            ∷ word (relative_target pc (byte_at mem (pc + 1)) 2)
            ∷ [])
          2,
    )
    ∷ (
      0x21 ∷ [],
      written (chars "LD " ∷ name (pair_text index) ∷ chars ",$" ∷ word (read16 mem pc) ∷ []) 3,
    )
    ∷ (
      0x22 ∷ [],
      written (chars "LD ($" ∷ word (read16 mem pc) ∷ chars ")," ∷ name (pair_text index) ∷ []) 3,
    )
    ∷ (0x23 ∷ [], written (chars "INC " ∷ name (pair_text index) ∷ []) 1)
    ∷ (0x27 ∷ [], fixed "DAA" 1)
    ∷ (
      0x29 ∷ [],
      written (chars "ADD " ∷ name (pair_text index) ∷ chars "," ∷ name (pair_text index) ∷ []) 1,
    )
    ∷ (
      0x2a ∷ [],
      written
          (chars "LD "
            ∷ name (pair_text index)
            ∷ chars ",($"
            ∷ word (read16 mem pc)
            ∷ chars ")"
            ∷ [])
          3,
    )
    ∷ (0x2b ∷ [], written (chars "DEC " ∷ name (pair_text index) ∷ []) 1)
    ∷ (0x2f ∷ [], fixed "CPL" 1)
    ∷ (0x31 ∷ [], written (chars "LD SP,$" ∷ word (read16 mem pc) ∷ []) 3)
    ∷ (0x32 ∷ [], written (chars "LD ($" ∷ word (read16 mem pc) ∷ chars "),A" ∷ []) 3)
    ∷ (0x33 ∷ [], fixed "INC SP" 1)
    ∷ (0x37 ∷ [], fixed "SCF" 1)
    ∷ (0x39 ∷ [], written (chars "ADD " ∷ name (pair_text index) ∷ chars ",SP" ∷ []) 1)
    ∷ (0x3a ∷ [], written (chars "LD A,($" ∷ word (read16 mem pc) ∷ chars ")" ∷ []) 3)
    ∷ (0x3b ∷ [], fixed "DEC SP" 1)
    ∷ (0x3f ∷ [], fixed "CCF" 1)
    ∷ (0x76 ∷ [], fixed "HALT" 1)
    ∷ []
