-- ===== src/Disasm/Ed.antt =====
-- src/z80_disasm.c, lines 105-309: `DisassembleED`.
use z80_trace.Common.{ℕ, ◌+◌, List, [], ◌∷◌}
use z80_trace.Cpu.State.{Bytes}
use z80_trace.Cpu.Switch.{switch_on}
use z80_trace.Disasm.Text.{Entry, chars, word, fixed, written, byte_at, read16}

-- The cases of the switch up to 0x61, and those after it.
abbrev pub first_ed_texts : Bytes → ℕ → List (List ℕ × Entry)
first_ed_texts mem pc =
    (0x40 ∷ [], fixed "IN B,(C)" 2)
    ∷ (0x41 ∷ [], fixed "OUT (C),B" 2)
    ∷ (0x42 ∷ [], fixed "SBC HL,BC" 2)
    ∷ (0x43 ∷ [], written (chars "LD ($" ∷ word (read16 mem (pc + 1)) ∷ chars "),BC" ∷ []) 4)
    ∷ (0x44 ∷ 0x4c ∷ 0x54 ∷ 0x5c ∷ 0x64 ∷ 0x6c ∷ 0x74 ∷ 0x7c ∷ [], fixed "NEG" 2)
    ∷ (0x45 ∷ 0x55 ∷ 0x5d ∷ 0x65 ∷ 0x6d ∷ 0x75 ∷ [], fixed "RETN" 2)
    ∷ (0x4d ∷ [], fixed "RETI" 2)
    ∷ (0x46 ∷ 0x4e ∷ 0x66 ∷ 0x6e ∷ [], fixed "IM 0" 2)
    ∷ (0x47 ∷ [], fixed "LD I,A" 2)
    ∷ (0x48 ∷ [], fixed "IN C,(C)" 2)
    ∷ (0x49 ∷ [], fixed "OUT (C),C" 2)
    ∷ (0x4a ∷ [], fixed "ADC HL,BC" 2)
    ∷ (0x4b ∷ [], written (chars "LD BC,($" ∷ word (read16 mem (pc + 1)) ∷ chars ")" ∷ []) 4)
    ∷ (0x4f ∷ [], fixed "LD R,A" 2)
    ∷ (0x50 ∷ [], fixed "IN D,(C)" 2)
    ∷ (0x51 ∷ [], fixed "OUT (C),D" 2)
    ∷ (0x52 ∷ [], fixed "SBC HL,DE" 2)
    ∷ (0x53 ∷ [], written (chars "LD ($" ∷ word (read16 mem (pc + 1)) ∷ chars "),DE" ∷ []) 4)
    ∷ (0x56 ∷ 0x76 ∷ [], fixed "IM 1" 2)
    ∷ (0x57 ∷ [], fixed "LD A,I" 2)
    ∷ (0x58 ∷ [], fixed "IN E,(C)" 2)
    ∷ (0x59 ∷ [], fixed "OUT (C),E" 2)
    ∷ (0x5a ∷ [], fixed "ADC HL,DE" 2)
    ∷ (0x5b ∷ [], written (chars "LD DE,($" ∷ word (read16 mem (pc + 1)) ∷ chars ")" ∷ []) 4)
    ∷ (0x5e ∷ 0x7e ∷ [], fixed "IM 2" 2)
    ∷ (0x5f ∷ [], fixed "LD A,R" 2)
    ∷ (0x60 ∷ [], fixed "IN H,(C)" 2)
    ∷ (0x61 ∷ [], fixed "OUT (C),H" 2)
    ∷ []

abbrev pub last_ed_texts : Bytes → ℕ → List (List ℕ × Entry)
last_ed_texts mem pc =
    (0x62 ∷ [], fixed "SBC HL,HL" 2)
    ∷ (0x63 ∷ [], written (chars "LD ($" ∷ word (read16 mem (pc + 1)) ∷ chars "),HL" ∷ []) 4)
    ∷ (0x67 ∷ [], fixed "RRD" 2)
    ∷ (0x68 ∷ [], fixed "IN L,(C)" 2)
    ∷ (0x69 ∷ [], fixed "OUT (C),L" 2)
    ∷ (0x6a ∷ [], fixed "ADC HL,HL" 2)
    ∷ (0x6b ∷ [], written (chars "LD HL,($" ∷ word (read16 mem (pc + 1)) ∷ chars ")" ∷ []) 4)
    ∷ (0x6f ∷ [], fixed "RLD" 2)
    ∷ (0x70 ∷ [], fixed "IN (C)" 2)
    ∷ (0x71 ∷ [], fixed "OUT (C),0" 2)
    ∷ (0x72 ∷ [], fixed "SBC HL,SP" 2)
    ∷ (0x73 ∷ [], written (chars "LD ($" ∷ word (read16 mem (pc + 1)) ∷ chars "),SP" ∷ []) 4)
    ∷ (0x78 ∷ [], fixed "IN A,(C)" 2)
    ∷ (0x79 ∷ [], fixed "OUT (C),A" 2)
    ∷ (0x7a ∷ [], fixed "ADC HL,SP" 2)
    ∷ (0x7b ∷ [], written (chars "LD SP,($" ∷ word (read16 mem (pc + 1)) ∷ chars ")" ∷ []) 4)
    ∷ (0xa0 ∷ [], fixed "LDI" 2)
    ∷ (0xa1 ∷ [], fixed "CPI" 2)
    ∷ (0xa2 ∷ [], fixed "INI" 2)
    ∷ (0xa3 ∷ [], fixed "OUTI" 2)
    ∷ (0xa8 ∷ [], fixed "LDD" 2)
    ∷ (0xa9 ∷ [], fixed "CPD" 2)
    ∷ (0xaa ∷ [], fixed "IND" 2)
    ∷ (0xab ∷ [], fixed "OUTD" 2)
    ∷ (0xb0 ∷ [], fixed "LDIR" 2)
    ∷ (0xb1 ∷ [], fixed "CPIR" 2)
    ∷ (0xb2 ∷ [], fixed "INIR" 2)
    ∷ (0xb3 ∷ [], fixed "OTIR" 2)
    ∷ (0xb8 ∷ [], fixed "LDDR" 2)
    ∷ (0xb9 ∷ [], fixed "CPDR" 2)
    ∷ (0xba ∷ [], fixed "INDR" 2)
    ∷ (0xbb ∷ [], fixed "OTDR" 2)
    ∷ []

unfoldable pub disassemble_ed : Bytes → ℕ → Entry
disassemble_ed mem pc =
    let op = byte_at mem (pc + 1) in
    switch_on op (first_ed_texts mem pc) (switch_on op (last_ed_texts mem pc) (fixed "NOP" 2))
