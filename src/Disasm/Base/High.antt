-- ===== src/Disasm/Base/High.antt =====
-- src/z80_disasm.c, lines 437-605: the switch of `DisassembleBase` from 0xc0 on.
use z80_trace.Common.{ℕ, ◌+◌, List, [], ◌∷◌, bit_and}
use z80_trace.Cpu.State.{Bytes}
use z80_trace.Cpu.Registers.{IndexMode}
use z80_trace.Disasm.Text.{Entry, chars, word, byte, name, fixed, written, byte_at, read16}
use z80_trace.Disasm.Text.{pair_text}

-- The cases from 0xc0 to 0xde, with all of `RST`.
abbrev pub middle_texts : Bytes → ℕ → IndexMode → ℕ → List (List ℕ × Entry)
middle_texts mem pc index op =
    (0xc0 ∷ [], fixed "RET NZ" 1)
    ∷ (0xc1 ∷ [], fixed "POP BC" 1)
    ∷ (0xc2 ∷ [], written (chars "JP NZ,$" ∷ word (read16 mem pc) ∷ []) 3)
    ∷ (0xc3 ∷ [], written (chars "JP $" ∷ word (read16 mem pc) ∷ []) 3)
    ∷ (0xc4 ∷ [], written (chars "CALL NZ,$" ∷ word (read16 mem pc) ∷ []) 3)
    ∷ (0xc5 ∷ [], fixed "PUSH BC" 1)
    ∷ (0xc6 ∷ [], written (chars "ADD A,$" ∷ byte (byte_at mem (pc + 1)) ∷ []) 2)
    ∷ (
      0xc7 ∷ 0xcf ∷ 0xd7 ∷ 0xdf ∷ 0xe7 ∷ 0xef ∷ 0xf7 ∷ 0xff ∷ [],
      written (chars "RST $" ∷ byte (bit_and op 0x38) ∷ []) 1,
    )
    ∷ (0xc8 ∷ [], fixed "RET Z" 1)
    ∷ (0xc9 ∷ [], fixed "RET" 1)
    ∷ (0xca ∷ [], written (chars "JP Z,$" ∷ word (read16 mem pc) ∷ []) 3)
    ∷ (0xcc ∷ [], written (chars "CALL Z,$" ∷ word (read16 mem pc) ∷ []) 3)
    ∷ (0xcd ∷ [], written (chars "CALL $" ∷ word (read16 mem pc) ∷ []) 3)
    ∷ (0xce ∷ [], written (chars "ADC A,$" ∷ byte (byte_at mem (pc + 1)) ∷ []) 2)
    ∷ (0xd0 ∷ [], fixed "RET NC" 1)
    ∷ (0xd1 ∷ [], fixed "POP DE" 1)
    ∷ (0xd2 ∷ [], written (chars "JP NC,$" ∷ word (read16 mem pc) ∷ []) 3)
    ∷ (0xd3 ∷ [], written (chars "OUT ($" ∷ byte (byte_at mem (pc + 1)) ∷ chars "),A" ∷ []) 2)
    ∷ (0xd4 ∷ [], written (chars "CALL NC,$" ∷ word (read16 mem pc) ∷ []) 3)
    ∷ (0xd5 ∷ [], fixed "PUSH DE" 1)
    ∷ (0xd6 ∷ [], written (chars "SUB $" ∷ byte (byte_at mem (pc + 1)) ∷ []) 2)
    ∷ (0xd8 ∷ [], fixed "RET C" 1)
    ∷ (0xd9 ∷ [], fixed "EXX" 1)
    ∷ (0xda ∷ [], written (chars "JP C,$" ∷ word (read16 mem pc) ∷ []) 3)
    ∷ (0xdb ∷ [], written (chars "IN A,($" ∷ byte (byte_at mem (pc + 1)) ∷ chars ")" ∷ []) 2)
    ∷ (0xdc ∷ [], written (chars "CALL C,$" ∷ word (read16 mem pc) ∷ []) 3)
    ∷ (0xde ∷ [], written (chars "SBC A,$" ∷ byte (byte_at mem (pc + 1)) ∷ []) 2)
    ∷ []

abbrev pub high_texts : Bytes → ℕ → IndexMode → ℕ → List (List ℕ × Entry)
high_texts mem pc index op =
    (0xe0 ∷ [], fixed "RET PO" 1)
    ∷ (0xe1 ∷ [], written (chars "POP " ∷ name (pair_text index) ∷ []) 1)
    ∷ (0xe2 ∷ [], written (chars "JP PO,$" ∷ word (read16 mem pc) ∷ []) 3)
    ∷ (0xe3 ∷ [], written (chars "EX (SP)," ∷ name (pair_text index) ∷ []) 1)
    ∷ (0xe4 ∷ [], written (chars "CALL PO,$" ∷ word (read16 mem pc) ∷ []) 3)
    ∷ (0xe5 ∷ [], written (chars "PUSH " ∷ name (pair_text index) ∷ []) 1)
    ∷ (0xe6 ∷ [], written (chars "AND $" ∷ byte (byte_at mem (pc + 1)) ∷ []) 2)
    ∷ (0xe8 ∷ [], fixed "RET PE" 1)
    ∷ (0xe9 ∷ [], written (chars "JP (" ∷ name (pair_text index) ∷ chars ")" ∷ []) 1)
    ∷ (0xea ∷ [], written (chars "JP PE,$" ∷ word (read16 mem pc) ∷ []) 3)
    ∷ (0xeb ∷ [], fixed "EX DE,HL" 1)
    ∷ (0xec ∷ [], written (chars "CALL PE,$" ∷ word (read16 mem pc) ∷ []) 3)
    ∷ (0xee ∷ [], written (chars "XOR $" ∷ byte (byte_at mem (pc + 1)) ∷ []) 2)
    ∷ (0xf0 ∷ [], fixed "RET P" 1)
    ∷ (0xf1 ∷ [], fixed "POP AF" 1)
    ∷ (0xf2 ∷ [], written (chars "JP P,$" ∷ word (read16 mem pc) ∷ []) 3)
    ∷ (0xf3 ∷ [], fixed "DI" 1)
    ∷ (0xf4 ∷ [], written (chars "CALL P,$" ∷ word (read16 mem pc) ∷ []) 3)
    ∷ (0xf5 ∷ [], fixed "PUSH AF" 1)
    ∷ (0xf6 ∷ [], written (chars "OR $" ∷ byte (byte_at mem (pc + 1)) ∷ []) 2)
    ∷ (0xf8 ∷ [], fixed "RET M" 1)
    ∷ (0xf9 ∷ [], written (chars "LD SP," ∷ name (pair_text index) ∷ []) 1)
    ∷ (0xfa ∷ [], written (chars "JP M,$" ∷ word (read16 mem pc) ∷ []) 3)
    ∷ (0xfb ∷ [], fixed "EI" 1)
    ∷ (0xfc ∷ [], written (chars "CALL M,$" ∷ word (read16 mem pc) ∷ []) 3)
    ∷ (0xfe ∷ [], written (chars "CP $" ∷ byte (byte_at mem (pc + 1)) ∷ []) 2)
    ∷ []
