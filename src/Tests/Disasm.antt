-- ===== src/Tests/Disasm.antt =====
-- The theorems about the disassembler, each at a concrete input.
use z80_trace.Common.{ℕ, Option, List, [], ◌∷◌}
use z80_trace.Common.Text.{Text, hex4}
use z80_trace.Disasm.Cb.{disassemble_cb, cb_pieces}
use z80_trace.Disasm.Ed.{disassemble_ed}
use z80_trace.Disasm.Base.{alu_text, alu_mnemonic}
use z80_trace.Disasm.Text.{relative_target, index_reg_name, base_reg_name}
use z80_trace.Common.{◌≡◌, ◌≢◌, refl, none, some, arith}
use z80_trace.Common.Int.{pos}
use z80_trace.Common.Text.{codes, clip, hex_digit, hex2, decimal}
use z80_trace.Cpu.Switch.{one_of, switch_on}
use z80_trace.Cpu.Base.Decode.{is_alu_group, decode, decode_rest}
use z80_trace.Cpu.Step.{is_prefix, emulate_op}
use z80_trace.Cpu.Advance.Base.{goes_on}
use z80_trace.Disasm.{skip_prefix_bytes, disassemble_at, finish_disassembly}
use z80_trace.Disasm.{disassemble_z80_op}
use z80_trace.Disasm.Text.{spell, byte_at, index_pair_name, indexed_ref}
use z80_trace.Disasm.Base.{group_text, load_imm_text, disassemble_base}
use z80_trace.Disasm.Opcode.{continues}
use z80_trace.Disasm.Agree.{word_plus, continues_at, emulate_op-disassemble_z80_op}
use z80_trace.Disasm.Prefixes.{disassemble_z80_op-returns}
use z80_trace.Tests.Run.{program}
use z80_trace.Tests.Examples.{code, sample, sample-IsState}

emulate_op-disassemble_z80_op_example :
    ((emulate_op 8 sample).0 ≢ none)
    × ((emulate_op 8 sample).1.state.pc ≡ word_plus sample.state.pc (pos 5))
unfolding skip_prefix_bytes disassemble_at finish_disassembly disassemble_z80_op is_prefix
    disassemble_base switch_on one_of group_text load_imm_text is_alu_group goes_on decode
    decode_rest continues spell byte_at index_pair_name indexed_ref clip hex_digit hex2 decimal
    continues_at
emulate_op-disassemble_z80_op_example =
    emulate_op-disassemble_z80_op 8 128 sample
      (record { out = some (codes "LD (IY-1),$2A"); result = pos 5 }) sample-IsState refl refl refl
      (omega arith) refl refl

disassemble_z80_op-returns_example : disassemble_z80_op 65537 (program code) 0 128 ≢ none
unfolding is_prefix
disassemble_z80_op-returns_example =
    disassemble_z80_op-returns 2 65537 (program code) 0 128 (omega arith) refl (omega arith)

-- The text of the instruction that a program begins with.
text_of : List ℕ → Option Text
text_of bytes = elim (disassemble_z80_op 8 (program bytes) 0 128) [ none ↦ none | some d ↦ d.out ]

bit_text : text_of (0xdd ∷ 0xcb ∷ 0x05 ∷ 0x7e ∷ []) ≡ some (codes "BIT 7,(IX+5)")
unfolding text_of skip_prefix_bytes disassemble_at finish_disassembly disassemble_z80_op is_prefix
    disassemble_cb cb_pieces spell byte_at index_pair_name indexed_ref clip decimal
bit_text = refl

ldir_text : text_of (0xed ∷ 0xb0 ∷ []) ≡ some (codes "LDIR")
unfolding text_of skip_prefix_bytes disassemble_at finish_disassembly disassemble_z80_op is_prefix
    disassemble_ed switch_on one_of byte_at clip
ldir_text = refl

jump_text : text_of (0x18 ∷ 0x0e ∷ []) ≡ some (codes "JR $0010")
unfolding text_of skip_prefix_bytes disassemble_at finish_disassembly disassemble_z80_op is_prefix
    disassemble_base switch_on one_of spell byte_at relative_target clip hex_digit hex2 hex4
jump_text = refl

sub_text : text_of (0x90 ∷ []) ≡ some (codes "SUB,B")
unfolding text_of skip_prefix_bytes disassemble_at finish_disassembly disassemble_z80_op is_prefix
    disassemble_base switch_on one_of group_text is_alu_group alu_text alu_mnemonic index_reg_name
    base_reg_name spell byte_at clip
sub_text = refl
