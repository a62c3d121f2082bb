-- ===== src/Disasm.antt =====
-- src/z80_disasm.c, lines 682-705: `DisassembleZ80Op`. The loop over DD and FD takes fuel, one for
-- each byte it looks at; `none` is a loop that has not ended.
pub mod Text
pub mod Cb
pub mod Ed
pub mod Base
pub mod Length
pub mod Opcode
pub mod Agree
pub mod Prefixes
use z80_trace.Common.{ℕ, zero, suc, ◌+◌, Bool, true, false, Option, none, some, u16, ◌==◌}
use z80_trace.Common.{if◌then◌else◌}
use z80_trace.Common.Int.{ℤ, pos, sub_ℕ}
use z80_trace.Common.Text as CharText
use z80_trace.Cpu.State.{Bytes}
use z80_trace.Cpu.Registers.{IndexMode, index_none, is_indexed}
use z80_trace.Cpu.Step.{is_prefix, prefix_index}
use Text.{Entry}
use Cb.{disassemble_cb}
use Ed.{disassemble_ed}
use Base.{disassemble_base}

-- The text in the buffer, if it is written, and the result.
pub record Disassembly : Type 0 where
  pub out : Option CharText.Text
  pub result : ℤ

unfoldable pub skip_prefix_bytes : ℕ → Bytes → IndexMode → ℕ → Option (IndexMode × ℕ)
skip_prefix_bytes zero mem index cursor = none
skip_prefix_bytes (suc fuel) mem index cursor = elim (is_prefix (mem cursor)) [
  | true ↦ skip_prefix_bytes fuel mem (prefix_index (mem cursor)) (u16 (cursor + 1))
  | false ↦ some (index, cursor)
]

-- The instruction at the cursor, once its prefixes are read.
unfoldable pub disassemble_at : Bytes → IndexMode → ℕ → Entry
disassemble_at mem index cursor =
    if mem cursor == 0xcb
    then disassemble_cb mem cursor index (is_indexed index)
    else (if mem cursor == 0xed
        then disassemble_ed mem cursor
        else disassemble_base mem cursor index)

-- `DisassembleCB(…) + (cursor - pc)` and its like.
unfoldable pub finish_disassembly : Bytes → ℕ → ℕ → Option (IndexMode × ℕ) → Option Disassembly
finish_disassembly mem pc out_len none = none
finish_disassembly mem pc out_len (some (index, cursor)) =
    let entry = disassemble_at mem index cursor in
    some (record {
      out = some (CharText.clip out_len entry.text);
      result = sub_ℕ (entry.length + cursor) pc;
    })

-- The buffer is not null; a length of 0 leaves it as it is, as a null buffer does.
unfoldable pub disassemble_z80_op : ℕ → Bytes → ℕ → ℕ → Option Disassembly
disassemble_z80_op fuel mem pc out_len =
    if out_len == 0
    then some (record { out = none; result = pos 1 })
    else finish_disassembly mem pc out_len (skip_prefix_bytes fuel mem index_none (u16 pc))
