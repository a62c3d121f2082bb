-- ===== src/Disasm/Opcode.antt =====
-- src/z80_disasm.c and src/z80_exec.c: the disassembler and the step read the same bytes of an
-- instruction whose prefixes are read.
use z80_trace.Common.{ℕ, suc, ◌+◌, ◌-◌, ◌≤◌, Bool, true, false, u16, ◌==◌}
use z80_trace.Common.{◌≡◌, sym, ap, ◌∙◌, inl, inr, Bool-cases, arith, if◌then◌else◌}
use z80_trace.Cpu.State.{Bytes, Machine}
use z80_trace.Cpu.Monad.{◌>>=◌}
use z80_trace.Cpu.Registers.{IndexMode, index_none, index_ix, index_iy, is_indexed}
use z80_trace.Cpu.Ed.{decode_ed, execute_ed}
use z80_trace.Cpu.Base.{execute_base}
use z80_trace.Cpu.Base.Decode.{decode}
use z80_trace.Cpu.Step.{execute_cb_prefix}
use z80_trace.Cpu.Step.{execute_ed_prefix, execute_opcode}
use z80_trace.Cpu.Laws.Prefix.{fetched, fetched-pc, fetched-byte}
use z80_trace.Cpu.Valid.Defs.{IsByte, IsWord, AreBytes}
use z80_trace.Cpu.Advance.Rules.{Advances, ◌⊳◌}
use z80_trace.Cpu.Advance.Bus.{fetch_opcode_byte-Advances, read_immediate8-Advances}
use z80_trace.Cpu.Advance.Cb.{execute_cb-Advances}
use z80_trace.Cpu.Advance.Ed.{ed_goes_on, ed_operands, execute_ed-Advances}
use z80_trace.Cpu.Advance.Base.{goes_on, execute_base-Advances}
use z80_trace.Disasm.{disassemble_at}
use z80_trace.Disasm.Cb.{disassemble_cb}
use z80_trace.Disasm.Ed.{disassemble_ed}
use z80_trace.Disasm.Base.{disassemble_base}
use z80_trace.Disasm.Text.{byte_at}
use z80_trace.Disasm.Length.{disassemble_base-operands, disassemble_ed-operands}

-- Whether the instruction at the cursor is followed by the next one: it is no jump, call or return,
-- and no block instruction that may repeat.
unfoldable pub continues : Bytes → ℕ → Bool
continues mem cursor =
    if mem cursor == 0xcb
    then true
    else (if mem cursor == 0xed
        then ed_goes_on (decode_ed (byte_at mem (cursor + 1))) (byte_at mem (cursor + 1))
        else goes_on (decode (mem cursor)))

pub here : (cursor : ℕ) → IsWord cursor → u16 cursor ≡ cursor
here cursor h = omega arith

cb_length :
    (mem : Bytes) (cursor : ℕ) (index : IndexMode)
    → 1 ≤ (disassemble_cb mem cursor index (is_indexed index)).length
unfolding disassemble_cb is_indexed
cb_length mem cursor index_none = omega arith
cb_length mem cursor index_ix = omega arith
cb_length mem cursor index_iy = omega arith

byte_here : (mem : Bytes) (cursor : ℕ) → IsWord cursor → byte_at mem cursor ≡ mem cursor
unfolding byte_at
byte_here mem cursor h = ap mem (here cursor h)

module _ {U : Type 0} where
  execute_cb_prefix-Advances :
      (mem : Bytes) (cursor : ℕ) (index : IndexMode)
      → Advances {U = U}
          ((disassemble_cb mem cursor index (is_indexed index)).length - 1)
          (execute_cb_prefix index)
  unfolding execute_cb_prefix disassemble_cb is_indexed
  execute_cb_prefix-Advances mem cursor index_none =
      fetch_opcode_byte-Advances ⊳ λ cbop. execute_cb-Advances cbop index_none false 0
  execute_cb_prefix-Advances mem cursor index_ix = read_immediate8-Advances ⊳ λ disp.
      read_immediate8-Advances ⊳ λ cbop. execute_cb-Advances cbop index_ix true disp
  execute_cb_prefix-Advances mem cursor index_iy = read_immediate8-Advances ⊳ λ disp.
      read_immediate8-Advances ⊳ λ cbop. execute_cb-Advances cbop index_iy true disp

  execute_ed_prefix-pc :
      (m : Machine U)
      → IsWord m.state.pc
      → ed_goes_on (decode_ed (m.state.memory m.state.pc)) (m.state.memory m.state.pc) ≡ true
      → (execute_ed_prefix m).1.state.pc
        ≡ u16 (m.state.pc + suc (ed_operands (decode_ed (m.state.memory m.state.pc))))
  unfolding execute_ed_prefix ◌>>=◌ fetched
  execute_ed_prefix-pc m h continues =
      let op : ℕ = m.state.memory m.state.pc in
      let moved : (execute_ed op (fetched m)).1.state.pc
          ≡ u16 ((fetched m).state.pc + ed_operands (decode_ed op)) =
        (execute_ed-Advances op continues).run (fetched m) (rw (fetched-pc m) (omega arith)) in
      let first : (fetched m).state.pc ≡ u16 (m.state.pc + 1) = fetched-pc m in
      ap (λ b. (execute_ed b (fetched m)).1.state.pc) (fetched-byte m)
      ∙ (moved ∙ rw first (omega arith))

  -- The opcode at the cursor was read last.
  module _ (m : Machine U) (cursor : ℕ) (word : IsWord cursor)
      (counter : m.state.pc ≡ u16 (cursor + 1)) (bytes : AreBytes m.state.memory) where
    counter-IsWord : IsWord m.state.pc
    counter-IsWord = rw counter (omega arith)

    opcode-IsByte : IsByte (byte_at m.state.memory cursor)
    opcode-IsByte = rw (byte_here m.state.memory cursor word) (bytes cursor)

    -- The byte behind it is the next that is read.
    next_byte : byte_at m.state.memory (cursor + 1) ≡ m.state.memory m.state.pc
    unfolding byte_at
    next_byte = ap m.state.memory (sym counter)

    execute_cb_prefix-pc :
        (index : IndexMode)
        → (execute_cb_prefix index m).1.state.pc
          ≡ u16 (cursor + (disassemble_cb m.state.memory cursor index (is_indexed index)).length)
    execute_cb_prefix-pc index =
        let moved = (execute_cb_prefix-Advances m.state.memory cursor index).run m counter-IsWord in
        let long = cb_length m.state.memory cursor index in omega (arith, moved, long, counter)

    execute_ed_prefix-ends :
        ed_goes_on
            (decode_ed (byte_at m.state.memory (cursor + 1)))
            (byte_at m.state.memory (cursor + 1))
          ≡ true
        → (execute_ed_prefix m).1.state.pc
          ≡ u16 (cursor + (disassemble_ed m.state.memory cursor).length)
    execute_ed_prefix-ends continues =
        let moved = execute_ed_prefix-pc m counter-IsWord (rw (sym next_byte) continues) in
        let long =
          disassemble_ed-operands m.state.memory cursor (rw next_byte (bytes m.state.pc)) in
        moved ∙ rw (long, next_byte, counter) (omega arith)

    execute_base-ends :
        (index : IndexMode)
        → goes_on (decode (m.state.memory cursor)) ≡ true
        → (execute_base (m.state.memory cursor) index m).1.state.pc
          ≡ u16 (cursor + (disassemble_base m.state.memory cursor index).length)
    execute_base-ends index continues =
        let moved =
          (execute_base-Advances (m.state.memory cursor) index continues).run m counter-IsWord in
        let same = byte_here m.state.memory cursor word in
        let long =
          disassemble_base-operands m.state.memory cursor index opcode-IsByte (rw same continues) in
        moved ∙ rw (long, same, counter) (omega arith)

    pub execute_opcode-pc :
        (index : IndexMode)
        → continues m.state.memory cursor ≡ true
        → (execute_opcode index (m.state.memory cursor) m).1.state.pc
          ≡ u16 (cursor + (disassemble_at m.state.memory index cursor).length)
    unfolding execute_opcode disassemble_at continues
    execute_opcode-pc index h = elim (Bool-cases (m.state.memory cursor == 0xcb)) [
      | inl is_cb ↦ rw is_cb (execute_cb_prefix-pc index)
      | inr not_cb ↦ elim (Bool-cases (m.state.memory cursor == 0xed)) [
        | inl is_ed ↦ rw (not_cb, is_ed) (execute_ed_prefix-ends (rw (not_cb, is_ed) at h))
        | inr not_ed ↦ rw (not_cb, not_ed) (execute_base-ends index (rw (not_cb, not_ed) at h))
      ]
    ]
