-- ===== src/Disasm/Prefixes.antt =====
-- src/z80_disasm.c, lines 687-697: the fuel that the loop over the bytes DD and FD needs.
use z80_trace.Common.{ℕ, zero, suc, ◌+◌, ◌-◌, ◌≤◌, ◌%◌, true, false, Option, none, some, u16}
use z80_trace.Common.{◌≡◌, ◌≢◌, refl, ◌∙◌, ap, inl, inr, Bool-cases, arith, ◌==◌}
use z80_trace.Cpu.State.{Bytes}
use z80_trace.Cpu.Registers.{IndexMode, index_none}
use z80_trace.Cpu.Step.{is_prefix, prefix_index}
use z80_trace.Cpu.Valid.Defs.{IsWord}
use z80_trace.Disasm.{skip_prefix_bytes, finish_disassembly, disassemble_z80_op}

-- A byte that is no prefix, `n` bytes ahead, ends the loop.
finds :
    (n fuel : ℕ) (mem : Bytes) (index : IndexMode) (cursor : ℕ)
    → n ≤ fuel
    → is_prefix (mem (u16 (cursor + n))) ≡ false
    → IsWord cursor
    → skip_prefix_bytes (suc fuel) mem index cursor ≢ none
unfolding skip_prefix_bytes
finds zero fuel mem index cursor le h word =
    let here : u16 (cursor + 0) ≡ cursor = omega arith in
    let ends = rw (here) at h in rw (skip_prefix_bytes, ends) (λ e. ground arith)
finds (suc n) zero mem index cursor le h word = absurd (omega arith)
finds (suc n) (suc fuel) mem index cursor le h word =
    let next : u16 (u16 (cursor + 1) + n) ≡ u16 (cursor + suc n) = omega arith in
    elim (Bool-cases (is_prefix (mem cursor))) [
      | inl goes_on ↦
          rw (skip_prefix_bytes, goes_on)
            (finds n fuel mem (prefix_index (mem cursor)) (u16 (cursor + 1)) (omega arith)
              (ap (λ x. is_prefix (mem x)) next ∙ h) (omega arith))
      | inr ends ↦ rw (skip_prefix_bytes, ends) (λ e. ground arith)
    ]

-- Where every byte is a prefix, no fuel is enough.
skip_prefix_bytes-loops :
    (fuel : ℕ) (mem : Bytes) (index : IndexMode) (cursor : ℕ)
    → ((x : ℕ) → is_prefix (mem x) ≡ true)
    → skip_prefix_bytes fuel mem index cursor ≡ none
unfolding skip_prefix_bytes
skip_prefix_bytes-loops zero mem index cursor all = refl
skip_prefix_bytes-loops (suc fuel) mem index cursor all =
    rw (skip_prefix_bytes, all cursor)
      (skip_prefix_bytes-loops fuel mem (prefix_index (mem cursor)) (u16 (cursor + 1)) all)

finish_disassembly-returns :
    (mem : Bytes) (pc out_len : ℕ) (found : Option (IndexMode × ℕ))
    → found ≢ none
    → finish_disassembly mem pc out_len found ≢ none
unfolding finish_disassembly
finish_disassembly-returns mem pc out_len none h e = h refl
finish_disassembly-returns mem pc out_len (some (index, cursor)) h e = ground arith

-- The disassembler returns: with a byte of memory, at an address below 65536, that is neither DD nor
-- FD, every fuel from 65537 on gives a result.
pub disassemble_z80_op-returns :
    (x fuel : ℕ) (mem : Bytes) (pc out_len : ℕ)
    → IsWord x
    → is_prefix (mem x) ≡ false
    → 65537 ≤ fuel
    → disassemble_z80_op fuel mem pc out_len ≢ none
unfolding disassemble_z80_op
disassemble_z80_op-returns x zero mem pc out_len hx h le = absurd (omega arith)
disassemble_z80_op-returns x (suc fuel) mem pc out_len hx h le =
    let n : ℕ = (x + 65536 - u16 pc) % 65536 in
    let there : u16 (u16 pc + n) ≡ x = omega arith in
    elim (Bool-cases (out_len == 0)) [
      | inl empty ↦ rw (empty) (λ e. ground arith)
      | inr room ↦ rw (room) (
          finish_disassembly-returns mem pc out_len _ (
            finds n fuel mem index_none (u16 pc) (omega arith)
              (ap (λ y. is_prefix (mem y)) there ∙ h) (omega arith)))
    ]

-- Where every byte of memory is DD or FD the disassembler does not return, if its buffer is not
-- empty: whatever the fuel, it does not suffice.
pub disassemble_z80_op-loops :
    (fuel : ℕ) (mem : Bytes) (pc out_len : ℕ)
    → 1 ≤ out_len
    → ((x : ℕ) → is_prefix (mem x) ≡ true)
    → disassemble_z80_op fuel mem pc out_len ≡ none
unfolding disassemble_z80_op finish_disassembly
disassemble_z80_op-loops fuel mem pc out_len room all =
    let written : (out_len == 0) ≡ false = ground arith in
    rw (written, skip_prefix_bytes-loops fuel mem index_none (u16 pc) all) refl
