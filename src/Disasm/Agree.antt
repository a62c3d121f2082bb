-- ===== src/Disasm/Agree.antt =====
-- src/z80_disasm.c and src/z80_exec.c: the disassembler and the step read the same bytes. After an
-- instruction that does not jump, the program counter is where the disassembler says that the next
-- instruction begins.
use z80_trace.Common.{ℕ, zero, suc, ◌+◌, ◌-◌, ◌≤◌, Bool, true, false, Option, none, some, u16, ◌==◌}
use z80_trace.Common.{◌≡◌, ◌≢◌, refl, sym, ap, ◌∙◌, inl, inr, Bool-cases, arith}
use z80_trace.Common.Int.{ℤ, pos, negsuc, sub_ℕ}
use z80_trace.Cpu.State.{Bytes, Machine}
use z80_trace.Cpu.Monad.{run_cpu, ◌>>=◌, pure}
use z80_trace.Cpu.Registers.{IndexMode, index_none}
use z80_trace.Cpu.Step.{is_prefix, prefix_index, begin_step, skip_prefixes}
use z80_trace.Cpu.Step.{run_opcode, execute_instruction}
use z80_trace.Cpu.Step.{irq_accepted, emulate_op}
use z80_trace.Cpu.Laws.Prefix.{fetched, fetched-memory, fetched-pc, fetched-byte, step_again, stop}
use z80_trace.Cpu.Laws.Prefix.{run_opcode-returns, some-none}
use z80_trace.Cpu.Valid.Defs.{IsWord, AreBytes, IsState}
use z80_trace.Disasm.{Disassembly, skip_prefix_bytes, disassemble_at, finish_disassembly}
use z80_trace.Disasm.{disassemble_z80_op}
use z80_trace.Disasm.Opcode.{continues, here, execute_opcode-pc}

-- The same of the instruction whose prefixes are read.
unfoldable pub continues_at : Bytes → Option (IndexMode × ℕ) → Bool
continues_at mem none = false
continues_at mem (some (index, cursor)) = continues mem cursor

-- `pc + n`, as a `UINT16`.
unfoldable pub word_plus : ℕ → ℤ → ℕ
word_plus pc (pos n) = u16 (pc + n)
word_plus pc (negsuc n) = u16 (pc + 65536 - suc n)

-- The prefixes are skipped, and the opcode at the cursor was read last.
record Found {U : Type 0} (mem : Bytes) (index : IndexMode) (cursor : ℕ)
    (r : Option (IndexMode × ℕ) × Machine U) : Type 0 where
  value : r.0 ≡ some (index, mem cursor)
  memory_same : r.1.state.memory ≡ mem
  counter : r.1.state.pc ≡ u16 (cursor + 1)
  cursor_word : IsWord cursor

word_plus-sub : (pc a : ℕ) → IsWord pc → word_plus pc (sub_ℕ a pc) ≡ u16 a
unfolding word_plus
word_plus-sub pc a word = ground arith

disassemble_z80_op-finish :
    (fuel : ℕ) (mem : Bytes) (pc out_len : ℕ) (d : Disassembly)
    → IsWord pc
    → 1 ≤ out_len
    → disassemble_z80_op fuel mem pc out_len ≡ some d
    → finish_disassembly mem pc out_len (skip_prefix_bytes fuel mem index_none pc) ≡ some d
unfolding disassemble_z80_op
disassemble_z80_op-finish fuel mem pc out_len d word room h =
    let written : (out_len == 0) ≡ false = ground arith in
    rw (disassemble_z80_op, written, here pc word) at h

some_inj : {A : Type 0} {x y : A} → some x ≡ some y → x ≡ y
some_inj h = ground arith

module _ {U : Type 0} where
  Found-at :
      {mem : Bytes} {r : Option (IndexMode × ℕ) × Machine U} {x y : IndexMode × ℕ}
      → x ≡ y
      → Found mem x.0 x.1 r
      → Found mem y.0 y.1 r
  Found-at same found = rw (sym same) found

  -- The two loops over DD and FD take the same rounds.
  skip_prefixes-Found :
      (mem : Bytes) (fuel : ℕ) (index : IndexMode) (cursor : ℕ) (m : Machine U) (index' : IndexMode)
      (cursor' : ℕ)
      → IsWord cursor
      → m.state.memory ≡ mem
      → m.state.pc ≡ u16 (cursor + 1)
      → skip_prefix_bytes fuel mem index cursor ≡ some (index', cursor')
      → Found mem index' cursor' (skip_prefixes fuel index (mem cursor) m)
  unfolding skip_prefix_bytes pure
  skip_prefixes-Found mem zero index cursor m index' cursor' word same counter h =
      absurd (ground arith)
  skip_prefixes-Found mem (suc fuel) index cursor m index' cursor' word same counter h =
      let byte : m.state.memory m.state.pc ≡ mem (u16 (cursor + 1)) =
        ap (λ g. g m.state.pc) same ∙ ap mem counter in
      elim (Bool-cases (is_prefix (mem cursor))) [
        | inl prefix ↦
            rw (step_again fuel index (mem cursor) m prefix, byte)
              (skip_prefixes-Found mem fuel (prefix_index (mem cursor)) (u16 (cursor + 1))
                (fetched m) index' cursor' (omega arith) (fetched-memory m ∙ same)
                (fetched-pc m ∙ rw counter (omega arith)) (rw (skip_prefix_bytes, prefix) at h))
        | inr ends ↦ rw (stop {U = U} fuel index (mem cursor) ends) (
            Found-at (some_inj (rw (skip_prefix_bytes, ends) at h))
              (record { value = refl; memory_same = same; counter = counter; cursor_word = word }))
      ]

  -- The instruction that is found goes as far as it is long.
  run_opcode-pc :
      (mem : Bytes) (index : IndexMode) (cursor : ℕ) (found : Option (IndexMode × ℕ) × Machine U)
      → Found mem index cursor found
      → AreBytes mem
      → continues mem cursor ≡ true
      → ((run_opcode found.0 found.1).0 ≢ none)
        × ((run_opcode found.0 found.1).1.state.pc
            ≡ u16 (cursor + (disassemble_at mem index cursor).length))
  unfolding run_opcode run_cpu
  run_opcode-pc mem index cursor found f bytes follows = (
    run_opcode-returns found.0 found.1 (rw (f.value) some-none),
    rw (f.value, sym f.memory_same)
        (execute_opcode-pc found.1 cursor f.cursor_word f.counter (rw f.memory_same bytes) index
          (rw f.memory_same follows)),
  )

  execute_instruction-pc :
      (fuel : ℕ) (m : Machine U) (index : IndexMode) (cursor : ℕ)
      → IsWord m.state.pc
      → AreBytes m.state.memory
      → skip_prefix_bytes fuel m.state.memory index_none m.state.pc ≡ some (index, cursor)
      → continues m.state.memory cursor ≡ true
      → ((execute_instruction fuel m).0 ≢ none)
        × ((execute_instruction fuel m).1.state.pc
            ≡ u16 (cursor + (disassemble_at m.state.memory index cursor).length))
  unfolding execute_instruction ◌>>=◌ fetched
  execute_instruction-pc fuel m index cursor word bytes h follows =
      let found =
        skip_prefixes-Found m.state.memory fuel index_none m.state.pc (fetched m) index cursor word
          (fetched-memory m) (fetched-pc m) h in
      rw (fetched-byte m) (
        run_opcode-pc m.state.memory index cursor
          (skip_prefixes fuel index_none (m.state.memory m.state.pc) (fetched m)) found bytes
          follows)

  execute_instruction-result :
      (fuel out_len : ℕ) (m : Machine U) (d : Disassembly) (found : Option (IndexMode × ℕ))
      → IsWord m.state.pc
      → AreBytes m.state.memory
      → skip_prefix_bytes fuel m.state.memory index_none m.state.pc ≡ found
      → finish_disassembly m.state.memory m.state.pc out_len found ≡ some d
      → continues_at m.state.memory found ≡ true
      → ((execute_instruction fuel m).0 ≢ none)
        × ((execute_instruction fuel m).1.state.pc ≡ word_plus m.state.pc d.result)
  unfolding finish_disassembly continues_at
  execute_instruction-result fuel out_len m d none word bytes skips h follows =
      absurd (ground arith)
  execute_instruction-result fuel out_len m d (some (index, cursor)) word bytes skips h follows =
      let result = ap (λ r. r.result) (some_inj h) in
      let long : ℕ = (disassemble_at m.state.memory index cursor).length in
      let order : u16 (cursor + long) ≡ u16 (long + cursor) = omega arith in
      let (returns, next) = execute_instruction-pc fuel m index cursor word bytes skips follows in
      (
        returns,
        next
            ∙ order
            ∙ (sym (word_plus-sub m.state.pc _ word)
                ∙ sym (ap (word_plus m.state.pc) (sym result))),
      )

  -- A step follows the disassembler. The processor's registers and memory hold words and bytes, no
  -- interrupt is pending, it is not halted, and the fuel is enough for the disassembler to give a
  -- result into a buffer that is not empty. If the instruction is no jump, call or return, and no
  -- block instruction that may repeat, the step returns, and the program counter after it is the one
  -- before it plus the result of the disassembler, as a word: the length of the instruction.
  pub emulate_op-disassemble_z80_op :
      (fuel out_len : ℕ) (m : Machine U) (d : Disassembly)
      → IsState m.state
      → m.state.nmi_pending ≡ 0
      → m.state.irq_pending ≡ 0
      → m.state.halted ≡ 0
      → 1 ≤ out_len
      → disassemble_z80_op fuel m.state.memory m.state.pc out_len ≡ some d
      → continues_at m.state.memory (skip_prefix_bytes fuel m.state.memory index_none m.state.pc)
        ≡ true
      → ((emulate_op fuel m).0 ≢ none)
        × ((emulate_op fuel m).1.state.pc ≡ word_plus m.state.pc d.result)
  unfolding emulate_op begin_step run_cpu irq_accepted
  emulate_op-disassemble_z80_op fuel out_len m d v no_nmi no_irq running room h follows =
      rw (no_nmi, no_irq, running)
        (execute_instruction-result fuel out_len _ d
          (skip_prefix_bytes fuel m.state.memory index_none m.state.pc) v.pc_word v.memory_bytes
          refl (disassemble_z80_op-finish fuel m.state.memory m.state.pc out_len d v.pc_word room h)
          follows)
