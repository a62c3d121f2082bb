-- ===== src/Cpu/Laws/Stack.antt =====
-- src/z80_exec.c, `Push16` and `Pop16`.
use z80_trace.Common.{ℕ, ◌+◌, ◌-◌, u16, ◌==◌, if◌then◌else◌, ◌≡◌, ap₂, ◌∙◌, arith}
use z80_trace.Cpu.State.{Machine}
use z80_trace.Cpu.Monad.{run_cpu, ◌>>◌}
use z80_trace.Cpu.Registers.{high_byte, low_byte, compose16}
use z80_trace.Cpu.Bus.{push16, pop16, decrement_sp, write_memory, read_memory16, read_memory}
use z80_trace.Cpu.Bus.{update_min_sp, trace_event}
use z80_trace.Cpu.Valid.Defs.{IsWord}
use z80_trace.Cpu.Laws.Pairs.{compose16-halves}

-- The word that stands at the top of the stack after two bytes are stored below `sp`.
pub stored :
    (bytes : ℕ → ℕ) (sp lo hi : ℕ)
    → IsWord sp
    → let upper = u16 (sp + 65536 - 1) in
      let lower = u16 (upper + 65536 - 1) in
      ((if lower == lower then lo else (if lower == upper then hi else bytes lower)) ≡ lo)
      × ((if u16 (lower + 1) == lower
            then lo
            else (if u16 (lower + 1) == upper then hi else bytes (u16 (lower + 1))))
          ≡ hi)
stored bytes sp lo hi h = (ground arith, ground arith)

-- A word stored there is read back, and the stack pointer returns.
pub stored_word :
    (bytes : ℕ → ℕ) (sp value : ℕ)
    → IsWord sp
    → IsWord value
    → let upper = u16 (sp + 65536 - 1) in
      let lower = u16 (upper + 65536 - 1) in
      let lo = low_byte value in
      let hi = high_byte value in
      compose16
        (if u16 (lower + 1) == lower
          then lo
          else (if u16 (lower + 1) == upper then hi else bytes (u16 (lower + 1))))
        (if lower == lower then lo else (if lower == upper then hi else bytes lower))
      ≡ value
stored_word bytes sp value hs hv =
    let (lo, hi) = stored bytes sp (low_byte value) (high_byte value) hs in
    ap₂ compose16 hi lo ∙ compose16-halves value hv

module _ {U : Type 0} where
  -- A word that is pushed is the word that is popped next, and `SP` is back where it was, also when
  -- it runs below 0.
  pub pop16-push16 :
      (value : ℕ) (m : Machine U)
      → IsWord value
      → IsWord m.state.sp
      → ((push16 value >> pop16) m).0 ≡ value × ((push16 value >> pop16) m).1.state.sp ≡ m.state.sp
  unfolding run_cpu ◌>>◌ push16 pop16 decrement_sp write_memory read_memory16 read_memory
      update_min_sp trace_event
  pop16-push16 value m hv hs = (stored_word m.state.memory m.state.sp value hs hv, omega arith)
