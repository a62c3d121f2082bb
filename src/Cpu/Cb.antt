-- ===== src/Cpu/Cb.antt =====
-- src/z80_exec.c, lines 742-777: the instructions behind the prefix CB, and behind DD CB and FD CB.
use z80_trace.Common.{ℕ, Bool, not, ◌&&◌, bit_and, bit_or, u8, ◌<<<◌, ◌>>>◌, ◌==◌}
use z80_trace.Common.{if◌then◌else◌}
use z80_trace.Cpu.State.{StepResult, ok}
use z80_trace.Cpu.Monad.{Cpu, ◌>>=◌, ◌>>◌, pure, modify, lift, when}
use z80_trace.Cpu.Registers.{IndexMode, index_none, set_reg8_simple}
use z80_trace.Cpu.Alu.{complement, rotate_cb, bit_test}
use z80_trace.Cpu.Bus.{read_reg8, write_reg8, add_cycles}

-- `value & ~(1u << y)` and `value | (1u << y)`.
unfoldable pub res_bit : ℕ → ℕ → ℕ
res_bit y value = u8 (bit_and value (complement (1 <<< y)))

unfoldable pub set_bit : ℕ → ℕ → ℕ
set_bit y value = u8 (bit_or value (1 <<< y))

module _ {U : Type 0} where
  -- The result is written to operand `z`, and in an indexed form to register `z` as well.
  unfoldable pub store_cb : ℕ → IndexMode → Bool → ℕ → ℕ → Cpu U StepResult
  store_cb z index indexed_mem disp result = do
    write_reg8 z index indexed_mem disp result
    when (indexed_mem && not (z == 6)) (modify (set_reg8_simple z index_none result))
    add_cycles (if indexed_mem then 23 else (if z == 6 then 15 else 8))
    pure ok

  -- The rotations and shifts (group 0).
  unfoldable pub execute_rotate : ℕ → ℕ → IndexMode → Bool → ℕ → ℕ → Cpu U StepResult
  execute_rotate y z index indexed_mem disp value = do
    result ← lift (rotate_cb value y)
    store_cb z index indexed_mem disp result

  -- `BIT` (group 1).
  unfoldable pub execute_bit : ℕ → ℕ → Bool → ℕ → Cpu U StepResult
  execute_bit y z indexed_mem value = do
    modify (bit_test value y)
    add_cycles (if indexed_mem then 20 else (if z == 6 then 12 else 8))
    pure ok

  unfoldable pub execute_cb : ℕ → IndexMode → Bool → ℕ → Cpu U StepResult
  execute_cb op index indexed_mem disp =
      let group = bit_and (op >>> 6) 0x03 in
      let y = bit_and (op >>> 3) 0x07 in
      let z = bit_and op 0x07 in
      read_reg8 z index indexed_mem disp >>= λ value.
      if group == 0
      then execute_rotate y z index indexed_mem disp value
      else (if group == 1
          then execute_bit y z indexed_mem value
          else (if group == 2
              then store_cb z index indexed_mem disp (res_bit y value)
              else store_cb z index indexed_mem disp (set_bit y value)))
