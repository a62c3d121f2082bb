-- ===== src/Cpu/Advance/Cb.antt =====
-- The instructions behind CB read nothing behind their opcode.
use z80_trace.Common.{ℕ, Bool, refl}
use z80_trace.Cpu.Registers.{IndexMode}
use z80_trace.Cpu.Alu.{rotate_cb, bit_test}
use z80_trace.Cpu.Cb.{store_cb, execute_rotate, execute_bit, execute_cb}
use z80_trace.Cpu.Advance.Rules.{Advances, Advances-pure, Advances-modify, Advances-lift}
use z80_trace.Cpu.Advance.Rules.{Advances-either, Advances-when, ◌⊳◌, ◌⊳⊳◌}
use z80_trace.Cpu.Advance.Registers.{set_reg8_simple-pc}
use z80_trace.Cpu.Advance.Bus.{read_reg8-Advances, write_reg8-Advances, add_cycles-Advances}

module _ {U : Type 0} where
  store_cb-Advances :
      (z : ℕ) (index : IndexMode) (indexed_mem : Bool) (disp result : ℕ)
      → Advances {U = U} 0 (store_cb z index indexed_mem disp result)
  unfolding store_cb
  store_cb-Advances z index indexed_mem disp result =
      write_reg8-Advances z index indexed_mem disp result
      ⊳⊳ Advances-when _ (Advances-modify _ (λ s. set_reg8_simple-pc z _ result s))
      ⊳⊳ add_cycles-Advances _
      ⊳⊳ Advances-pure _

  execute_rotate-Advances :
      (y z : ℕ) (index : IndexMode) (indexed_mem : Bool) (disp value : ℕ)
      → Advances {U = U} 0 (execute_rotate y z index indexed_mem disp value)
  unfolding execute_rotate rotate_cb
  execute_rotate-Advances y z index indexed_mem disp value =
      Advances-lift _ (λ s. refl) ⊳ λ result. store_cb-Advances z index indexed_mem disp result

  execute_bit-Advances :
      (y z : ℕ) (indexed_mem : Bool) (value : ℕ)
      → Advances {U = U} 0 (execute_bit y z indexed_mem value)
  unfolding execute_bit bit_test
  execute_bit-Advances y z indexed_mem value =
      Advances-modify _ (λ s. refl) ⊳⊳ add_cycles-Advances _ ⊳⊳ Advances-pure _

  pub execute_cb-Advances :
      (op : ℕ) (index : IndexMode) (indexed_mem : Bool) (disp : ℕ)
      → Advances {U = U} 0 (execute_cb op index indexed_mem disp)
  unfolding execute_cb
  execute_cb-Advances op index indexed_mem disp =
      read_reg8-Advances _ index indexed_mem disp ⊳ λ value.
      Advances-either _ (execute_rotate-Advances _ _ index indexed_mem disp value) (
        Advances-either _ (execute_bit-Advances _ _ indexed_mem value) (
          Advances-either _ (store_cb-Advances _ index indexed_mem disp _)
            (store_cb-Advances _ index indexed_mem disp _)))
