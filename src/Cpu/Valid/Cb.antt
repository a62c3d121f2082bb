-- ===== src/Cpu/Valid/Cb.antt =====
-- The instructions behind CB keep the machine well formed.
use z80_trace.Common.{ℕ, Bool, arith}
use z80_trace.Cpu.State.{ok}
use z80_trace.Cpu.Registers.{IndexMode, index_none}
use z80_trace.Cpu.Cb.{res_bit, set_bit, store_cb, execute_rotate, execute_bit, execute_cb}
use z80_trace.Cpu.Valid.Defs.{IsByte, IsImplemented, Gives}
use z80_trace.Cpu.Valid.Rules.{Gives-pure, Gives-modify, Gives-lift, Gives-if, Gives-when, ◌▶◌, ◌▷◌}
use z80_trace.Cpu.Valid.Registers.{set_reg8_simple-IsState}
use z80_trace.Cpu.Valid.Alu.{u8-IsByte, rotate_cb-IsState, bit_test-IsState}
use z80_trace.Cpu.Valid.Bus.{read_reg8-Gives, write_reg8-Gives, add_cycles-Gives}

res_bit-IsByte : (y value : ℕ) → IsByte (res_bit y value)
unfolding res_bit
res_bit-IsByte y value = u8-IsByte _

set_bit-IsByte : (y value : ℕ) → IsByte (set_bit y value)
unfolding set_bit
set_bit-IsByte y value = u8-IsByte _

pub ok-IsImplemented : IsImplemented ok
ok-IsImplemented h = ground arith

module _ {U : Type 0} where
  store_cb-Gives :
      (z : ℕ) (index : IndexMode) (indexed : Bool) (disp result : ℕ)
      → IsByte result
      → Gives {U = U} IsImplemented (store_cb z index indexed disp result)
  unfolding store_cb
  store_cb-Gives z index indexed disp result h =
      write_reg8-Gives z index indexed disp result h
      ▷ Gives-when _ (Gives-modify (λ s v. set_reg8_simple-IsState s v z index_none result h))
      ▷ add_cycles-Gives _
      ▷ Gives-pure {P = IsImplemented} ok ok-IsImplemented

  execute_rotate-Gives :
      (y z : ℕ) (index : IndexMode) (indexed : Bool) (disp value : ℕ)
      → Gives {U = U} IsImplemented (execute_rotate y z index indexed disp value)
  unfolding execute_rotate
  execute_rotate-Gives y z index indexed disp value =
      Gives-lift {P = IsByte} _ (λ s v. rotate_cb-IsState s v value y) ▶ λ result h.
      store_cb-Gives z index indexed disp result h

  execute_bit-Gives :
      (y z : ℕ) (indexed : Bool) (value : ℕ)
      → Gives {U = U} IsImplemented (execute_bit y z indexed value)
  unfolding execute_bit
  execute_bit-Gives y z indexed value =
      Gives-modify (λ s v. bit_test-IsState s v value y)
      ▷ add_cycles-Gives _
      ▷ Gives-pure {P = IsImplemented} ok ok-IsImplemented

  pub execute_cb-Gives :
      (op : ℕ) (index : IndexMode) (indexed : Bool) (disp : ℕ)
      → Gives {U = U} IsImplemented (execute_cb op index indexed disp)
  unfolding execute_cb
  execute_cb-Gives op index indexed disp = read_reg8-Gives _ index indexed disp ▶ λ value h.
      Gives-if _ (execute_rotate-Gives _ _ index indexed disp value) (
        Gives-if _ (execute_bit-Gives _ _ indexed value) (
          Gives-if _ (store_cb-Gives _ index indexed disp _ (res_bit-IsByte _ value))
            (store_cb-Gives _ index indexed disp _ (set_bit-IsByte _ value))))
