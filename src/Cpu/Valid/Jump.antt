-- ===== src/Cpu/Valid/Jump.antt =====
-- The jumps, calls and returns keep the machine well formed.
use z80_trace.Common.{ℕ}
use z80_trace.Cpu.State.{StateZ80}
use z80_trace.Cpu.Monad.{modify}
use z80_trace.Cpu.Registers.{set_pc}
use z80_trace.Cpu.Base.Jump.{jump_relative, jr_always, jr_if, decrement_b, dec_jump, jump_always}
use z80_trace.Cpu.Base.Jump.{jump_if, call_to, call_always, call_if, restart, return_to}
use z80_trace.Cpu.Base.Jump.{return_always, return_if}
use z80_trace.Cpu.Valid.Defs.{IsWord, IsState, Gives, Any}
use z80_trace.Cpu.Valid.Rules.{Gives-gets, Gives-modify, Gives-when, ◌▶◌, ◌▷◌}
use z80_trace.Cpu.Valid.Registers.{set_pc-IsState, set_b-IsState}
use z80_trace.Cpu.Valid.Alu.{u8-IsByte, u16-IsWord}
use z80_trace.Cpu.Valid.Bus.{read_immediate8-Gives, read_immediate16-Gives, push16-Gives}
use z80_trace.Cpu.Valid.Bus.{pop16-Gives, add_cycles-Gives}

module _ {U : Type 0} where
  jump_relative-Gives : (disp : ℕ) → Gives {U = U} Any (modify (jump_relative disp))
  unfolding jump_relative
  jump_relative-Gives disp = Gives-modify (λ s v. set_pc-IsState s v _ (u16-IsWord _))

  set_pc-Gives : (target : ℕ) → IsWord target → Gives {U = U} Any (modify (set_pc target))
  set_pc-Gives target h = Gives-modify (λ s v. set_pc-IsState s v target h)

  pub jr_always-Gives : Gives {U = U} Any jr_always
  unfolding jr_always
  jr_always-Gives = read_immediate8-Gives ▶ λ disp h. jump_relative-Gives disp ▷ add_cycles-Gives 12

  pub jr_if-Gives : (op : ℕ) → Gives {U = U} Any (jr_if op)
  unfolding jr_if
  jr_if-Gives op = read_immediate8-Gives ▶ λ disp h.
      Gives-gets {P = Any} _ (λ s v. tt) ▶ λ taken ht.
      Gives-when taken (jump_relative-Gives disp) ▷ add_cycles-Gives _

  decrement_b-IsState : (s : StateZ80 U) → IsState s → IsState (decrement_b s)
  unfolding decrement_b
  decrement_b-IsState s v = set_b-IsState s v _ (u8-IsByte _)

  pub dec_jump-Gives : Gives {U = U} Any dec_jump
  unfolding dec_jump
  dec_jump-Gives = read_immediate8-Gives ▶ λ disp h.
      Gives-modify decrement_b-IsState ▷ Gives-gets {P = Any} _ (λ s v. tt) ▶ λ taken ht.
      Gives-when taken (jump_relative-Gives disp) ▷ add_cycles-Gives _

  pub jump_always-Gives : Gives {U = U} Any jump_always
  unfolding jump_always
  jump_always-Gives = read_immediate16-Gives ▶ λ addr h. set_pc-Gives addr h ▷ add_cycles-Gives 10

  pub jump_if-Gives : (op : ℕ) → Gives {U = U} Any (jump_if op)
  unfolding jump_if
  jump_if-Gives op = read_immediate16-Gives ▶ λ addr h.
      Gives-gets {P = Any} _ (λ s v. tt) ▶ λ taken ht.
      Gives-when taken (set_pc-Gives addr h) ▷ add_cycles-Gives 10

  call_to-Gives : (addr : ℕ) → IsWord addr → Gives {U = U} Any (call_to addr)
  unfolding call_to
  call_to-Gives addr h =
      Gives-gets {P = Any} _ (λ s v. tt) ▶ λ pc hp. push16-Gives pc ▷ set_pc-Gives addr h

  pub call_always-Gives : Gives {U = U} Any call_always
  unfolding call_always
  call_always-Gives = read_immediate16-Gives ▶ λ addr h. call_to-Gives addr h ▷ add_cycles-Gives 17

  pub call_if-Gives : (op : ℕ) → Gives {U = U} Any (call_if op)
  unfolding call_if
  call_if-Gives op = read_immediate16-Gives ▶ λ addr h.
      Gives-gets {P = Any} _ (λ s v. tt) ▶ λ taken ht.
      Gives-when taken (call_to-Gives addr h) ▷ add_cycles-Gives _

  pub restart-Gives : (op : ℕ) → Gives {U = U} Any (restart op)
  unfolding restart
  restart-Gives op = call_to-Gives _ (u16-IsWord _) ▷ add_cycles-Gives 11

  return_to-Gives : Gives {U = U} Any return_to
  unfolding return_to
  return_to-Gives = pop16-Gives ▶ λ pc h. set_pc-Gives pc h

  pub return_always-Gives : Gives {U = U} Any return_always
  unfolding return_always
  return_always-Gives = return_to-Gives ▷ add_cycles-Gives 10

  pub return_if-Gives : (op : ℕ) → Gives {U = U} Any (return_if op)
  unfolding return_if
  return_if-Gives op = Gives-gets {P = Any} _ (λ s v. tt) ▶ λ taken ht.
      Gives-when taken return_to-Gives ▷ add_cycles-Gives _
