-- ===== src/Cpu/Valid/Interrupt.antt =====
-- The interrupt services keep the machine well formed.
use z80_trace.Common.{ℕ, true, false, arith}
use z80_trace.Cpu.State.{StateZ80, ErrorText, interrupt_ack}
use z80_trace.Cpu.Monad.{modify}
use z80_trace.Cpu.Registers.{set_pc}
use z80_trace.Cpu.Interrupt.{set_error_text, accept_nmi, service_nmi, accept_irq, call_vector}
use z80_trace.Cpu.Interrupt.{service_im2, service_im0, service_maskable_interrupt}
use z80_trace.Cpu.Valid.Defs.{IsWord, IsState, Gives, Any}
use z80_trace.Cpu.Valid.Rules.{Gives-pure, Gives-gets, Gives-modify, Gives-if, ◌▶◌, ◌▷◌}
use z80_trace.Cpu.Valid.Registers.{set_pc-IsState}
use z80_trace.Cpu.Valid.Bus.{trace_event-Gives, add_cycles-Gives, push16-Gives, read_memory16-Gives}
use z80_trace.Cpu.Valid.Alu.{u16-IsWord}

module _ {U : Type 0} where
  pub set_error_text-IsState :
      (text : ErrorText) (s : StateZ80 U) → IsState s → IsState (set_error_text text s)
  unfolding set_error_text
  set_error_text-IsState text s v = ground arith

  accept_nmi-IsState : (s : StateZ80 U) → IsState s → IsState (accept_nmi s)
  unfolding accept_nmi
  accept_nmi-IsState s v = ground arith

  accept_irq-IsState : (s : StateZ80 U) → IsState s → IsState (accept_irq s)
  unfolding accept_irq
  accept_irq-IsState s v = ground arith

  set_pc-Gives : (target : ℕ) → IsWord target → Gives {U = U} Any (modify (set_pc target))
  set_pc-Gives target h = Gives-modify (λ s v. set_pc-IsState s v target h)

  pub service_nmi-Gives : Gives {U = U} Any service_nmi
  unfolding service_nmi
  service_nmi-Gives = Gives-modify accept_nmi-IsState ▷ Gives-gets {P = Any} _ (λ s v. tt) ▶ λ pc h.
      push16-Gives pc ▷ set_pc-Gives 0x0066 (omega arith) ▷ add_cycles-Gives 11

  call_vector-Gives :
      (target cycles : ℕ) → IsWord target → Gives {U = U} Any (call_vector target cycles)
  unfolding call_vector
  call_vector-Gives target cycles ht = Gives-gets {P = Any} _ (λ s v. tt) ▶ λ pc h.
      push16-Gives pc ▷ set_pc-Gives target ht ▷ add_cycles-Gives cycles ▷ Gives-pure true tt

  service_im2-Gives : Gives {U = U} Any service_im2
  unfolding service_im2
  service_im2-Gives = Gives-gets {P = Any} _ (λ s v. tt) ▶ λ table h.
      Gives-gets {P = Any} _ (λ s v. tt) ▶ λ pc hp.
      push16-Gives pc ▷ read_memory16-Gives table ▶ λ target ht.
      set_pc-Gives target ht ▷ add_cycles-Gives 19 ▷ Gives-pure true tt

  service_im0-Gives : Gives {U = U} Any service_im0
  unfolding service_im0
  service_im0-Gives = Gives-gets {P = Any} _ (λ s v. tt) ▶ λ vector h.
      Gives-if _ (call_vector-Gives _ 13 (u16-IsWord _)) (
        Gives-gets {P = Any} _ (λ s v. tt) ▶ λ pc hp.
        Gives-modify (set_error_text-IsState _) ▷ Gives-pure false tt)

  pub service_maskable_interrupt-Gives : Gives {U = U} Any service_maskable_interrupt
  unfolding service_maskable_interrupt
  service_maskable_interrupt-Gives =
      Gives-modify accept_irq-IsState ▷ Gives-gets {P = Any} _ (λ s v. tt) ▶ λ pc hp.
      Gives-gets {P = Any} _ (λ s v. tt) ▶ λ vector hv.
      trace_event-Gives interrupt_ack pc vector ▷ Gives-gets {P = Any} _ (λ s v. tt) ▶ λ im hi.
      Gives-if _ service_im2-Gives
        (Gives-if _ service_im0-Gives (call_vector-Gives 0x0038 13 (omega arith)))
