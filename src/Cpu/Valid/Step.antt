-- ===== src/Cpu/Valid/Step.antt =====
-- src/z80_exec.c, `EmulateZ80Op`: well-formedness across one step, and what the step returns.
use z80_trace.Common.{
  ◌≢◌, ◌⊎◌, inl, inr, Bool-cases, ==_iff, bit_and, not, if◌then◌else◌, ◌≡◌, refl, ◌==◌, ◌||◌, ℕ, [],
  zero, suc, Bool, true, false, Option, none, some, List, arith,
}
use z80_trace.Cpu.State.{StateZ80, BusEvent, Machine, StepResult, ok, halt, unimplemented}
use z80_trace.Cpu.Registers.{IndexMode}
use z80_trace.Cpu.Monad.{Cpu, run_cpu}
use z80_trace.Cpu.Interrupt.{
  service_maskable_interrupt, service_im0, service_im2, call_vector, accept_irq,
}
use z80_trace.Cpu.Bus.{
  push16, write_memory, read_memory16, read_memory, trace_event, add_cycles, decrement_sp,
  update_min_sp,
}
use z80_trace.Cpu.Bus.{map_option}
use z80_trace.Cpu.Step.{is_prefix, begin_step, skip_prefixes, execute_cb_prefix, execute_ed_prefix}
use z80_trace.Cpu.Step.{
  interrupt_result, irq_accepted, execute_opcode, run_opcode, execute_instruction, emulate_op,
}
use z80_trace.Cpu.Valid.Defs.{
  IsState, IsMachine, IsByte, IsImplemented, IsDone, AreEvents, Gives, Any,
}
use z80_trace.Cpu.Valid.Rules.{Gives-pure, Gives-gets, Gives-if, Gives-test, ◌▶◌, ◌▷◌}
use z80_trace.Cpu.Valid.Bus.{fetch_opcode_byte-Gives, read_immediate8-Gives}
use z80_trace.Cpu.Valid.Interrupt.{service_nmi-Gives, service_maskable_interrupt-Gives}
use z80_trace.Cpu.Valid.Cb.{execute_cb-Gives}
use z80_trace.Cpu.Valid.Ed.{execute_ed-Gives}
use z80_trace.Cpu.Valid.Base.{execute_base-Gives}

-- The events of a new step are none.
no_events-AreEvents : (events : Option (List BusEvent)) → AreEvents (map_option (λ _. []) events)
unfolding map_option
no_events-AreEvents none = tt
no_events-AreEvents (some events) = omega arith

-- What the loop over the prefixes finds: a byte that is none.
abbrev IsFound : Option (IndexMode × ℕ) → Type 0
IsFound none = Unit
IsFound (some (index, op)) = IsByte op × (is_prefix op ≡ false)

not_prefixes :
    (op : ℕ)
    → is_prefix op ≡ false
    → (op == 0xcb) ≡ false
    → (op == 0xed) ≡ false
    → (op == 0xcb || op == 0xdd || op == 0xed || op == 0xfd) ≡ false
unfolding is_prefix
not_prefixes op h cb ed = ground arith

some-IsDone : (result : StepResult) → IsImplemented result → IsDone (some result)
some-IsDone ok h e = ground arith
some-IsDone halt h e = ground arith
some-IsDone unimplemented h e = h refl

none-IsDone : IsDone none
none-IsDone e = ground arith

interrupt_result-IsDone : (done : Bool) → done ≡ true → IsDone (some (interrupt_result done))
unfolding interrupt_result
interrupt_result-IsDone true h = some-IsDone ok (λ e. ground arith)
interrupt_result-IsDone false h = ground arith

module _ {U : Type 0} where
  begin_step-IsState :
      (s : StateZ80 U) → IsState s → IsState (record s { last_error = none; ei_pending = 0 })
  begin_step-IsState s v = ground arith

  pub begin_step-Gives : Gives {U = U} Any begin_step
  unfolding begin_step
  begin_step-Gives = record {
    run = λ m v. (
      tt,
      record {
        state_ok = begin_step-IsState m.state v.state_ok;
        events_ok = no_events-AreEvents m.events;
      },
    );
  }

  Gives-elim :
      {A : Type 0} {P : A → Type 0} {p q : Cpu U A} (b : Bool)
      → Gives P p
      → (b ≡ false → Gives P q)
      → Gives P (elim b [ true ↦ p | false ↦ q ])
  Gives-elim true hp hq = hp
  Gives-elim false hp hq = hq refl

  skip_prefixes-Gives :
      (fuel : ℕ) (index : IndexMode) (op : ℕ)
      → IsByte op
      → Gives {U = U} IsFound (skip_prefixes fuel index op)
  unfolding skip_prefixes
  skip_prefixes-Gives zero index op h = Gives-pure {P = IsFound} none tt
  skip_prefixes-Gives (suc fuel) index op h =
      Gives-elim {P = IsFound} (is_prefix op)
        (fetch_opcode_byte-Gives ▶ λ next hn. skip_prefixes-Gives fuel _ next hn)
        (λ last. Gives-pure {P = IsFound} (some (index, op)) (h, last))

  execute_cb_prefix-Gives :
      (index : IndexMode) → Gives {U = U} IsImplemented (execute_cb_prefix index)
  unfolding execute_cb_prefix
  execute_cb_prefix-Gives index =
      Gives-if _
        (read_immediate8-Gives ▶ λ disp hd.
          read_immediate8-Gives ▶ λ cbop h. execute_cb-Gives cbop index true disp)
        (fetch_opcode_byte-Gives ▶ λ cbop h. execute_cb-Gives cbop _ false 0)

  execute_ed_prefix-Gives : Gives {U = U} IsImplemented execute_ed_prefix
  unfolding execute_ed_prefix
  execute_ed_prefix-Gives = fetch_opcode_byte-Gives ▶ λ edop h. execute_ed-Gives edop

  execute_opcode-Gives :
      (index : IndexMode) (op : ℕ)
      → IsByte op
      → is_prefix op ≡ false
      → Gives {U = U} IsImplemented (execute_opcode index op)
  unfolding execute_opcode
  execute_opcode-Gives index op h last =
      Gives-test _ (λ cb. execute_cb_prefix-Gives index)
        (λ cb.
          Gives-test _ (λ ed. execute_ed_prefix-Gives)
            (λ ed. execute_base-Gives op index h (not_prefixes op last cb ed)))

  run_opcode-Gives :
      (found : Option (IndexMode × ℕ)) → IsFound found → Gives {U = U} IsDone (run_opcode found)
  unfolding run_opcode
  run_opcode-Gives none hf = Gives-pure {P = IsDone} none none-IsDone
  run_opcode-Gives (some (index, op)) (h, last) =
      execute_opcode-Gives index op h last ▶ λ result hr.
      Gives-pure {P = IsDone} (some result) (some-IsDone result hr)

  pub execute_instruction-Gives : (fuel : ℕ) → Gives {U = U} IsDone (execute_instruction fuel)
  unfolding execute_instruction
  execute_instruction-Gives fuel = fetch_opcode_byte-Gives ▶ λ op h.
      skip_prefixes-Gives fuel _ op h ▶ λ found hf. run_opcode-Gives found hf

  weaken : {A : Type 0} {P : A → Type 0} {p : Cpu U A} → Gives P p → Gives Any p
  weaken h = record { run = λ m v. (tt, (h.run m v).1) }

  emulate_op-Gives : (fuel : ℕ) → Gives {U = U} Any (emulate_op fuel)
  unfolding emulate_op
  emulate_op-Gives fuel = Gives-gets {P = Any} _ (λ s v. tt) ▶ λ suppress_irq h.
      begin_step-Gives ▷ Gives-gets {P = Any} _ (λ s v. tt) ▶ λ nmi h1.
      Gives-gets {P = Any} _ (λ s v. tt) ▶ λ irq h2.
      Gives-gets {P = Any} _ (λ s v. tt) ▶ λ halted h3.
      Gives-if nmi (service_nmi-Gives ▶ λ _ h4. Gives-pure _ tt) (
        Gives-if irq (service_maskable_interrupt-Gives ▶ λ done h5. Gives-pure _ tt)
          (Gives-if halted (Gives-pure _ tt) (weaken (execute_instruction-Gives fuel))))

  -- One step keeps the machine well formed: every register stays in the range of its C type, the
  -- interrupt mode in 0 .. 2, memory and I/O space hold bytes, and at most 32 events are recorded.
  -- This holds for every opcode, prefix, interrupt and fuel.
  pub emulate_op-IsMachine :
      (fuel : ℕ) (m : Machine U) → IsMachine m → IsMachine (emulate_op fuel m).1
  emulate_op-IsMachine fuel m v = ((emulate_op-Gives fuel).run m v).1

  either :
      {A : Type 0} (P : A → Type 0) (b : Bool) (p q : Cpu U A) (m : Machine U)
      → P (p m).0
      → P (q m).0
      → P ((if b then p else q) m).0
  either P true p q m hp hq = hp
  either P false p q m hp hq = hq

  service_done :
      (m : Machine U)
      → (m.state.im ≢ 0) ⊎ ((bit_and m.state.irq_vector 0xc7 == 0xc7) ≡ true)
      → (service_maskable_interrupt m).0 ≡ true
  unfolding service_maskable_interrupt service_im0 service_im2 call_vector accept_irq run_cpu push16
      write_memory read_memory16 read_memory trace_event add_cycles decrement_sp update_min_sp
  service_done m h =
      either (λ done. done ≡ true) (m.state.im == 2) _ _ _ refl
        (elim (Bool-cases (m.state.im == 0)) [
          | inl zero_mode ↦ elim h [
            | inl h0 ↦ absurd (h0 ((==_iff _ _).0 zero_mode))
            | inr rst ↦ rw (zero_mode, rst) refl
          ]
          | inr no_zero ↦ rw no_zero refl
        ])

  -- With a well-formed machine whose interrupt mode is not 0, or whose interrupt vector is an `RST`
  -- opcode, a step never reports an instruction as not implemented.
  pub emulate_op-IsDone :
      (fuel : ℕ) (m : Machine U)
      → IsMachine m
      → (m.state.im ≢ 0) ⊎ ((bit_and m.state.irq_vector 0xc7 == 0xc7) ≡ true)
      → IsDone (emulate_op fuel m).0
  unfolding emulate_op begin_step run_cpu
  emulate_op-IsDone fuel m v h =
      either IsDone (not (m.state.nmi_pending == 0)) _ _ _ (some-IsDone ok (λ e. ground arith)) (
        either IsDone (irq_accepted m.state.ei_pending _) _ _ _
          (interrupt_result-IsDone _ (service_done _ h))
          (either IsDone (not (m.state.halted == 0)) _ _ _ (some-IsDone halt (λ e. ground arith))
            ((execute_instruction-Gives fuel).run _ (begin_step-Gives.run m v).1).0))
