-- ===== src/Trace/Requested.antt =====
-- src/main.cpp, lines 708-720 and 1711-1713: the interrupt that a plugin asks for after an instruction.
use z80_trace.Common.{ℕ, Bool, true, false, Option, some, ◌≡◌, ◌≢◌, refl, ◌⊎◌, inl, inr}
use z80_trace.Common.{ap, ◌∙◌}
use z80_trace.Cpu.State.{StateZ80, Machine, ok}
use z80_trace.Cpu.Registers.{set_pc}
use z80_trace.Cpu.Bus.{push16, decrement_sp, write_memory, update_min_sp, trace_event, add_cycles}
use z80_trace.Cpu.Interrupt.{accept_nmi, service_nmi}
use z80_trace.Cpu.Step.{emulate_op, begin_step}
use z80_trace.Cpu.Monad.{run_cpu, pure}
use z80_trace.Trace.Schedule.{raise, arm_plugin_interrupt}
use z80_trace.Trace.Session.{Session, finish_step, wait_for_timer, count_hits}
use z80_trace.Trace.Round.{Options, Run, goes_on, run_round}
use z80_trace.Trace.Leaves.{Leaves, StepsTo, run_round-Leaves}
use z80_trace.Trace.Progress.{execute_step-StepLeaves, arm-SameClock}

module _ {U : Type 0} where
  -- The interrupt is pending, and a maskable one with its vector.
  abbrev pub IsRaised : Bool → ℕ → StateZ80 U → Type 0
  IsRaised true vector s = s.nmi_pending ≡ 1
  IsRaised false vector s = (s.irq_pending ≡ 1) × (s.irq_vector ≡ vector)

  module _ (callback : U → ℕ → ℕ → Option (Bool × ℕ) × U) (nmi : Bool) (vector : ℕ) where
    -- The plugin asks for the interrupt after that step, whatever the clock and its own state.
    abbrev pub Asks : ℕ → Type 0
    Asks step = (user : U) (clocks : ℕ) → (callback user step clocks).0 ≡ some (nmi, vector)

    raised : (kind : Bool) (s : StateZ80 U) → IsRaised kind vector (raise kind vector s)
    unfolding raise
    raised true s = refl
    raised false s = (refl, refl)

    arm_plugin_interrupt-IsRaised :
        (step clocks : ℕ) (s : StateZ80 U)
        → Asks step
        → IsRaised nmi vector (arm_plugin_interrupt (some callback) step clocks s)
    unfolding arm_plugin_interrupt
    arm_plugin_interrupt-IsRaised step clocks s asks =
        rw (arm_plugin_interrupt, asks s.io_user clocks) (raised nmi _)

    -- Either no step is counted, or what is asked for after it is pending.
    abbrev pub Answers : ℕ → Session U → Type 0
    Answers step session =
        (session.step ≡ step) ⊎ (Asks session.step → IsRaised nmi vector session.state)

    pub execute_step-Answers :
        (fuel step : ℕ) (session : Session U) → StepsTo fuel (some callback) (Answers step) session
    unfolding finish_step
    execute_step-Answers fuel step session traced =
        execute_step-StepLeaves (Answers step) fuel (some callback) traced (count_hits session)
          (λ m. inr (λ asks. arm_plugin_interrupt-IsRaised _ _ _ asks))

    run_round-Answers :
        (fuel : ℕ) (options : Options) (run : Run U)
        → Leaves (Answers run.session.step) (run_round fuel (some callback) options run)
    unfolding wait_for_timer
    run_round-Answers fuel options run =
        run_round-Leaves fuel (some callback) (Answers run.session.step) options run _ refl
          (λ armed e. (
            inl (arm-SameClock fuel run.session armed e).0,
            execute_step-Answers fuel run.session.step armed,
          ))

    pub answered :
        (step : ℕ) (session : Session U)
        → Answers step session
        → session.step ≢ step
        → Asks session.step
        → IsRaised nmi vector session.state
    answered step session (inl same) counted asks = absurd (counted same)
    answered step session (inr raises) counted asks = raises asks

    -- If a plugin asks for an interrupt after a step that the trace loop counts, it is pending when the
    -- loop goes on from that step, a maskable one with its vector.
    pub run_round-IsRaised :
        (fuel : ℕ) (options : Options) (run run' : Run U)
        → run_round fuel (some callback) options run ≡ some (goes_on run')
        → run'.session.step ≢ run.session.step
        → Asks run'.session.step
        → IsRaised nmi vector run'.session.state
    run_round-IsRaised fuel options run run' e counted asks =
        answered run.session.step run'.session (rw (e) at (run_round-Answers fuel options run))
          counted asks

  -- A step with a non-maskable interrupt pending takes it.
  emulate_op-service_nmi :
      (fuel : ℕ) (m : Machine U)
      → m.state.nmi_pending ≡ 1
      → ((emulate_op fuel m).0 ≡ some ok)
        × ((emulate_op fuel m).1.state.pc ≡ 0x66)
        × ((emulate_op fuel m).1.state.iff1 ≡ 0)
  unfolding emulate_op begin_step run_cpu pure service_nmi accept_nmi push16 decrement_sp
      write_memory update_min_sp trace_event add_cycles set_pc
  emulate_op-service_nmi fuel m pending = rw (emulate_op, pending) (refl, refl, refl)

  -- If a plugin asks for a non-maskable interrupt after a step that the trace loop counts, whatever its
  -- own state and the clock, and the loop goes on, the next step of the processor as that round leaves
  -- it takes the interrupt: it returns, the program counter is 0066, and IFF1 is 0.
  pub emulate_op-run_round :
      (callback : U → ℕ → ℕ → Option (Bool × ℕ) × U) (vector fuel later : ℕ) (options : Options)
      (run run' : Run U) (m : Machine U)
      → run_round fuel (some callback) options run ≡ some (goes_on run')
      → run'.session.step ≢ run.session.step
      → Asks callback true vector run'.session.step
      → m.state ≡ run'.session.state
      → ((emulate_op later m).0 ≡ some ok)
        × ((emulate_op later m).1.state.pc ≡ 0x66)
        × ((emulate_op later m).1.state.iff1 ≡ 0)
  emulate_op-run_round callback vector fuel later options run run' m e counted asks same =
      emulate_op-service_nmi later m (
        ap (λ s. s.nmi_pending) same
        ∙ run_round-IsRaised callback true vector fuel options run run' e counted asks)
