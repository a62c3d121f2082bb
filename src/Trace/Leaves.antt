-- ===== src/Trace/Leaves.antt =====
-- src/main.cpp, lines 1648-1742: the session that a round of the trace loop leaves, from what a wait
-- for a timer leaves and what a step leaves.
use z80_trace.Common.{ℕ, Bool, true, false, Option, none, some, ◌≡◌, refl, inl, inr, Bool-cases}
use z80_trace.Common.{ltb, leb, not, ◌&&◌, ◌||◌, if◌then◌else◌}
use z80_trace.Cpu.State.{StepResult, ok, halt, unimplemented}
use z80_trace.Disasm.{Disassembly}
use z80_trace.Trace.Schedule.{AfterInstruction}
use z80_trace.Trace.Points.{is_stop_address, all_tracepoints_hit}
use z80_trace.Trace.LoopState.{capture_loop_state}
use z80_trace.Trace.Session.{Session, Stepped, arm, is_idle, wait_for_timer, count_hits}
use z80_trace.Trace.Session.{execute_step}
use z80_trace.Trace.Round.{
  Options, HaltReason, tracepoint_limit, tracepoints_hit, waits_for_interrupt, Run, Round, goes_on,
  ends, repeats, detect_loop,
}
use z80_trace.Trace.Round.{check_tracepoints, can_wake, after_step, step_round}
use z80_trace.Trace.Round.{check_stop, armed_round, run_round}

module _ {U : Type 0} where
  -- The loop detection leaves the session as it is.
  abbrev SameSession : Run U → Option (Run U) → Type 0
  SameSession run none = Unit
  SameSession run (some run') = run'.session ≡ run.session

  detect_loop-SameSession :
      (options : Options) (run : Run U) → SameSession run (detect_loop options run)
  unfolding detect_loop
  detect_loop-SameSession options run =
      elim (Bool-cases (options.loop_detect && not (waits_for_interrupt run.session))) [
        | inl tested ↦
            elim (Bool-cases (repeats run.last_state (capture_loop_state run.session.state))) [
              | inl repeated ↦ rw (tested, repeated) tt
              | inr fresh ↦ rw (tested, fresh) refl
            ]
        | inr skipped ↦ rw (skipped) refl
      ]

  abbrev pub GoesOnWith : (Session U → Type 0) → Round U → Type 0
  GoesOnWith P (goes_on run) = P run.session
  GoesOnWith P (ends reason run) = Unit

  -- What holds of the session of a round if the round goes on.
  abbrev pub Leaves : (Session U → Type 0) → Option (Round U) → Type 0
  Leaves P none = Unit
  Leaves P (some round) = GoesOnWith P round

  -- What holds of the session after a step that returns.
  abbrev pub StepLeaves : (Session U → Type 0) → Option (Stepped U) → Type 0
  StepLeaves P none = Unit
  StepLeaves P (some stepped) = P stepped.session

  module _ (P : Session U → Type 0) where
    ends_or_goes_on :
        (test : Bool) (reason : HaltReason) (run : Run U) (round : Round U)
        → GoesOnWith P round
        → GoesOnWith P (if test then ends reason run else round)
    ends_or_goes_on true reason run round h = tt
    ends_or_goes_on false reason run round h = h

    after_step-GoesOnWith :
        (options : Options) (result : StepResult) (run : Run U)
        → P run.session
        → GoesOnWith P (after_step options result run)
    unfolding after_step check_tracepoints
    after_step-GoesOnWith options ok run h =
        ends_or_goes_on
          (ltb 0 options.tracepoint_max && leb options.tracepoint_max run.total_tracepoint_hits)
          tracepoint_limit run _
          (ends_or_goes_on (options.tracepoint_stop && all_tracepoints_hit run.tracepoints)
            tracepoints_hit run (goes_on run) h)
    after_step-GoesOnWith options halt run h = elim (Bool-cases (can_wake run.session)) [
      | inl wakes ↦ rw (wakes) h
      | inr sleeps ↦ rw (sleeps) tt
    ]
    after_step-GoesOnWith options unimplemented run h = tt

  module _ (fuel : ℕ) (after : AfterInstruction U) (P : Session U → Type 0) where
    -- What a step that begins at the session leaves, traced or not.
    abbrev pub StepsTo : Session U → Type 0
    StepsTo session =
        (traced : Bool) → StepLeaves P (execute_step fuel after traced (count_hits session))

    module _ (options : Options) where
      stepped-Leaves :
          (run : Run U) (r : Option (Stepped U))
          → execute_step fuel after (options.bus_trace || options.io_trace) (count_hits run.session)
            ≡ r
          → StepLeaves P r
          → Leaves P (step_round fuel after options run)
      unfolding step_round
      stepped-Leaves run none e h = rw (step_round, e) tt
      stepped-Leaves run (some stepped) e h =
          rw (step_round, e) (after_step-GoesOnWith P options stepped.result _ h)

      detected-Leaves :
          (run : Run U) (d : Disassembly) (r : Option (Run U))
          → is_stop_address run.session.state.pc options.stop_addrs ≡ false
          → detect_loop options run ≡ r
          → SameSession run r
          → StepsTo run.session
          → Leaves P (check_stop fuel after options run (some d))
      unfolding check_stop
      detected-Leaves run d none on e kept h = rw (check_stop, on, e) tt
      detected-Leaves run d (some run') on e kept h =
          rw (check_stop, on, e)
            (stepped-Leaves run' _ refl (rw (kept) (h (options.bus_trace || options.io_trace))))

      check_stop-Leaves :
          (run : Run U) (d : Option Disassembly)
          → StepsTo run.session
          → Leaves P (check_stop fuel after options run d)
      unfolding check_stop
      check_stop-Leaves run none h = tt
      check_stop-Leaves run (some d) h =
          elim (Bool-cases (is_stop_address run.session.state.pc options.stop_addrs)) [
            | inl stopped ↦ rw (stopped) tt
            | inr on ↦ detected-Leaves run d _ on refl (detect_loop-SameSession options run) h
          ]

      armed_round-Leaves :
          (run : Run U)
          → P (wait_for_timer run.session)
          → StepsTo run.session
          → Leaves P (armed_round fuel after options run)
      unfolding armed_round
      armed_round-Leaves run waits steps = elim (Bool-cases (is_idle run.session)) [
        | inl idle ↦ rw (idle) waits
        | inr awake ↦ rw (awake) (check_stop-Leaves run _ steps)
      ]

      pub run_round-Leaves :
          (run : Run U) (r : Option (Session U))
          → arm fuel run.session ≡ r
          → ((armed : Session U) → r ≡ some armed → P (wait_for_timer armed) × StepsTo armed)
          → Leaves P (run_round fuel after options run)
      unfolding run_round
      run_round-Leaves run none e h = rw (run_round, e) tt
      run_round-Leaves run (some armed) e h =
          let both = h armed refl in rw (run_round, e) (armed_round-Leaves _ both.0 both.1)
