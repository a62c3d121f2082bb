-- ===== src/Gdb/Debug.antt =====
-- src/main.cpp, lines 1043-1140: a step and a run under the debugger. What `PollCtrlC` returns is a
-- list, one for each round of the loop; the rounds end with it (`none`).
use z80_trace.Common.{ℕ, Bool, not, ◌&&◌, List, [], ◌∷◌, Option, none, some}
use z80_trace.Common.{ltb, ◌==◌, if◌then◌else◌}
use z80_trace.Cpu.State.{StepResult, ok, halt, unimplemented}
use z80_trace.Cpu.Registers.{set_pc}
use z80_trace.Trace.Schedule.{AfterInstruction}
use z80_trace.Trace.Points.{is_stop_address}
use z80_trace.Trace.Session.{Session, arm, is_idle, wait_for_timer, count_hits}
use z80_trace.Trace.Session.{execute_step}
use z80_trace.Trace.Round.{can_wake}

-- The replies "S02", "S04" and "S05".
pub data StopReply : Type 0 where
  interrupted illegal trapped : StopReply

-- The options that the debugger reads.
pub record DebugOptions : Type 0 where
  pub max_steps : ℕ
  pub io_trace : Bool

unfoldable pub step_reply : StepResult → StopReply
step_reply unimplemented = illegal
step_reply _ = trapped

module _ {U : Type 0} where
  -- `if (newPc.has_value()) state->pc = *newPc`.
  unfoldable pub resume_at : Option ℕ → Session U → Session U
  resume_at none run = run
  resume_at (some pc) run = record run { state = set_pc pc run.state }

  unfoldable pub step_armed :
      ℕ → AfterInstruction U → DebugOptions → Session U → Option (StopReply × Session U)
  step_armed fuel after options run =
      if is_idle run
      then some (trapped, wait_for_timer run)
      else elim (execute_step fuel after options.io_trace (count_hits run)) [
        | none ↦ none
        | some stepped ↦ some (step_reply stepped.result, stepped.session)
      ]

  unfoldable pub step_debug :
      ℕ → AfterInstruction U → DebugOptions → Option ℕ → Session U → Option (StopReply × Session U)
  step_debug fuel after options new_pc run = elim (arm fuel (resume_at new_pc run)) [
    | none ↦ none
    | some armed ↦ step_armed fuel after options armed
  ]

  -- What the loop does next, with whether the first breakpoint is still left out.
  unfoldable pub at_breakpoint : List ℕ → Option ℕ → Session U → Bool
  at_breakpoint breakpoints none run =
      run.state.halted == 0 && is_stop_address run.state.pc breakpoints
  at_breakpoint breakpoints (some initial_pc) run =
      run.state.halted == 0
      && (is_stop_address run.state.pc breakpoints && not (run.state.pc == initial_pc))

  -- The result of a step: a reply, or `none` to go on.
  unfoldable pub continue_reply : StepResult → Session U → Option StopReply
  continue_reply unimplemented run = some illegal
  continue_reply halt run = if can_wake run then none else some trapped
  continue_reply ok run = none

  -- The loop of `ContinueDebug`; `initial` is the program counter whose breakpoint is left out, until
  -- an instruction is executed.
  unfoldable pub continue_from :
      List Bool
      → ℕ
      → AfterInstruction U
      → DebugOptions
      → List ℕ
      → Option ℕ
      → Session U
      → Option (StopReply × Session U)
  continue_from [] fuel after options breakpoints initial run = none
  continue_from (stop ∷ polls) fuel after options breakpoints initial run =
      if not (ltb run.step options.max_steps)
      then some (trapped, run)
      else (if stop then some (interrupted, run) else elim (arm fuel run) [
        | none ↦ none
        | some armed ↦
            let waiting =
              continue_from polls fuel after options breakpoints initial (wait_for_timer armed) in
            if is_idle armed
            then waiting
            else (if at_breakpoint breakpoints initial armed
                then some (trapped, armed)
                else elim (execute_step fuel after options.io_trace (count_hits armed)) [
                  | none ↦ none
                  | some stepped ↦ elim (continue_reply stepped.result stepped.session) [
                    | some reply ↦ some (reply, stepped.session)
                    | none ↦ continue_from polls fuel after options breakpoints none stepped.session
                  ]
                ])
      ])

  unfoldable pub continue_debug :
      List Bool
      → ℕ
      → AfterInstruction U
      → DebugOptions
      → List ℕ
      → Option ℕ
      → Session U
      → Option (StopReply × Session U)
  continue_debug polls fuel after options breakpoints new_pc run =
      let resumed = resume_at new_pc run in
      continue_from polls fuel after options breakpoints (some resumed.state.pc) resumed
