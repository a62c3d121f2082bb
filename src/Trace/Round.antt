-- ===== src/Trace/Round.antt =====
-- src/main.cpp, lines 504-512 and 1634-1743: the trace loop. The texts that it writes are not
-- modelled; the numbers of cycles and writes of the bus trace are. The fuel of a round is that of its
-- timers and of its instruction.
use z80_trace.Common.{ℕ, zero, suc, ◌+◌, Bool, true, false, not, ◌&&◌, ◌||◌, List, [], ◌∷◌, Option}
use z80_trace.Common.{none, some, u64, ltb, leb, ◌==◌, if◌then◌else◌}
use z80_trace.Cpu.State.{StepResult, ok, halt, unimplemented, BusEvent, BusEventKind, write}
use z80_trace.Disasm.{Disassembly, disassemble_z80_op}
use z80_trace.Trace.Schedule.{AfterInstruction, has_future_interrupts, has_active_timers}
use z80_trace.Trace.Points.{Tracepoint, hit_tracepoint, all_tracepoints_hit}
use z80_trace.Trace.Points.{has_tracepoint, is_stop_address}
use z80_trace.Trace.LoopState.{LoopState, capture_loop_state, same_loop_state}
use z80_trace.Trace.Session.{Session, arm, sleeps, is_idle, wait_for_timer, count_hits}
use z80_trace.Trace.Session.{execute_step}

-- The options that the loop reads.
pub record Options : Type 0 where
  pub max_steps : ℕ
  pub loop_detect : Bool
  pub bus_trace : Bool
  pub io_trace : Bool
  pub stop_addrs : List ℕ
  pub tracepoint_max : ℕ
  pub tracepoint_stop : Bool

pub data HaltReason : Type 0 where
  max_reached stop loop hlt not_implemented tracepoint_limit tracepoints_hit : HaltReason

-- `last_state` is `none` until `haveLastState` is set.
pub record Run (U : Type 0) : Type 0 where
  pub session : Session U
  pub tracepoints : List Tracepoint
  pub last_state : Option LoopState
  pub total_tracepoint_hits : ℕ
  pub bus_cycle : ℕ
  pub total_bus_writes : ℕ

pub data Round (U : Type 0) : Type 0 where
  goes_on : Run U → Round U
  ends : HaltReason → Run U → Round U

unfoldable pub is_write : BusEventKind → Bool
is_write write = true
is_write _ = false

-- `OutputBusStep`: the cycle and the number of writes after the events.
unfoldable pub output_bus_step : List BusEvent → ℕ → ℕ → ℕ × ℕ
output_bus_step [] cycle writes = (cycle, writes)
output_bus_step (event ∷ events) cycle writes =
    output_bus_step events (u64 (cycle + 1))
      (if is_write event.kind then u64 (writes + 1) else writes)

-- Whether the snapshot is that of the round before.
unfoldable pub repeats : Option LoopState → LoopState → Bool
repeats none now = false
repeats (some last) now = same_loop_state now last

module _ {U : Type 0} where
  unfoldable pub waits_for_interrupt : Session U → Bool
  waits_for_interrupt run = sleeps run.state && has_future_interrupts run.interrupts run.step

  -- The loop detection: `none` ends the run.
  unfoldable pub detect_loop : Options → Run U → Option (Run U)
  detect_loop options run =
      let now = capture_loop_state run.session.state in
      if options.loop_detect && not (waits_for_interrupt run.session)
      then (if repeats run.last_state now
          then none
          else some (record run { last_state = some now }))
      else some run

  -- `OutputBusStep` if the bus is traced.
  unfoldable pub trace_bus : Options → List BusEvent → Run U → Run U
  trace_bus options events run =
      let (cycle, writes) = output_bus_step events run.bus_cycle run.total_bus_writes in
      if options.bus_trace then record run { bus_cycle = cycle; total_bus_writes = writes } else run

  -- `tp->hits += 1` and `totalTracepointHits += 1` if `tp` is not null.
  unfoldable pub count_tracepoint : ℕ → Run U → Run U
  count_tracepoint pc run =
      if has_tracepoint run.tracepoints pc
      then record run {
        tracepoints = hit_tracepoint run.tracepoints pc;
        total_tracepoint_hits = u64 (run.total_tracepoint_hits + 1);
      }
      else run

  -- What follows a step that is neither halted nor unimplemented.
  unfoldable pub check_tracepoints : Options → Run U → Round U
  check_tracepoints options run =
      if ltb 0 options.tracepoint_max && leb options.tracepoint_max run.total_tracepoint_hits
      then ends tracepoint_limit run
      else (if options.tracepoint_stop && all_tracepoints_hit run.tracepoints
          then ends tracepoints_hit run
          else goes_on run)

  -- `pending || HasFutureInterrupts(…) || HasActiveTimers(…)`.
  unfoldable pub can_wake : Session U → Bool
  can_wake run =
      not (run.state.nmi_pending == 0)
      || (not (run.state.irq_pending == 0)
          || (has_future_interrupts run.interrupts run.step || has_active_timers run.timers))

  unfoldable pub after_step : Options → StepResult → Run U → Round U
  after_step options halt run = if can_wake run.session then goes_on run else ends hlt run
  after_step options unimplemented run = ends not_implemented run
  after_step options ok run = check_tracepoints options run

  -- A round from the loop detection on.
  unfoldable pub step_round : ℕ → AfterInstruction U → Options → Run U → Option (Round U)
  step_round fuel after options run =
      let pc = run.session.state.pc in
      elim (execute_step fuel after (options.bus_trace || options.io_trace)
        (count_hits run.session)) [
          | none ↦ none
          | some stepped ↦
              let traced = trace_bus options stepped.events run in
              let counted = count_tracepoint pc traced in
              some
                (after_step options stepped.result (record counted { session = stepped.session }))
        ]

  -- What follows the disassembly, whose text goes to the trace alone.
  unfoldable pub check_stop :
      ℕ → AfterInstruction U → Options → Run U → Option Disassembly → Option (Round U)
  check_stop fuel after options run none = none
  check_stop fuel after options run (some disassembly) =
      if is_stop_address run.session.state.pc options.stop_addrs
      then some (ends stop run)
      else elim (detect_loop options run) [
        | none ↦ some (ends loop run)
        | some run' ↦ step_round fuel after options run'
      ]

  -- A round whose interrupts and timers are armed.
  unfoldable pub armed_round : ℕ → AfterInstruction U → Options → Run U → Option (Round U)
  armed_round fuel after options run =
      if is_idle run.session
      then some (goes_on (record run { session = wait_for_timer run.session }))
      else check_stop fuel after options run
          (disassemble_z80_op fuel run.session.state.memory run.session.state.pc 128)

  unfoldable pub run_round : ℕ → AfterInstruction U → Options → Run U → Option (Round U)
  run_round fuel after options run = elim (arm fuel run.session) [
    | none ↦ none
    | some session ↦ armed_round fuel after options (record run { session = session })
  ]

  -- The loop, with fuel for its rounds.
  unfoldable pub run_trace :
      ℕ → ℕ → AfterInstruction U → Options → Run U → Option (HaltReason × Run U)
  run_trace zero fuel after options run = none
  run_trace (suc rounds) fuel after options run =
      if ltb run.session.step options.max_steps
      then elim (run_round fuel after options run) [
        | none ↦ none
        | some (goes_on run') ↦ run_trace rounds fuel after options run'
        | some (ends reason run') ↦ some (reason, run')
      ]
      else some (max_reached, run)
