-- ===== src/Trace/Session.antt =====
-- src/main.cpp, the parts that the trace loop (lines 1649-1655, 1690-1694 and 1711-1713),
-- `StepDebug` (lines 1048-1069) and `ContinueDebug` (lines 1094-1121) have in common: what a run
-- keeps, and one step of it with interrupts and timers.
use z80_trace.Common.{ℕ, ◌+◌, Bool, not, ◌&&◌, List, [], Option, none, some, u64, ◌==◌}
use z80_trace.Common.{if◌then◌else◌}
use z80_trace.Cpu.State.{StateZ80, ExecutionStats, Machine, StepResult, BusEvent}
use z80_trace.Cpu.Step.{emulate_op}
use z80_trace.Trace.Schedule.{
  InterruptSpec, TimerSpec, AfterInstruction, arm_interrupts, arm_timers,
}
use z80_trace.Trace.Schedule.{has_active_timers, arm_plugin_interrupt}

pub record Session (U : Type 0) : Type 0 where
  pub state : StateZ80 U
  pub stats : ExecutionStats
  pub interrupts : List InterruptSpec
  pub timers : List TimerSpec
  pub step : ℕ
  pub pc_hits : ℕ → ℕ
  pub op_hits : ℕ → ℕ

-- What `EmulateZ80Op` returns, with the events of the step and the session afterwards.
pub record Stepped (U : Type 0) : Type 0 where
  pub result : StepResult
  pub events : List BusEvent
  pub session : Session U

unfoldable pub add_hit : ℕ → (ℕ → ℕ) → ℕ → ℕ
add_hit at hits x = if x == at then u64 (hits x + 1) else hits x

unfoldable pub stats_or : ExecutionStats → Option ExecutionStats → ExecutionStats
stats_or stats none = stats
stats_or stats (some filled) = filled

unfoldable pub events_of : Option (List BusEvent) → List BusEvent
events_of none = []
events_of (some events) = events

module _ {U : Type 0} where
  -- `ArmInterrupts` and `ArmTimers`.
  unfoldable pub arm : ℕ → Session U → Option (Session U)
  arm fuel run =
      let armed = arm_interrupts run.interrupts run.state run.step in
      elim (arm_timers fuel run.stats.total_tstates run.timers armed.1) [
        | none ↦ none
        | some (timers, s) ↦ some (record run { interrupts = armed.0; timers = timers; state = s })
      ]

  -- `!state->nmi_pending && !state->irq_pending` of a processor that is halted.
  unfoldable pub sleeps : StateZ80 U → Bool
  sleeps s = not (s.halted == 0) && (s.nmi_pending == 0 && s.irq_pending == 0)

  unfoldable pub is_idle : Session U → Bool
  is_idle run = sleeps run.state && has_active_timers run.timers

  -- `total_tstates += 4`.
  unfoldable pub wait_for_timer : Session U → Session U
  wait_for_timer run = record run {
    stats = record (run.stats) { total_tstates = u64 (run.stats.total_tstates + 4) };
  }

  unfoldable pub count_hits : Session U → Session U
  count_hits run = record run {
    pc_hits = add_hit run.state.pc run.pc_hits;
    op_hits = add_hit (run.state.memory run.state.pc) run.op_hits;
  }

  -- The step is counted, and the plugin may ask for an interrupt.
  unfoldable pub finish_step : AfterInstruction U → Session U → Machine U → Session U
  finish_step after run m =
      let step = u64 (run.step + 1) in
      let stats = stats_or run.stats m.stats in
      record run {
        state = arm_plugin_interrupt after step stats.total_tstates m.state;
        stats = stats;
        step = step;
      }

  -- `EmulateZ80Op`, with an array for its events if it is traced.
  unfoldable pub execute_step : ℕ → AfterInstruction U → Bool → Session U → Option (Stepped U)
  execute_step fuel after traced run =
      let (result, m) = emulate_op fuel (record {
        state = run.state;
        stats = some run.stats;
        events = if traced then some [] else none;
      }) in
      elim result [
        | none ↦ none
        | some r ↦
            some (record {
              result = r;
              events = events_of m.events;
              session = finish_step after run m;
            })
      ]
