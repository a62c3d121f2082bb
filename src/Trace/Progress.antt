-- ===== src/Trace/Progress.antt =====
-- src/main.cpp, lines 1648-1742: a round of the trace loop that goes on has counted a step, or waited
-- for a timer.
use z80_trace.Common.{ℕ, ◌+◌, Bool, List, [], Option, none, some, ◌≡◌, refl, ◌⊎◌, inl}
use z80_trace.Common.{inr, u64, ap, if◌then◌else◌}
use z80_trace.Cpu.State.{StateZ80, Machine}
use z80_trace.Cpu.Step.{emulate_op}
use z80_trace.Trace.Schedule.{TimerSpec, AfterInstruction, arm_interrupts, arm_timers}
use z80_trace.Trace.Session.{Session, arm, count_hits, finish_step, events_of}
use z80_trace.Trace.Session.{execute_step, wait_for_timer}
use z80_trace.Trace.Round.{Options, Run, Round, run_round}
use z80_trace.Trace.Leaves.{Leaves, StepLeaves, run_round-Leaves}

-- A step is counted, or the clock is four later at the same step.
abbrev pub Progress : {U : Type 0} → Session U → Session U → Type 0
Progress before after =
    (after.step ≡ u64 (before.step + 1))
    ⊎ ((after.step ≡ before.step)
        × (after.stats.total_tstates ≡ u64 (before.stats.total_tstates + 4)))

module _ {U : Type 0} where
  -- What holds of a round if it goes on.
  abbrev pub MakesProgress : Session U → Option (Round U) → Type 0
  MakesProgress before = Leaves (Progress before)

  -- The parts of a step: what `EmulateZ80Op` returns, then what is done with it.
  pub execute_step-StepLeaves :
      (P : Session U → Type 0) (fuel : ℕ) (after : AfterInstruction U) (traced : Bool)
      (run : Session U)
      → ((m : Machine U) → P (finish_step after run m))
      → StepLeaves P (execute_step fuel after traced run)
  unfolding execute_step
  execute_step-StepLeaves P fuel after traced run h =
      let machine : Machine U = record {
        state = run.state;
        stats = some run.stats;
        events = if traced then some [] else none;
      } in
      elim (emulate_op fuel machine).0
        as (λ r. StepLeaves P (elim r [
          | none ↦ none
          | some result ↦ some (record {
            result = result;
            events = events_of (emulate_op fuel machine).1.events;
            session = finish_step after run (emulate_op fuel machine).1;
          })
        ])) [ none ↦ tt | some result ↦ h (emulate_op fuel machine).1 ]

  -- Arming leaves the step and the clock as they are.
  abbrev pub SameClock : Session U → Option (Session U) → Type 0
  SameClock run none = Unit
  SameClock run (some armed) = (armed.step ≡ run.step) × (armed.stats ≡ run.stats)

  armed-SameClock :
      (fuel : ℕ) (run : Session U) (r : Option (List TimerSpec × StateZ80 U))
      → arm_timers fuel run.stats.total_tstates run.timers
          (arm_interrupts run.interrupts run.state run.step).1
        ≡ r
      → SameClock run (arm fuel run)
  unfolding arm
  armed-SameClock fuel run none e = rw (arm, e) tt
  armed-SameClock fuel run (some (timers, s)) e = rw (arm, e) (refl, refl)

  pub arm-SameClock :
      (fuel : ℕ) (run armed : Session U)
      → arm fuel run ≡ some armed
      → (armed.step ≡ run.step) × (armed.stats ≡ run.stats)
  arm-SameClock fuel run armed e = rw (e) at (armed-SameClock fuel run _ refl)

  -- A round of the trace loop that goes on has counted one step, or the clock is four cycles later at
  -- the same step; whatever the processor, the options and the plugin.
  pub run_round-MakesProgress :
      (fuel : ℕ) (after : AfterInstruction U) (options : Options) (run : Run U)
      → MakesProgress run.session (run_round fuel after options run)
  unfolding wait_for_timer finish_step count_hits
  run_round-MakesProgress fuel after options run =
      run_round-Leaves fuel after (Progress run.session) options run _ refl (λ armed e.
        let same = arm-SameClock fuel run.session armed e in
        (
          inr (same.0, ap (λ stats. u64 (stats.total_tstates + 4)) same.1),
          λ traced.
              execute_step-StepLeaves (Progress run.session) fuel after traced (count_hits armed)
                (λ m. inl (ap (λ n. u64 (n + 1)) same.0)),
        ))
