-- ===== src/Gdb/Follow.antt =====
-- src/main.cpp, lines 1043-1078: `StepDebug` and the interrupt that a plugin asks for.
use z80_trace.Common.{ℕ, Bool, false, Option, none, some, ◌≡◌, ◌≢◌, refl, inl, inr}
use z80_trace.Common.{Bool-cases, ◌∙◌}
use z80_trace.Trace.Session.{Session, Stepped, arm, is_idle, wait_for_timer, count_hits}
use z80_trace.Trace.Session.{execute_step}
use z80_trace.Trace.Leaves.{StepLeaves}
use z80_trace.Trace.Progress.{arm-SameClock}
use z80_trace.Trace.Requested.{IsRaised, Asks, Answers, answered, execute_step-Answers}
use z80_trace.Gdb.Debug.{StopReply, DebugOptions, resume_at, step_armed, step_debug}

module _ {U : Type 0} where
  -- What holds of the session that a step under the debugger leaves.
  abbrev DebugLeaves : (Session U → Type 0) → Option (StopReply × Session U) → Type 0
  DebugLeaves P none = Unit
  DebugLeaves P (some (reply, session)) = P session

  resume_at-step : (new_pc : Option ℕ) (run : Session U) → (resume_at new_pc run).step ≡ run.step
  unfolding resume_at
  resume_at-step none run = refl
  resume_at-step (some pc) run = refl

  module _ (fuel : ℕ) (callback : U → ℕ → ℕ → Option (Bool × ℕ) × U) (nmi : Bool) (vector : ℕ)
      (options : DebugOptions) (step : ℕ) where
    stepped-Answers :
        (armed : Session U) (r : Option (Stepped U))
        → execute_step fuel (some callback) options.io_trace (count_hits armed) ≡ r
        → is_idle armed ≡ false
        → StepLeaves (Answers callback nmi vector step) r
        → DebugLeaves
            (Answers callback nmi vector step)
            (step_armed fuel (some callback) options armed)
    unfolding step_armed
    stepped-Answers armed none e awake h = rw (step_armed, awake, e) tt
    stepped-Answers armed (some stepped) e awake h = rw (step_armed, awake, e) h

    armed-Answers :
        (armed : Session U)
        → armed.step ≡ step
        → DebugLeaves
            (Answers callback nmi vector step)
            (step_armed fuel (some callback) options armed)
    unfolding step_armed wait_for_timer
    armed-Answers armed same = elim (Bool-cases (is_idle armed)) [
      | inl idle ↦ rw (idle) (inl same)
      | inr awake ↦
          stepped-Answers armed _ refl awake
            (execute_step-Answers callback nmi vector fuel step armed options.io_trace)
    ]

    step_debug-Answers :
        (new_pc : Option ℕ) (run : Session U) (r : Option (Session U))
        → run.step ≡ step
        → arm fuel (resume_at new_pc run) ≡ r
        → DebugLeaves
            (Answers callback nmi vector step)
            (step_debug fuel (some callback) options new_pc run)
    unfolding step_debug
    step_debug-Answers new_pc run none same e = rw (step_debug, e) tt
    step_debug-Answers new_pc run (some armed) same e =
        rw (step_debug, e)
          (armed-Answers armed (
            (arm-SameClock fuel (resume_at new_pc run) armed e).0
            ∙ resume_at-step new_pc run
            ∙ same))

  -- If a plugin asks for an interrupt after a step that the debugger counts, whatever its own state and
  -- the clock, it is pending when the debugger answers, a maskable one with its vector; whether the
  -- client gave an address or not.
  pub step_debug-IsRaised :
      (callback : U → ℕ → ℕ → Option (Bool × ℕ) × U) (nmi : Bool) (vector fuel : ℕ)
      (options : DebugOptions) (new_pc : Option ℕ) (reply : StopReply) (run run' : Session U)
      → step_debug fuel (some callback) options new_pc run ≡ some (reply, run')
      → run'.step ≢ run.step
      → Asks callback nmi vector run'.step
      → IsRaised nmi vector run'.state
  step_debug-IsRaised callback nmi vector fuel options new_pc reply run run' e counted asks =
      answered callback nmi vector run.step run'
        (rw (e) at
          (step_debug-Answers fuel callback nmi vector options run.step new_pc run _ refl refl))
        counted asks
