-- ===== src/Trace/Schedule.antt =====
-- src/main.cpp, lines 32-45 and 653-720: interrupts that are due at a step, timers, and interrupts
-- that a plugin asks for. The loop that catches a timer up takes fuel, one for each round; `none` is
-- a loop that has not ended.
use z80_trace.Common.{ℕ, zero, suc, ◌+◌, Bool, true, false, not, ◌&&◌, ◌||◌, List, [], ◌∷◌, Option}
use z80_trace.Common.{none, some, u64, leb, ◌==◌, if◌then◌else◌}
use z80_trace.Cpu.State.{StateZ80}

pub record InterruptSpec : Type 0 where
  pub nmi : Bool
  pub step : ℕ
  pub vector : ℕ
  pub delivered : Bool

pub record TimerSpec : Type 0 where
  pub nmi : Bool
  pub period : ℕ
  pub next_fire : ℕ
  pub vector : ℕ

-- `irq.delivered || irq.step != step` is the test to leave an interrupt out.
unfoldable pub is_due : ℕ → InterruptSpec → Bool
is_due step irq = not (irq.delivered || not (irq.step == step))

unfoldable pub is_future : ℕ → InterruptSpec → Bool
is_future step irq = not irq.delivered && leb step irq.step

unfoldable pub has_future_interrupts : List InterruptSpec → ℕ → Bool
has_future_interrupts [] step = false
has_future_interrupts (irq ∷ irqs) step = is_future step irq || has_future_interrupts irqs step

unfoldable pub has_active_timers : List TimerSpec → Bool
has_active_timers [] = false
has_active_timers (timer ∷ timers) = not (timer.period == 0) || has_active_timers timers

-- The loop of `ArmTimers` on one timer: whether it is due, and when it fires next.
unfoldable pub catch_up : ℕ → ℕ → ℕ → ℕ → Bool → Option (Bool × ℕ)
catch_up zero clocks period next_fire due = none
catch_up (suc fuel) clocks period next_fire due =
    let again = catch_up fuel clocks period (u64 (next_fire + period)) true in
    if leb next_fire clocks then again else some (due, next_fire)

-- `AfterInstruction` of a plugin: what it asks for, if anything, and its state afterwards. A
-- plugin that is not loaded, or that has no such function, is `none`.
abbrev pub AfterInstruction : Type 0 → Type 0
AfterInstruction V = Option (V → ℕ → ℕ → Option (Bool × ℕ) × V)

module _ {U : Type 0} where
  -- The interrupt is pending: `nmi_pending`, or `irq_pending` with its vector.
  unfoldable pub raise : Bool → ℕ → StateZ80 U → StateZ80 U
  raise nmi vector s =
      if nmi
      then record s { nmi_pending = 1 }
      else record s { irq_pending = 1; irq_vector = vector }

  unfoldable pub arm_interrupts :
      List InterruptSpec → StateZ80 U → ℕ → List InterruptSpec × StateZ80 U
  arm_interrupts [] s step = ([], s)
  arm_interrupts (irq ∷ irqs) s step =
      if is_due step irq
      then (let (irqs', s') = arm_interrupts irqs (raise irq.nmi irq.vector s) step in
          (record irq { delivered = true } ∷ irqs', s'))
      else (let (irqs', s') = arm_interrupts irqs s step in (irq ∷ irqs', s'))

  -- One timer; one of period 0 is left out.
  unfoldable pub arm_timer : ℕ → ℕ → TimerSpec → StateZ80 U → Option (TimerSpec × StateZ80 U)
  arm_timer fuel clocks timer s =
      if timer.period == 0
      then some (timer, s)
      else elim (catch_up fuel clocks timer.period timer.next_fire false) [
        | none ↦ none
        | some (due, next_fire) ↦ some (
          record timer { next_fire = next_fire },
          if due then raise timer.nmi timer.vector s else s,
        )
      ]

  unfoldable pub arm_timers :
      ℕ → ℕ → List TimerSpec → StateZ80 U → Option (List TimerSpec × StateZ80 U)
  arm_timers fuel clocks [] s = some ([], s)
  arm_timers fuel clocks (timer ∷ timers) s = elim (arm_timer fuel clocks timer s) [
    | none ↦ none
    | some (timer', s') ↦ elim (arm_timers fuel clocks timers s') [
      | none ↦ none
      | some (timers', s'') ↦ some (timer' ∷ timers', s'')
    ]
  ]

  unfoldable pub arm_plugin_interrupt : AfterInstruction U → ℕ → ℕ → StateZ80 U → StateZ80 U
  arm_plugin_interrupt none step clocks s = s
  arm_plugin_interrupt (some callback) step clocks s =
      let (asked, user) = callback s.io_user step clocks in
      elim asked [
        | none ↦ record s { io_user = user }
        | some (nmi, vector) ↦ raise nmi vector (record s { io_user = user })
      ]
