-- ===== src/Trace/Timers.antt =====
-- src/main.cpp, lines 668-688: after `ArmTimers` every timer fires later.
use z80_trace.Common.{ℕ, zero, suc, ◌+◌, ◌<◌, ◌≤◌, ◌^◌, max, Bool, true, false, ◌||◌, List, [], ◌∷◌}
use z80_trace.Common.{Option, none, some, ◌≡◌, refl, inl, inr, Bool-cases, arith, u64, ltb, leb}
use z80_trace.Common.{◌==◌}
use z80_trace.Cpu.State.{StateZ80}
use z80_trace.Trace.Schedule.{TimerSpec, catch_up, arm_timer, arm_timers}

-- The loop ends. The timer is due if it was or if its time has come, and the next time is after the
-- clock, but by no more than a period if the timer is due.
abbrev pub CaughtUp : ℕ → ℕ → ℕ → Bool → Option (Bool × ℕ) → Type 0
CaughtUp clocks period next_fire due none = true ≡ false
CaughtUp clocks period next_fire due (some (due', fire)) =
    (due' ≡ (due || leb next_fire clocks))
    × (clocks < fire)
    × (fire ≤ max next_fire (clocks + period))

again_round :
    (clocks period next_fire : ℕ) (due : Bool) (r : Option (Bool × ℕ))
    → leb next_fire clocks ≡ true
    → clocks + period < 2 ^ 64
    → CaughtUp clocks period (u64 (next_fire + period)) true r
    → CaughtUp clocks period next_fire due r
again_round clocks period next_fire due none reached small h = h
again_round clocks period next_fire due (some (due', fire)) reached small h =
    (ground (arith, h.0), h.1, ground (arith, h.2))

catch_up-CaughtUp :
    (fuel clocks period next_fire : ℕ) (due : Bool)
    → 0 < period
    → clocks + period < 2 ^ 64
    → clocks < next_fire + fuel
    → CaughtUp clocks period next_fire due (catch_up (suc fuel) clocks period next_fire due)
unfolding catch_up
catch_up-CaughtUp zero clocks period next_fire due positive small enough =
    let later : leb next_fire clocks ≡ false = ground arith in
    rw (later) (ground arith, omega arith, omega arith)
catch_up-CaughtUp (suc fuel) clocks period next_fire due positive small enough =
    elim (Bool-cases (leb next_fire clocks)) [
      | inl reached ↦
          let next : ℕ = u64 (next_fire + period) in
          let round =
            again_round clocks period next_fire due (catch_up (suc fuel) clocks period next true)
              reached small in
          rw (reached)
            (round (catch_up-CaughtUp fuel clocks period next true positive small (ground arith)))
      | inr later ↦ rw (catch_up, later) (ground arith, ground arith, omega arith)
    ]

-- A timer that is not used, or whose next time is after the clock.
abbrev pub IsAhead : ℕ → TimerSpec → Type 0
IsAhead clocks timer = (timer.period == 0 || ltb clocks timer.next_fire) ≡ true

abbrev pub AllAhead : ℕ → List TimerSpec → Type 0
AllAhead clocks [] = Unit
AllAhead clocks (timer ∷ timers) = IsAhead clocks timer × AllAhead clocks timers

-- The clock can be a period of each timer later.
abbrev pub HaveRoom : ℕ → List TimerSpec → Type 0
HaveRoom clocks [] = Unit
HaveRoom clocks (timer ∷ timers) = (clocks + timer.period < 2 ^ 64) × HaveRoom clocks timers

module _ {U : Type 0} where
  -- The timer or the timers that are returned are ahead of the clock.
  abbrev ReturnsTimer : ℕ → Option (TimerSpec × StateZ80 U) → Type 0
  ReturnsTimer clocks none = true ≡ false
  ReturnsTimer clocks (some (timer, s)) = IsAhead clocks timer

  abbrev pub ReturnsAhead : ℕ → Option (List TimerSpec × StateZ80 U) → Type 0
  ReturnsAhead clocks none = true ≡ false
  ReturnsAhead clocks (some (timers, s)) = AllAhead clocks timers

  fired :
      (fuel clocks : ℕ) (timer : TimerSpec) (s : StateZ80 U) (r : Option (Bool × ℕ))
      → (timer.period == 0) ≡ false
      → catch_up fuel clocks timer.period timer.next_fire false ≡ r
      → CaughtUp clocks timer.period timer.next_fire false r
      → ReturnsTimer clocks (arm_timer fuel clocks timer s)
  unfolding arm_timer
  fired fuel clocks timer s none used e h = absurd (ground (arith, h))
  fired fuel clocks timer s (some (due, fire)) used e h =
      rw (arm_timer, used, e) (ground (arith, h.1))

  arm_timer-ahead :
      (fuel clocks : ℕ) (timer : TimerSpec) (s : StateZ80 U)
      → clocks + timer.period < 2 ^ 64
      → suc clocks < fuel
      → ReturnsTimer clocks (arm_timer fuel clocks timer s)
  unfolding arm_timer
  arm_timer-ahead zero clocks timer s small enough = absurd (omega arith)
  arm_timer-ahead (suc fuel) clocks timer s small enough = elim (Bool-cases (timer.period == 0)) [
    | inl unused ↦ rw (arm_timer, unused) (rw (unused) refl)
    | inr used ↦ fired (suc fuel) clocks timer s _ used refl (
        catch_up-CaughtUp fuel clocks timer.period timer.next_fire false (ground arith) small
          (omega arith))
  ]

  cons_timers :
      (fuel clocks : ℕ) (timer : TimerSpec) (timers : List TimerSpec) (s : StateZ80 U)
      (timer' : TimerSpec) (t : StateZ80 U) (r : Option (List TimerSpec × StateZ80 U))
      → arm_timer fuel clocks timer s ≡ some (timer', t)
      → arm_timers fuel clocks timers t ≡ r
      → IsAhead clocks timer'
      → ReturnsAhead clocks r
      → ReturnsAhead clocks (arm_timers fuel clocks (timer ∷ timers) s)
  unfolding arm_timers
  cons_timers fuel clocks timer timers s timer' t none first e ahead h = absurd (ground (arith, h))
  cons_timers fuel clocks timer timers s timer' t (some (timers', u)) first e ahead h =
      rw (arm_timers, first, e) (ahead, h)

  join_timers :
      (fuel clocks : ℕ) (timer : TimerSpec) (timers : List TimerSpec) (s : StateZ80 U)
      (r : Option (TimerSpec × StateZ80 U))
      → arm_timer fuel clocks timer s ≡ r
      → ReturnsTimer clocks r
      → ((t : StateZ80 U) → ReturnsAhead clocks (arm_timers fuel clocks timers t))
      → ReturnsAhead clocks (arm_timers fuel clocks (timer ∷ timers) s)
  unfolding arm_timers
  join_timers fuel clocks timer timers s none e h rest = absurd (ground (arith, h))
  join_timers fuel clocks timer timers s (some (timer', t)) e h rest =
      cons_timers fuel clocks timer timers s timer' t _ e refl h (rest t)

  -- `ArmTimers` ends, and afterwards every timer that is used fires after the clock: fuel above the
  -- clock by two is enough, if the clock and a period do not pass 2 ^ 64.
  pub arm_timers-ReturnsAhead :
      (fuel clocks : ℕ) (timers : List TimerSpec) (s : StateZ80 U)
      → HaveRoom clocks timers
      → suc clocks < fuel
      → ReturnsAhead clocks (arm_timers fuel clocks timers s)
  unfolding arm_timers
  arm_timers-ReturnsAhead fuel clocks [] s room enough = tt
  arm_timers-ReturnsAhead fuel clocks (timer ∷ timers) s room enough =
      join_timers fuel clocks timer timers s _ refl
        (arm_timer-ahead fuel clocks timer s room.0 enough)
        (λ t. arm_timers-ReturnsAhead fuel clocks timers t room.1 enough)
