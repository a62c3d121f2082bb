-- ===== src/Trace/Delivery.antt =====
-- src/main.cpp, lines 653-666: `ArmInterrupts` raises what is due, and each interrupt once.
use z80_trace.Common.{ℕ, Bool, true, false, not, ◌&&◌, ◌||◌, List, [], ◌∷◌, ◌≡◌, refl, inl, inr}
use z80_trace.Common.{Bool-cases, arith, if◌then◌else◌, ◌==◌, sym, ◌∙◌}
use z80_trace.Cpu.State.{StateZ80}
use z80_trace.Trace.Schedule.{InterruptSpec, is_due, raise, arm_interrupts}

-- Whether an interrupt of the kind is set for the step and not delivered, and the vector of the last
-- maskable one that is.
unfoldable pub any_due : Bool → List InterruptSpec → ℕ → Bool
any_due nmi [] step = false
any_due nmi (irq ∷ irqs) step =
    ((irq.step == step && not irq.delivered) && (if nmi then irq.nmi else not irq.nmi))
    || any_due nmi irqs step

unfoldable pub last_vector : ℕ → List InterruptSpec → ℕ → ℕ
last_vector vector [] step = vector
last_vector vector (irq ∷ irqs) step =
    last_vector
      (if (irq.step == step && not irq.delivered) && not irq.nmi then irq.vector else vector) irqs
      step

is_due-set :
    (step : ℕ) (irq : InterruptSpec) → is_due step irq ≡ (irq.step == step && not irq.delivered)
unfolding is_due
is_due-set step irq = ground arith

module _ {U : Type 0} where
  -- Arming the interrupts of a step a second time changes nothing: each is delivered once.
  pub arm_interrupts-arm_interrupts :
      (irqs : List InterruptSpec) (s t : StateZ80 U) (step : ℕ)
      → arm_interrupts (arm_interrupts irqs s step).0 t step ≡ ((arm_interrupts irqs s step).0, t)
  unfolding arm_interrupts is_due
  arm_interrupts-arm_interrupts [] s t step = refl
  arm_interrupts-arm_interrupts (irq ∷ irqs) s t step = elim (Bool-cases (is_due step irq)) [
    | inl due ↦
        rw (due, arm_interrupts-arm_interrupts irqs (raise irq.nmi irq.vector s) t step) refl
    | inr not_due ↦
        rw (not_due, arm_interrupts, not_due, arm_interrupts-arm_interrupts irqs s t step) refl
  ]

  -- `nmi_pending` and `irq_pending` are set exactly if an interrupt of their kind is set for this step
  -- and not yet delivered, and the vector is that of the last such maskable interrupt; without one the
  -- three stay as they are.
  pub arm_interrupts-any_due :
      (irqs : List InterruptSpec) (s : StateZ80 U) (step : ℕ)
      → ((arm_interrupts irqs s step).1.nmi_pending
          ≡ (if any_due true irqs step then 1 else s.nmi_pending))
        × ((arm_interrupts irqs s step).1.irq_pending
            ≡ (if any_due false irqs step then 1 else s.irq_pending))
        × ((arm_interrupts irqs s step).1.irq_vector ≡ last_vector s.irq_vector irqs step)
  unfolding arm_interrupts any_due last_vector raise
  arm_interrupts-any_due [] s step = (refl, refl, refl)
  arm_interrupts-any_due (irq ∷ irqs) s step =
      let raised = arm_interrupts-any_due irqs (raise irq.nmi irq.vector s) step in
      let left = arm_interrupts-any_due irqs s step in
      elim (Bool-cases (is_due step irq)) [
        | inl due ↦ elim (Bool-cases irq.nmi) [
          | inl nmi ↦
              let next = rw (nmi) at raised in
              rw (due, sym (is_due-set step irq) ∙ due, nmi)
                (ground (arith, next.0), ground (arith, next.1), ground (arith, next.2))
          | inr maskable ↦
              let next = rw (maskable) at raised in
              rw (due, sym (is_due-set step irq) ∙ due, maskable)
                (ground (arith, next.0), ground (arith, next.1), ground (arith, next.2))
        ]
        | inr not_due ↦ rw (not_due, sym (is_due-set step irq) ∙ not_due) left
      ]
