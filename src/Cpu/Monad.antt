-- ===== src/Cpu/Monad.antt =====
-- Functions that read and change the machine, in the order in which the C code does. The operations
-- are shut, so that a proof can follow the shape of a function; `run_cpu` opens all of them.
use z80_trace.Common.{Bool, if◌then◌else◌}
use z80_trace.Cpu.State.{StateZ80, Machine}

abbrev pub Cpu : Type 0 → Type 0 → Type 0
Cpu U A = Machine U → A × Machine U

-- A function of the C code that is handed the processor alone.
abbrev pub OnState : Type 0 → Type 0 → Type 0
OnState U A = StateZ80 U → A × StateZ80 U

module _ {U : Type 0} where
  infixl 5 ◌>>=◌ ◌>>◌
  unfoldable pub ◌>>=◌ : {A B : Type 0} → Cpu U A → (A → Cpu U B) → Cpu U B
  ◌>>=◌ p k m = let (x, m') = p m in k x m'

  unfoldable pub ◌>>◌ : {A B : Type 0} → Cpu U A → Cpu U B → Cpu U B
  ◌>>◌ p q m = let (x, m') = p m in q m'

  unfoldable pub pure : {A : Type 0} → A → Cpu U A
  pure x m = (x, m)

  -- Reads from the processor.
  unfoldable pub gets : {A : Type 0} → (StateZ80 U → A) → Cpu U A
  gets g m = (g m.state, m)

  -- Assignments to its fields.
  unfoldable pub modify : (StateZ80 U → StateZ80 U) → Cpu U (Unit {0})
  modify g m = (tt, record m { state = g m.state })

  unfoldable pub lift : {A : Type 0} → OnState U A → Cpu U A
  lift g m = let (x, s) = g m.state in (x, record m { state = s })

  unfoldable pub when : Bool → Cpu U (Unit {0}) → Cpu U (Unit {0})
  unfolding pure
  when b p = if b then p else pure tt

  -- Run a function on a machine.
  unfoldable pub run_cpu : {A : Type 0} → Cpu U A → Machine U → A × Machine U
  unfolding ◌>>=◌ ◌>>◌ pure gets modify lift when
  run_cpu p m = p m
