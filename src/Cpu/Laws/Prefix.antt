-- ===== src/Cpu/Laws/Prefix.antt =====
-- src/z80_exec.c, lines 1052-1056, the loop over the bytes DD and FD: the fuel that it needs.
use z80_trace.Common.{
  ℕ, zero, suc, ◌+◌, ◌-◌, ◌≤◌, ◌%◌, Bool, true, false, not, Option, none, some, u16, ◌==◌,
}
use z80_trace.Common.{
  if◌then◌else◌, ◌≡◌, ◌≢◌, ◌⊎◌, ◌&&◌, refl, sym, ◌∙◌, ap, inl, inr, Bool-cases, arith,
}
use z80_trace.Cpu.State.{StateZ80, Machine, StepResult}
use z80_trace.Cpu.Monad.{Cpu, run_cpu, ◌>>=◌, pure}
use z80_trace.Cpu.Registers.{IndexMode, index_none}
use z80_trace.Cpu.Bus.{fetch_opcode_byte, trace_event, increment_r, advance_pc}
use z80_trace.Cpu.Step.{is_prefix, prefix_index, begin_step, skip_prefixes, run_opcode}
use z80_trace.Cpu.Step.{execute_instruction, irq_accepted, emulate_op}
use z80_trace.Cpu.Valid.Defs.{IsWord}

pub some-none : {A : Type 0} {x : A} → some x ≢ none
some-none h = ground arith

held_back :
    (ei irq iff1 : ℕ)
    → (irq ≡ 0) ⊎ (iff1 ≡ 0) ⊎ (ei ≢ 0)
    → (not (irq == 0) && (not (iff1 == 0) && ei == 0)) ≡ false
held_back ei irq iff1 h = ground arith

module _ {U : Type 0} where
  module _ (fuel : ℕ) (index : IndexMode) (op : ℕ) where
    pub stop :
        is_prefix op ≡ false → skip_prefixes {U = U} (suc fuel) index op ≡ pure (some (index, op))
    unfolding skip_prefixes
    stop h = rw (skip_prefixes, h) refl

    again :
        is_prefix op ≡ true
        → skip_prefixes {U = U} (suc fuel) index op
          ≡ (fetch_opcode_byte >>= λ next. skip_prefixes fuel (prefix_index op) next)
    unfolding skip_prefixes
    again h = rw (skip_prefixes, h) refl

  -- The machine once a byte is fetched.
  unfoldable pub fetched : Machine U → Machine U
  fetched m = (fetch_opcode_byte m).1

  pub fetched-memory : (m : Machine U) → (fetched m).state.memory ≡ m.state.memory
  unfolding fetched run_cpu fetch_opcode_byte trace_event increment_r advance_pc
  fetched-memory m = refl

  pub fetched-pc : (m : Machine U) → (fetched m).state.pc ≡ u16 (m.state.pc + 1)
  unfolding fetched run_cpu fetch_opcode_byte trace_event increment_r advance_pc
  fetched-pc m = refl

  pub fetched-byte : (m : Machine U) → (fetch_opcode_byte m).0 ≡ m.state.memory m.state.pc
  unfolding run_cpu fetch_opcode_byte trace_event increment_r advance_pc
  fetched-byte m = refl

  pub step_again :
      (fuel : ℕ) (index : IndexMode) (op : ℕ) (m : Machine U)
      → is_prefix op ≡ true
      → skip_prefixes (suc fuel) index op m
        ≡ skip_prefixes fuel (prefix_index op) (m.state.memory m.state.pc) (fetched m)
  unfolding ◌>>=◌ fetched
  step_again fuel index op m h =
      ap (λ p. p m) (again fuel index op h)
      ∙ ap (λ b. skip_prefixes fuel (prefix_index op) b (fetch_opcode_byte m).1) (fetched-byte m)

  -- A byte that is no prefix ends the loop at once.
  stops :
      (fuel : ℕ) (index : IndexMode) (op : ℕ) (m : Machine U)
      → is_prefix op ≡ false
      → (skip_prefixes (suc fuel) index op m).0 ≢ none
  unfolding pure
  stops fuel index op m h e = some-none (sym (ap (λ p. (p m).0) (stop fuel index op h)) ∙ e)

  here : (m : Machine U) → IsWord m.state.pc → u16 (m.state.pc + 0) ≡ m.state.pc
  here m hp = omega arith

  -- The byte `n` ahead of the next is the one `n + 1` ahead.
  ahead :
      (n : ℕ) (m : Machine U)
      → is_prefix ((fetched m).state.memory (u16 ((fetched m).state.pc + n)))
        ≡ is_prefix (m.state.memory (u16 (m.state.pc + suc n)))
  ahead n m = ap is_prefix (
      ap (λ g. g (u16 ((fetched m).state.pc + n))) (fetched-memory m)
      ∙ ap m.state.memory (ap (λ pc. u16 (pc + n)) (fetched-pc m) ∙ omega arith))

  -- So does one that is `n` bytes ahead.
  finds :
      (n fuel : ℕ) (index : IndexMode) (op : ℕ) (m : Machine U)
      → n ≤ fuel
      → is_prefix (m.state.memory (u16 (m.state.pc + n))) ≡ false
      → IsWord m.state.pc
      → (skip_prefixes (suc (suc fuel)) index op m).0 ≢ none
  finds zero fuel index op m le h hp = elim (Bool-cases (is_prefix op)) [
    | inl goes_on ↦
        rw (step_again (suc fuel) index op m goes_on)
          (stops fuel (prefix_index op) _ (fetched m) (rw (here m hp) at h))
    | inr ends ↦ stops (suc fuel) index op m ends
  ]
  finds (suc n) zero index op m le h hp = absurd (omega arith)
  finds (suc n) (suc fuel) index op m le h hp = elim (Bool-cases (is_prefix op)) [
    | inl goes_on ↦ rw (step_again (suc (suc fuel)) index op m goes_on) (
        finds n fuel (prefix_index op) _ (fetched m) (omega arith) (ahead n m ∙ h)
          (rw (fetched-pc m) (omega arith)))
    | inr ends ↦ stops (suc (suc fuel)) index op m ends
  ]

  -- With any byte of memory that is no prefix, 65537 rounds are enough from every `PC`.
  pub skip_prefixes-returns :
      (x fuel : ℕ) (index : IndexMode) (op : ℕ) (m : Machine U)
      → IsWord x
      → IsWord m.state.pc
      → is_prefix (m.state.memory x) ≡ false
      → 65537 ≤ fuel
      → (skip_prefixes fuel index op m).0 ≢ none
  skip_prefixes-returns x zero index op m hx hp h le = absurd (omega arith)
  skip_prefixes-returns x (suc zero) index op m hx hp h le = absurd (omega arith)
  skip_prefixes-returns x (suc (suc fuel)) index op m hx hp h le =
      let e : u16 (m.state.pc + (x + 65536 - m.state.pc) % 65536) ≡ x = omega arith in
      finds ((x + 65536 - m.state.pc) % 65536) fuel index op m (omega arith)
        (ap (λ y. is_prefix (m.state.memory y)) e ∙ h) hp

  -- Where every byte is a prefix, no fuel is enough.
  pub skip_prefixes-loops :
      (fuel : ℕ) (index : IndexMode) (op : ℕ) (m : Machine U)
      → is_prefix op ≡ true
      → ((x : ℕ) → is_prefix (m.state.memory x) ≡ true)
      → (skip_prefixes fuel index op m).0 ≡ none
  unfolding skip_prefixes pure
  skip_prefixes-loops zero index op m h all = refl
  skip_prefixes-loops (suc fuel) index op m h all = rw (step_again fuel index op m h) (
      skip_prefixes-loops fuel (prefix_index op) _ (fetched m) (all m.state.pc)
        (λ x. ap (λ g. is_prefix (g x)) (fetched-memory m) ∙ all x))

  pub run_opcode-returns :
      (found : Option (IndexMode × ℕ)) (m : Machine U)
      → found ≢ none
      → (run_opcode found m).0 ≢ none
  unfolding run_opcode run_cpu
  run_opcode-returns none m h = absurd (h refl)
  run_opcode-returns (some (index, op)) m h = some-none

  execute_instruction-returns :
      (x fuel : ℕ) (m : Machine U)
      → IsWord x
      → IsWord m.state.pc
      → is_prefix (m.state.memory x) ≡ false
      → 65537 ≤ fuel
      → (execute_instruction fuel m).0 ≢ none
  unfolding execute_instruction ◌>>=◌ fetched
  execute_instruction-returns x fuel m hx hp h le = run_opcode-returns _ _ (
      skip_prefixes-returns x fuel index_none _ (fetched m) hx (rw (fetched-pc m) (omega arith))
        (ap (λ g. is_prefix (g x)) (fetched-memory m) ∙ h) le)

  execute_instruction-loops :
      (fuel : ℕ) (m : Machine U)
      → ((x : ℕ) → is_prefix (m.state.memory x) ≡ true)
      → (execute_instruction fuel m).0 ≡ none
  unfolding execute_instruction run_opcode ◌>>=◌ pure fetched
  execute_instruction-loops fuel m all =
      let after = (skip_prefixes fuel index_none (fetch_opcode_byte m).0 (fetched m)).1 in
      ap (λ found. (run_opcode {U = U} found after).0)
        (skip_prefixes-loops fuel index_none _ (fetched m) (ap is_prefix (fetched-byte m) ∙ all _)
          (λ x. ap (λ g. is_prefix (g x)) (fetched-memory m) ∙ all x))

  -- Either branch, run on a machine.
  either :
      {A : Type 0} (P : A → Type 0) (b : Bool) (p q : Cpu U A) (m : Machine U)
      → P (p m).0
      → P (q m).0
      → P ((if b then p else q) m).0
  either P true p q m hp hq = hp
  either P false p q m hp hq = hq

  -- A step returns: with the program counter a word and a byte of memory, at an address below
  -- 65536, that is neither DD nor FD, every fuel from 65537 on gives a result.
  pub emulate_op-returns :
      (x fuel : ℕ) (m : Machine U)
      → IsWord x
      → IsWord m.state.pc
      → is_prefix (m.state.memory x) ≡ false
      → 65537 ≤ fuel
      → (emulate_op fuel m).0 ≢ none
  unfolding emulate_op begin_step run_cpu
  emulate_op-returns x fuel m hx hp h le =
      let Returns : Option StepResult → Type 0 = (λ r. r ≢ none) in
      either Returns (not (m.state.nmi_pending == 0)) _ _ _ some-none (
        either Returns (irq_accepted m.state.ei_pending _) _ _ _ some-none (
          either Returns (not (m.state.halted == 0)) _ _ _ some-none
            (execute_instruction-returns x fuel _ hx hp h le)))

  -- No maskable interrupt is pending, or it is masked, or the instruction before was `EI`.
  abbrev pub IsHeldBack : StateZ80 U → Type 0
  IsHeldBack s = (s.irq_pending ≡ 0) ⊎ (s.iff1 ≡ 0) ⊎ (s.ei_pending ≢ 0)

  -- A step that executes an instruction does not return when every byte of memory is DD or FD:
  -- whatever the fuel, it does not suffice. No non-maskable interrupt is pending, the processor is
  -- not halted, and a maskable interrupt is not pending, or masked, or held back by `EI`.
  pub emulate_op-loops :
      (fuel : ℕ) (m : Machine U)
      → ((x : ℕ) → is_prefix (m.state.memory x) ≡ true)
      → m.state.nmi_pending ≡ 0
      → IsHeldBack m.state
      → m.state.halted ≡ 0
      → (emulate_op fuel m).0 ≡ none
  unfolding emulate_op begin_step run_cpu irq_accepted
  emulate_op-loops fuel m all no_nmi held running =
      rw (no_nmi, held_back m.state.ei_pending m.state.irq_pending m.state.iff1 held, running)
        (execute_instruction-loops fuel _ all)
