-- ===== src/Cpu/Laws/Select.antt =====
-- src/z80_exec.c, `GetReg8Simple`, `SetReg8Simple`, `GetRP` and `SetRP`.
use z80_trace.Common.{ℕ, bit_and, ◌==◌}
use z80_trace.Common.{◌≡◌, refl, inl, inr, Bool-cases}
use z80_trace.Cpu.State.{StateZ80}
use z80_trace.Cpu.Registers.{IndexMode, index_none, index_ix, index_iy}
use z80_trace.Cpu.Registers.{get_reg8_simple, set_reg8_simple, get_index_high, set_index_high}
use z80_trace.Cpu.Registers.{
  get_index_low, set_index_low, get_rp, set_rp, get_bc, set_bc, get_de, set_de,
}
use z80_trace.Cpu.Registers.{get_hl, set_hl, get_index_value, set_index_value}
use z80_trace.Cpu.Valid.Defs.{IsByte, IsWord}
use z80_trace.Cpu.Laws.Pairs.{compose16-halves, high_byte-compose16, low_byte-compose16}
use z80_trace.Cpu.Laws.Pairs.{high_byte-IsByte, low_byte-IsByte}

module _ {U : Type 0} where
  index_high_lem :
      (index : IndexMode) (value : ℕ) (s : StateZ80 U)
      → IsByte value
      → get_index_high index (set_index_high index value s) ≡ value
  unfolding get_index_high set_index_high
  index_high_lem index_none value s h = refl
  index_high_lem index_ix value s h = high_byte-compose16 value _ h (low_byte-IsByte s.ix)
  index_high_lem index_iy value s h = high_byte-compose16 value _ h (low_byte-IsByte s.iy)

  index_low_lem :
      (index : IndexMode) (value : ℕ) (s : StateZ80 U)
      → IsByte value
      → get_index_low index (set_index_low index value s) ≡ value
  unfolding get_index_low set_index_low
  index_low_lem index_none value s h = refl
  index_low_lem index_ix value s h = low_byte-compose16 _ value (high_byte-IsByte s.ix) h
  index_low_lem index_iy value s h = low_byte-compose16 _ value (high_byte-IsByte s.iy) h

  index_value_lem :
      (index : IndexMode) (value : ℕ) (s : StateZ80 U)
      → IsWord value
      → get_index_value index (set_index_value index value s) ≡ value
  unfolding get_index_value set_index_value get_hl set_hl
  index_value_lem index_none value s h = compose16-halves value h
  index_value_lem index_ix value s h = refl
  index_value_lem index_iy value s h = refl

  -- A word written to a pair by its number, with or without an index prefix, is read back.
  pub get_rp-set_rp :
      (rp : ℕ) (index : IndexMode) (value : ℕ) (s : StateZ80 U)
      → IsWord value
      → get_rp rp index (set_rp rp index value s) ≡ value
  unfolding get_rp set_rp get_bc set_bc get_de set_de
  get_rp-set_rp rp index value s h =
      let n = bit_and rp 3 in
      elim (Bool-cases (n == 0)) [
        | inl zero_pair ↦ rw zero_pair (compose16-halves value h)
        | inr e0 ↦ elim (Bool-cases (n == 1)) [
          | inl one_pair ↦ rw (e0, one_pair) (compose16-halves value h)
          | inr e1 ↦ elim (Bool-cases (n == 2)) [
            | inl two_pair ↦ rw (e0, e1, two_pair) (index_value_lem index value s h)
            | inr e2 ↦ rw (e0, e1, e2) refl
          ]
        ]
      ]

  -- A byte written to a register by its number, with or without an index prefix, is read back.
  pub get_reg8_simple-set_reg8_simple :
      (reg : ℕ) (index : IndexMode) (value : ℕ) (s : StateZ80 U)
      → IsByte value
      → get_reg8_simple reg index (set_reg8_simple reg index value s) ≡ value
  unfolding get_reg8_simple set_reg8_simple
  get_reg8_simple-set_reg8_simple reg index value s h =
      let n = bit_and reg 7 in
      elim (Bool-cases (n == 0)) [
        | inl b ↦ rw b refl
        | inr e0 ↦ elim (Bool-cases (n == 1)) [
          | inl c ↦ rw (e0, c) refl
          | inr e1 ↦ elim (Bool-cases (n == 2)) [
            | inl d ↦ rw (e0, e1, d) refl
            | inr e2 ↦ elim (Bool-cases (n == 3)) [
              | inl e ↦ rw (e0, e1, e2, e) refl
              | inr e3 ↦ elim (Bool-cases (n == 4)) [
                | inl upper ↦ rw (e0, e1, e2, e3, upper) (index_high_lem index value s h)
                | inr e4 ↦ elim (Bool-cases (n == 5)) [
                  | inl lower ↦ rw (e0, e1, e2, e3, e4, lower) (index_low_lem index value s h)
                  | inr e5 ↦ rw (e0, e1, e2, e3, e4, e5) refl
                ]
              ]
            ]
          ]
        ]
      ]
