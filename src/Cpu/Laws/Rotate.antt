-- ===== src/Cpu/Laws/Rotate.antt =====
-- src/z80_exec.c, `RotateLeftCarry`, `RotateRightCarry` and the cases of `RotateCB`: inverses.
use z80_trace.Common.{ℕ, zero, suc, ◌<◌, ◌≤◌, Bool, true, ◌&&◌, ◌==◌, ◌≡◌, refl, ap₂, ==_iff, arith}
use z80_trace.Common.Table.{holds_below, read_table}
use z80_trace.Cpu.Alu.{rotate_left_carry, rotate_right_carry, rotate_cases}

both : (b c : Bool) → (b && c) ≡ true → (b ≡ true) × (c ≡ true)
both b c h = (ground arith, ground arith)

circular_test : ℕ → Bool
circular_test value =
    (rotate_right_carry (rotate_left_carry value) == value)
    && (rotate_left_carry (rotate_right_carry value) == value)

-- `RRC` undoes `RLC` on a byte, and `RLC` undoes `RRC`.
pub rotate_right_carry-rotate_left_carry :
    (value : ℕ)
    → value < 256
    → (rotate_right_carry (rotate_left_carry value) ≡ value)
      × (rotate_left_carry (rotate_right_carry value) ≡ value)
unfolding holds_below circular_test rotate_left_carry rotate_right_carry
rotate_right_carry-rotate_left_carry value h =
    let (there, back) = both _ _ (read_table circular_test 256 value h refl) in
    ((==_iff _ _).0 there, (==_iff _ _).0 back)

-- Nine bits: the carry and the byte.
nine_bit_test : ℕ → ℕ → ℕ → ℕ → Bool
nine_bit_test kind undo carry value =
    let (carry', value') = rotate_cases carry value kind in
    let (carry'', value'') = rotate_cases carry' value' undo in
    (carry'' == carry) && (value'' == value)

module _ (kind undo carry value : ℕ) where
  nine_bit_sound :
      nine_bit_test kind undo carry value ≡ true
      → rotate_cases (rotate_cases carry value kind).0 (rotate_cases carry value kind).1 undo
        ≡ (carry, value)
  unfolding nine_bit_test
  nine_bit_sound h =
      let (there, back) = both _ _ h in
      ap₂ (λ c v. (c, v)) ((==_iff _ _).0 there) ((==_iff _ _).0 back)

-- `RR` undoes `RL` and `RL` undoes `RR`, on a byte together with the carry.
pub rotate_cases-rotate_cases :
    (carry value : ℕ)
    → carry ≤ 1
    → value < 256
    → (rotate_cases (rotate_cases carry value 2).0 (rotate_cases carry value 2).1 3
        ≡ (carry, value))
      × (rotate_cases (rotate_cases carry value 3).0 (rotate_cases carry value 3).1 2
          ≡ (carry, value))
unfolding holds_below nine_bit_test rotate_cases rotate_left_carry rotate_right_carry
rotate_cases-rotate_cases zero value hc hv = (
  nine_bit_sound 2 3 0 value (read_table (nine_bit_test 2 3 0) 256 value hv refl),
  nine_bit_sound 3 2 0 value (read_table (nine_bit_test 3 2 0) 256 value hv refl),
)
rotate_cases-rotate_cases (suc zero) value hc hv = (
  nine_bit_sound 2 3 1 value (read_table (nine_bit_test 2 3 1) 256 value hv refl),
  nine_bit_sound 3 2 1 value (read_table (nine_bit_test 3 2 1) 256 value hv refl),
)
rotate_cases-rotate_cases (suc (suc carry)) value hc hv = absurd (omega arith)
