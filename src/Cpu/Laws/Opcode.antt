-- ===== src/Cpu/Laws/Opcode.antt =====
-- src/z80_exec.c, the switches of `EmulateZ80Op`: the bytes that they have a case for.
use z80_trace.Common.{ℕ, ◌<◌, Bool, true, false, not, ◌||◌, ◌==◌}
use z80_trace.Common.{◌≡◌, refl, sym, arith, ◌↔◌}
use z80_trace.Common.Table.{holds_below, read_table}
use z80_trace.Cpu.Switch.{one_of, switch_on}
use z80_trace.Cpu.State.{StepResult, ok, halt, unimplemented}
use z80_trace.Cpu.Base.{case_result}
use z80_trace.Cpu.Base.Decode.{decode, decode_rest, is_alu_group}

is_unimplemented : StepResult → Bool
is_unimplemented unimplemented = true
is_unimplemented _ = false

is_prefix_byte : ℕ → Bool
is_prefix_byte op = op == 0xcb || op == 0xdd || op == 0xed || op == 0xfd

same : Bool → Bool → Bool
same true b = b
same false b = not b

decode_test : ℕ → Bool
decode_test op = same (is_unimplemented (case_result (decode op))) (is_prefix_byte op)

-- Of the 256 bytes, those for which the unprefixed decoder has no case are the four prefixes.
decode_table : holds_below decode_test 256 ≡ true
unfolding holds_below decode_test same is_unimplemented is_prefix_byte case_result decode
    decode_rest is_alu_group one_of switch_on
decode_table = refl

same→≡ : (b c : Bool) → same b c ≡ true → b ≡ c
unfolding same
same→≡ true true h = refl
same→≡ false false h = refl
same→≡ true false h = ground arith
same→≡ false true h = ground arith

unimplemented_iff : (r : StepResult) → (r ≡ unimplemented) ↔ (is_unimplemented r ≡ true)
unfolding is_unimplemented
unimplemented_iff ok = (λ h. ground arith, λ h. ground arith)
unimplemented_iff halt = (λ h. ground arith, λ h. ground arith)
unimplemented_iff unimplemented = (λ h. refl, λ h. refl)

-- A byte is reported as not implemented by the unprefixed decoder exactly if it is one of the four
-- prefixes, which the step takes before.
pub case_result-decode :
    (op : ℕ)
    → op < 256
    → (case_result (decode op) ≡ unimplemented)
      ↔ ((op == 0xcb || op == 0xdd || op == 0xed || op == 0xfd) ≡ true)
unfolding decode_test is_prefix_byte
case_result-decode op h =
    rw
      (sym (
        same→≡ (is_unimplemented (case_result (decode op))) (is_prefix_byte op)
          (read_table decode_test 256 op h decode_table)))
      (unimplemented_iff (case_result (decode op)))
