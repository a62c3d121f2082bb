-- ===== src/Cpu/Laws/Reset.antt =====
-- src/z80_state.c: reset against the processor that is switched on. src/z80_exec.c: the refresh register.
use z80_trace.Common.{ℕ, ◌+◌, ◌*◌, ◌/◌, ◌%◌, ◌≡◌, arith}
use z80_trace.Common.Join.{join_add, low_seven, high_bit}
use z80_trace.Common.{true, some, ap}
use mathlib.Core.Option.{some-injective}
use z80_trace.Cpu.State.{StateZ80, reset_z80, init_z80}
use z80_trace.Cpu.Bus.{next_r}
use z80_trace.Cpu.Valid.Defs.{IsByte, IsWord, IsState}

module _ {U : Type 0} where
  -- The processor that `new` is, with the memories, the device and the callbacks of `s`.
  abbrev pub switched_on : ℕ → ℕ → StateZ80 U → StateZ80 U → StateZ80 U
  switched_on pc sp s new = record new {
    pc = pc;
    sp = sp;
    irq_vector = 0xff;
    memory = s.memory;
    io_space = s.io_space;
    io_user = s.io_user;
    io_read = s.io_read;
    io_write = s.io_write;
  }

  reset_z80-IsState :
      (pc sp : ℕ) (s : StateZ80 U) → IsWord pc → IsWord sp → IsState s → IsState (reset_z80 pc sp s)
  unfolding reset_z80
  reset_z80-IsState pc sp s hp hs v = ground arith

  -- `ResetZ80` with words for `PC` and `SP` leaves a well-formed processor well formed. It is then the
  -- processor that `InitZ80` makes if its allocations succeed, but for `PC`, `SP` and the interrupt
  -- vector FF, and the memories, the device and the callbacks, which stay as they were.
  pub reset_z80-init_z80 :
      (pc sp : ℕ) (s new : StateZ80 U) (user : U)
      → IsWord pc
      → IsWord sp
      → IsState s
      → init_z80 user true true true ≡ some new
      → IsState (reset_z80 pc sp s) × (reset_z80 pc sp s ≡ switched_on pc sp s new)
  unfolding reset_z80 init_z80
  reset_z80-init_z80 pc sp s new user hp hs v e =
      (reset_z80-IsState pc sp s hp hs v, ap (switched_on pc sp s) (some-injective _ _ e))

-- For a byte, the refresh register counts modulo 128 in its low seven bits and keeps its highest.
pub next_r-counts : (r : ℕ) → IsByte r → next_r r ≡ r / 128 * 128 + (r + 1) % 128
unfolding next_r
next_r-counts r h =
    rw (high_bit r h, low_seven (r + 1), join_add 7 (r / 128) ((r + 1) % 128) (omega arith))
      (omega arith)
