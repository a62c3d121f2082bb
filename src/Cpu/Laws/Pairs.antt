-- ===== src/Cpu/Laws/Pairs.antt =====
-- src/z80_exec.c, `Compose16`, `HighByte`, `LowByte`, `ExchangeAF` and `ExchangeShadow`.
use z80_trace.Common.{ℕ, ◌+◌, ◌*◌, ◌%◌, ◌≡◌, refl, arith}
use z80_trace.Common.Join.{join_add, low_byte_mask}
use z80_trace.Cpu.State.{StateZ80, Machine}
use z80_trace.Cpu.Monad.{run_cpu, ◌>>◌, pure}
use z80_trace.Cpu.Bus.{add_cycles}
use z80_trace.Cpu.Switch.{one_of, switch_on}
use z80_trace.Cpu.Base.{registers_only, execute_base_case, execute_base}
use z80_trace.Cpu.Base.Decode.{decode, decode_rest}
use z80_trace.Cpu.Registers.{IndexMode}
use z80_trace.Cpu.Registers.{high_byte, low_byte, compose16, get_af, get_bc, get_de, get_hl}
use z80_trace.Cpu.Registers.{get_af_alt, get_bc_alt, get_de_alt, get_hl_alt, set_af, set_bc, set_de}
use z80_trace.Cpu.Registers.{set_hl, set_af_alt, set_bc_alt, set_de_alt, set_hl_alt, exchange_af}
use z80_trace.Cpu.Registers.{exchange_shadow}
use z80_trace.Cpu.Valid.Defs.{IsByte, IsWord, IsState}

pub compose16-sum : (hi lo : ℕ) → IsByte hi → IsByte lo → compose16 hi lo ≡ hi * 256 + lo
unfolding compose16
compose16-sum hi lo hh hl = omega (arith, join_add 8 hi lo hl)

pub high_byte-compose16 : (hi lo : ℕ) → IsByte hi → IsByte lo → high_byte (compose16 hi lo) ≡ hi
unfolding high_byte
high_byte-compose16 hi lo hh hl = omega (arith, compose16-sum hi lo hh hl)

pub low_byte-quotient : (value : ℕ) → low_byte value ≡ value % 256
unfolding low_byte
low_byte-quotient value = omega (arith, low_byte_mask value)

pub low_byte-compose16 : (hi lo : ℕ) → IsByte hi → IsByte lo → low_byte (compose16 hi lo) ≡ lo
low_byte-compose16 hi lo hh hl =
    omega (arith, compose16-sum hi lo hh hl, low_byte-quotient (compose16 hi lo))

pub high_byte-IsByte : (value : ℕ) → IsByte (high_byte value)
unfolding high_byte
high_byte-IsByte value = omega arith

pub low_byte-IsByte : (value : ℕ) → IsByte (low_byte value)
low_byte-IsByte value = omega (arith, low_byte-quotient value)

-- Taking a word apart and joining its bytes gives the word back.
pub compose16-halves :
    (value : ℕ) → IsWord value → compose16 (high_byte value) (low_byte value) ≡ value
unfolding high_byte
compose16-halves value h = omega (
  arith,
  compose16-sum (high_byte value) (low_byte value) (high_byte-IsByte value) (low_byte-IsByte value),
  low_byte-quotient value,
)

module _ {U : Type 0} where
  -- A and F with their alternates in their places, and those in theirs.
  abbrev pub swap_af : StateZ80 U → StateZ80 U
  swap_af s = record s { a = s.a_alt; f = s.f_alt; a_alt = s.a; f_alt = s.f }

  exchange_af-swap : (s : StateZ80 U) → IsState s → exchange_af s ≡ swap_af s
  unfolding exchange_af set_af set_af_alt get_af get_af_alt
  exchange_af-swap s v =
      rw
        (
          high_byte-compose16 s.a_alt s.f_alt v.a_alt_byte v.f_alt_byte,
          low_byte-compose16 s.a_alt s.f_alt v.a_alt_byte v.f_alt_byte,
          high_byte-compose16 s.a s.f v.a_byte v.f_byte,
          low_byte-compose16 s.a s.f v.a_byte v.f_byte,
        )
        refl

  -- The same of the other six registers.
  abbrev pub swap_shadow : StateZ80 U → StateZ80 U
  swap_shadow s = record s {
    b = s.b_alt;
    c = s.c_alt;
    d = s.d_alt;
    e = s.e_alt;
    h = s.h_alt;
    l = s.l_alt;
    b_alt = s.b;
    c_alt = s.c;
    d_alt = s.d;
    e_alt = s.e;
    h_alt = s.h;
    l_alt = s.l;
  }

  exchange_shadow-swap : (s : StateZ80 U) → IsState s → exchange_shadow s ≡ swap_shadow s
  unfolding exchange_shadow set_bc set_bc_alt set_de set_de_alt set_hl set_hl_alt get_bc get_bc_alt
      get_de get_de_alt get_hl get_hl_alt
  exchange_shadow-swap s v =
      rw
        (
          high_byte-compose16 s.b_alt s.c_alt v.b_alt_byte v.c_alt_byte,
          low_byte-compose16 s.b_alt s.c_alt v.b_alt_byte v.c_alt_byte,
          high_byte-compose16 s.b s.c v.b_byte v.c_byte,
          low_byte-compose16 s.b s.c v.b_byte v.c_byte,
          high_byte-compose16 s.d_alt s.e_alt v.d_alt_byte v.e_alt_byte,
          low_byte-compose16 s.d_alt s.e_alt v.d_alt_byte v.e_alt_byte,
          high_byte-compose16 s.d s.e v.d_byte v.e_byte,
          low_byte-compose16 s.d s.e v.d_byte v.e_byte,
          high_byte-compose16 s.h_alt s.l_alt v.h_alt_byte v.l_alt_byte,
          low_byte-compose16 s.h_alt s.l_alt v.h_alt_byte v.l_alt_byte,
          high_byte-compose16 s.h s.l v.h_byte v.l_byte,
          low_byte-compose16 s.h s.l v.h_byte v.l_byte,
        )
        refl

  -- The opcode D9 (`EXX`), on a well-formed processor, puts each of B, C, D, E, H and L in the place of
  -- its alternate and the alternate in its place, and 08 (`EX AF,AF'`) does so with A and F; nothing
  -- else of the processor changes.
  pub execute_base-swap_shadow :
      (index : IndexMode) (m : Machine U)
      → IsState m.state
      → ((execute_base 0xd9 index m).1.state ≡ swap_shadow m.state)
        × ((execute_base 0x08 index m).1.state ≡ swap_af m.state)
  unfolding execute_base execute_base_case decode decode_rest one_of switch_on ◌>>◌ pure
      registers_only add_cycles run_cpu
  execute_base-swap_shadow index m v = (exchange_shadow-swap m.state v, exchange_af-swap m.state v)
