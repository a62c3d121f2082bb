-- ===== src/Gdb/Codec.antt =====
-- src/main.cpp, lines 732-801 and 891-916: what is written in hexadecimal is read back.
use z80_trace.Common.{ℕ, ◌<◌, Bool, true, false, List, [], ◌∷◌, ◌++◌, Option, none, some}
use z80_trace.Common.{◌≡◌, refl, ap, ◌∙◌, arith, u8, bit_and, ◌>>>◌, ◌==◌}
use z80_trace.Common.Table.{holds_below, read_table}
use z80_trace.Common.Text.{Text}
use z80_trace.Cpu.State.{StateZ80}
use z80_trace.Cpu.Registers.{compose16, high_byte, low_byte}
use z80_trace.Cpu.Laws.Pairs.{compose16-halves, compose16-sum}
use z80_trace.Cpu.Valid.Defs.{IsByte, IsWord, IsState}
use z80_trace.Gdb.Hex.{digit_code, digit_value, parse_digits_from, parse_hex_digits, byte_hex}
use z80_trace.Gdb.Hex.{word_hex_le, parse_hex_byte_pair, decode_hex_bytes, encode_memory}
use z80_trace.Gdb.Registers.{register_numbers, get_debug_register, set_debug_register}
use z80_trace.Gdb.Registers.{encode_registers, encode_register_packet, decode_registers}
use z80_trace.Gdb.Registers.{decode_register_packet}

is_some : ℕ → Option ℕ → Bool
is_some value none = false
is_some value (some x) = x == value

is_some→≡ : (value : ℕ) (x : Option ℕ) → is_some value x ≡ true → x ≡ some value
unfolding is_some
is_some→≡ value none h = ground arith
is_some→≡ value (some x) h = ground arith

pair_test : ℕ → Bool
pair_test value = is_some value (parse_hex_byte_pair (byte_hex value))

pair_table : holds_below pair_test 256 ≡ true
unfolding holds_below pair_test is_some parse_hex_byte_pair parse_hex_digits parse_digits_from
    byte_hex digit_code digit_value
pair_table = refl

-- The two digits of a byte give the byte.
pub parse_hex_byte_pair-byte_hex :
    (value : ℕ) → IsByte value → parse_hex_byte_pair (byte_hex value) ≡ some value
unfolding pair_test
parse_hex_byte_pair-byte_hex value h =
    is_some→≡ value _ (read_table pair_test 256 value h pair_table)

abbrev pub AllBytes : List ℕ → Type 0
AllBytes [] = Unit
AllBytes (byte ∷ bytes) = IsByte byte × AllBytes bytes

-- The digits of a list of bytes give the bytes.
pub decode_hex_bytes-encode_memory :
    (bytes : List ℕ) → AllBytes bytes → decode_hex_bytes (encode_memory bytes) ≡ some bytes
unfolding decode_hex_bytes encode_memory byte_hex
decode_hex_bytes-encode_memory [] h = refl
decode_hex_bytes-encode_memory (byte ∷ bytes) h =
    let pair : parse_hex_byte_pair (digit_code (byte >>> 4) ∷ digit_code byte ∷ []) ≡ some byte =
      parse_hex_byte_pair-byte_hex byte h.0 in
    rw (decode_hex_bytes, pair, decode_hex_bytes-encode_memory bytes h.1) refl

compose16-IsWord : (hi lo : ℕ) → IsWord (compose16 hi lo)
unfolding compose16
compose16-IsWord hi lo = omega arith

set_pair :
    (hi lo : ℕ)
    → IsByte hi
    → IsByte lo
    → (u8 (compose16 hi lo >>> 8) ≡ hi) × (u8 (compose16 hi lo) ≡ lo)
set_pair hi lo hh hl =
    let whole = compose16-sum hi lo hh hl in (omega (arith, whole), omega (arith, whole))

abbrev AreRegisters : List ℕ → Type 0
AreRegisters [] = Unit
AreRegisters (reg ∷ regs) = (reg < 13) × AreRegisters regs

known : AreRegisters register_numbers
known = ground arith

module _ {U : Type 0} where
  -- The registers that the debugger sees, of `s` in place of those of `t`.
  unfoldable pub take_registers : StateZ80 U → StateZ80 U → StateZ80 U
  take_registers s t = record t {
    a = s.a;
    f = s.f;
    b = s.b;
    c = s.c;
    d = s.d;
    e = s.e;
    h = s.h;
    l = s.l;
    sp = s.sp;
    pc = s.pc;
    ix = s.ix;
    iy = s.iy;
    a_alt = s.a_alt;
    f_alt = s.f_alt;
    b_alt = s.b_alt;
    c_alt = s.c_alt;
    d_alt = s.d_alt;
    e_alt = s.e_alt;
    h_alt = s.h_alt;
    l_alt = s.l_alt;
    i = s.i;
    r = s.r;
  }

  -- The loop reads a register that was written, and goes on.
  decode_registers-word :
      (reg value : ℕ) (regs : List ℕ) (payload : Text) (s t : StateZ80 U)
      → IsWord value
      → set_debug_register reg value s ≡ some t
      → decode_registers (reg ∷ regs) (word_hex_le value ++ payload) s
        ≡ decode_registers regs payload t
  unfolding decode_registers word_hex_le byte_hex high_byte low_byte
  decode_registers-word reg value regs payload s t h set =
      let lo : ℕ = u8 (bit_and value 0xff) in
      let hi : ℕ = u8 (value >>> 8) in
      let low : parse_hex_byte_pair (digit_code (lo >>> 4) ∷ digit_code lo ∷ []) ≡ some lo =
        parse_hex_byte_pair-byte_hex lo (omega arith) in
      let high : parse_hex_byte_pair (digit_code (hi >>> 4) ∷ digit_code hi ∷ []) ≡ some hi =
        parse_hex_byte_pair-byte_hex hi (omega arith) in
      let word : compose16 hi lo ≡ value = compose16-halves value h in
      rw (decode_registers, low, high, word, set) refl

  put_register : ℕ → ℕ → StateZ80 U → StateZ80 U
  put_register reg value t = elim (set_debug_register reg value t) [ none ↦ t | some t' ↦ t' ]

  put_registers : List ℕ → StateZ80 U → StateZ80 U → StateZ80 U
  put_registers [] s t = t
  put_registers (reg ∷ regs) s t =
      put_registers regs s (put_register reg (get_debug_register reg s) t)

  put_register-set :
      (reg value : ℕ) (t : StateZ80 U)
      → reg < 13
      → set_debug_register reg value t ≡ some (put_register reg value t)
  unfolding put_register set_debug_register
  put_register-set reg value t h = ground arith

  get_debug_register-IsWord :
      (reg : ℕ) (s : StateZ80 U) → IsState s → IsWord (get_debug_register reg s)
  unfolding get_debug_register
  get_debug_register-IsWord reg s v = ground (
    arith,
    v.sp_word,
    v.pc_word,
    v.ix_word,
    v.iy_word,
    compose16-IsWord s.a s.f,
    compose16-IsWord s.b s.c,
    compose16-IsWord s.d s.e,
    compose16-IsWord s.h s.l,
    compose16-IsWord s.a_alt s.f_alt,
    compose16-IsWord s.b_alt s.c_alt,
    compose16-IsWord s.d_alt s.e_alt,
    compose16-IsWord s.h_alt s.l_alt,
    compose16-IsWord s.i s.r,
  )

  decode_registers-encode_registers :
      (regs : List ℕ) (s t : StateZ80 U)
      → IsState s
      → AreRegisters regs
      → decode_registers regs (encode_registers regs s) t ≡ (true, put_registers regs s t)
  unfolding encode_registers put_registers decode_registers
  decode_registers-encode_registers [] s t v h = refl
  decode_registers-encode_registers (reg ∷ regs) s t v h =
      let value : ℕ = get_debug_register reg s in
      decode_registers-word reg value regs (encode_registers regs s) t (put_register reg value t)
        (get_debug_register-IsWord reg s v) (put_register-set reg value t h.0)
      ∙ decode_registers-encode_registers regs s (put_register reg value t) v h.1

  put_registers-all :
      (s t : StateZ80 U) → IsState s → put_registers register_numbers s t ≡ take_registers s t
  unfolding put_registers put_register set_debug_register get_debug_register take_registers
  put_registers-all s t v =
      rw
        (
          (set_pair s.a s.f v.a_byte v.f_byte).0,
          (set_pair s.a s.f v.a_byte v.f_byte).1,
          (set_pair s.b s.c v.b_byte v.c_byte).0,
          (set_pair s.b s.c v.b_byte v.c_byte).1,
          (set_pair s.d s.e v.d_byte v.e_byte).0,
          (set_pair s.d s.e v.d_byte v.e_byte).1,
          (set_pair s.h s.l v.h_byte v.l_byte).0,
          (set_pair s.h s.l v.h_byte v.l_byte).1,
          (set_pair s.a_alt s.f_alt v.a_alt_byte v.f_alt_byte).0,
          (set_pair s.a_alt s.f_alt v.a_alt_byte v.f_alt_byte).1,
          (set_pair s.b_alt s.c_alt v.b_alt_byte v.c_alt_byte).0,
          (set_pair s.b_alt s.c_alt v.b_alt_byte v.c_alt_byte).1,
          (set_pair s.d_alt s.e_alt v.d_alt_byte v.e_alt_byte).0,
          (set_pair s.d_alt s.e_alt v.d_alt_byte v.e_alt_byte).1,
          (set_pair s.h_alt s.l_alt v.h_alt_byte v.l_alt_byte).0,
          (set_pair s.h_alt s.l_alt v.h_alt_byte v.l_alt_byte).1,
          (set_pair s.i s.r v.i_byte v.r_byte).0,
          (set_pair s.i s.r v.i_byte v.r_byte).1,
        )
        refl

  -- The registers of a well-formed processor, written as a packet and read into another processor.
  pub decode_register_packet-encode_register_packet :
      (s t : StateZ80 U)
      → IsState s
      → decode_register_packet (encode_register_packet s) t ≡ (true, take_registers s t)
  unfolding decode_register_packet encode_register_packet take_registers decode_registers
      encode_registers word_hex_le byte_hex
  decode_register_packet-encode_register_packet s t v =
      decode_registers-encode_registers register_numbers s t v known
      ∙ ap (λ x. (true, x)) (put_registers-all s t v)
