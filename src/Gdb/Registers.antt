-- ===== src/Gdb/Registers.antt =====
-- src/main.cpp, lines 803-916: the registers as the debugger numbers them, and the packets of all
-- thirteen. `compose16 hi lo` is `(UINT16)((hi << 8) | lo)`.
use z80_trace.Common.{ℕ, Bool, true, false, List, [], ◌∷◌, ◌++◌, Option, none, some, u8, ◌==◌, not}
use z80_trace.Common.{◌>>>◌, length, if◌then◌else◌}
use z80_trace.Common.Text.{Text}
use z80_trace.Cpu.State.{StateZ80}
use z80_trace.Cpu.Registers.{compose16}
use z80_trace.Gdb.Hex.{word_hex_le, parse_hex_byte_pair}

-- The numbers that the loops over the registers go through.
abbrev pub register_numbers : List ℕ
register_numbers = 0 ∷ 1 ∷ 2 ∷ 3 ∷ 4 ∷ 5 ∷ 6 ∷ 7 ∷ 8 ∷ 9 ∷ 10 ∷ 11 ∷ 12 ∷ []

module _ {U : Type 0} where
  unfoldable pub get_debug_register : ℕ → StateZ80 U → ℕ
  get_debug_register reg s =
      if reg == 0
      then compose16 s.a s.f
      else (if reg == 1
          then compose16 s.b s.c
          else (if reg == 2
              then compose16 s.d s.e
              else (if reg == 3
                  then compose16 s.h s.l
                  else (if reg == 4
                      then s.sp
                      else (if reg == 5
                          then s.pc
                          else (if reg == 6
                              then s.ix
                              else (if reg == 7
                                  then s.iy
                                  else (if reg == 8
                                      then compose16 s.a_alt s.f_alt
                                      else (if reg == 9
                                          then compose16 s.b_alt s.c_alt
                                          else (if reg == 10
                                              then compose16 s.d_alt s.e_alt
                                              else (if reg == 11
                                                  then compose16 s.h_alt s.l_alt
                                                  else (if reg == 12
                                                      then compose16 s.i s.r
                                                      else 0))))))))))))

  unfoldable pub set_debug_register : ℕ → ℕ → StateZ80 U → Option (StateZ80 U)
  set_debug_register reg value s =
      let hi = u8 (value >>> 8) in
      let lo = u8 value in
      if reg == 0
      then some (record s { a = hi; f = lo })
      else (if reg == 1
          then some (record s { b = hi; c = lo })
          else (if reg == 2
              then some (record s { d = hi; e = lo })
              else (if reg == 3
                  then some (record s { h = hi; l = lo })
                  else (if reg == 4
                      then some (record s { sp = value })
                      else (if reg == 5
                          then some (record s { pc = value })
                          else (if reg == 6
                              then some (record s { ix = value })
                              else (if reg == 7
                                  then some (record s { iy = value })
                                  else (if reg == 8
                                      then some (record s { a_alt = hi; f_alt = lo })
                                      else (if reg == 9
                                          then some (record s { b_alt = hi; c_alt = lo })
                                          else (if reg == 10
                                              then some (record s { d_alt = hi; e_alt = lo })
                                              else (if reg == 11
                                                  then some (record s { h_alt = hi; l_alt = lo })
                                                  else (if reg == 12
                                                      then some (record s { i = hi; r = lo })
                                                      else none))))))))))))

  unfoldable pub encode_registers : List ℕ → StateZ80 U → Text
  encode_registers [] s = []
  encode_registers (reg ∷ regs) s =
      word_hex_le (get_debug_register reg s) ++ encode_registers regs s

  unfoldable pub encode_register_packet : StateZ80 U → Text
  encode_register_packet s = encode_registers register_numbers s

  -- The loop of `DecodeRegisterPacket`: each register takes the next four digits. A register that is
  -- refused ends it, with those before it set.
  unfoldable pub decode_registers : List ℕ → Text → StateZ80 U → Bool × StateZ80 U
  decode_registers (reg ∷ regs) (w ∷ x ∷ y ∷ z ∷ payload) s =
      elim (parse_hex_byte_pair (w ∷ x ∷ [])) [
        | none ↦ (false, s)
        | some lo ↦ elim (parse_hex_byte_pair (y ∷ z ∷ [])) [
          | none ↦ (false, s)
          | some hi ↦ elim (set_debug_register reg (compose16 hi lo) s) [
            | none ↦ (false, s)
            | some s' ↦ decode_registers regs payload s'
          ]
        ]
      ]
  decode_registers _ _ s = (true, s)

  unfoldable pub decode_register_packet : Text → StateZ80 U → Bool × StateZ80 U
  decode_register_packet payload s =
      if not (length payload == 52) then (false, s) else decode_registers register_numbers payload s
