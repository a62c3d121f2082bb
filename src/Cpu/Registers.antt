-- ===== src/Cpu/Registers.antt =====
-- src/z80_exec.c, lines 15-118 and 236-327, 347-405, 425-444: register pairs, the index registers
-- that a prefix selects, registers by number, and conditions.
use z80_trace.Common.{ℕ, Bool, not, bit_and, bit_or, u16, u8, ◌<<<◌, ◌>>>◌, ◌==◌, test}
use z80_trace.Common.{if◌then◌else◌, add_disp}
use z80_trace.Cpu.State.{StateZ80}

pub data IndexMode : Type 0 where
  index_none index_ix index_iy : IndexMode

unfoldable pub high_byte : ℕ → ℕ
high_byte value = u8 (value >>> 8)

unfoldable pub low_byte : ℕ → ℕ
low_byte value = u8 (bit_and value 0xff)

unfoldable pub compose16 : ℕ → ℕ → ℕ
compose16 hi lo = u16 (bit_or (hi <<< 8) lo)

-- `index != INDEX_NONE`.
abbrev pub is_indexed : IndexMode → Bool
is_indexed index_none = Bool.false
is_indexed _ = Bool.true

module _ {U : Type 0} where
  -- `state->a = value` and the like.
  unfoldable pub set_a : ℕ → StateZ80 U → StateZ80 U
  set_a value s = record s { a = value }

  unfoldable pub set_f : ℕ → StateZ80 U → StateZ80 U
  set_f value s = record s { f = value }

  unfoldable pub set_pc : ℕ → StateZ80 U → StateZ80 U
  set_pc value s = record s { pc = value }

  unfoldable pub get_af : StateZ80 U → ℕ
  get_af s = compose16 s.a s.f

  unfoldable pub get_bc : StateZ80 U → ℕ
  get_bc s = compose16 s.b s.c

  unfoldable pub get_de : StateZ80 U → ℕ
  get_de s = compose16 s.d s.e

  unfoldable pub get_hl : StateZ80 U → ℕ
  get_hl s = compose16 s.h s.l

  unfoldable pub get_af_alt : StateZ80 U → ℕ
  get_af_alt s = compose16 s.a_alt s.f_alt

  unfoldable pub get_bc_alt : StateZ80 U → ℕ
  get_bc_alt s = compose16 s.b_alt s.c_alt

  unfoldable pub get_de_alt : StateZ80 U → ℕ
  get_de_alt s = compose16 s.d_alt s.e_alt

  unfoldable pub get_hl_alt : StateZ80 U → ℕ
  get_hl_alt s = compose16 s.h_alt s.l_alt

  unfoldable pub set_af : ℕ → StateZ80 U → StateZ80 U
  set_af value s = record s { a = high_byte value; f = low_byte value }

  unfoldable pub set_bc : ℕ → StateZ80 U → StateZ80 U
  set_bc value s = record s { b = high_byte value; c = low_byte value }

  unfoldable pub set_de : ℕ → StateZ80 U → StateZ80 U
  set_de value s = record s { d = high_byte value; e = low_byte value }

  unfoldable pub set_hl : ℕ → StateZ80 U → StateZ80 U
  set_hl value s = record s { h = high_byte value; l = low_byte value }

  unfoldable pub set_af_alt : ℕ → StateZ80 U → StateZ80 U
  set_af_alt value s = record s { a_alt = high_byte value; f_alt = low_byte value }

  unfoldable pub set_bc_alt : ℕ → StateZ80 U → StateZ80 U
  set_bc_alt value s = record s { b_alt = high_byte value; c_alt = low_byte value }

  unfoldable pub set_de_alt : ℕ → StateZ80 U → StateZ80 U
  set_de_alt value s = record s { d_alt = high_byte value; e_alt = low_byte value }

  unfoldable pub set_hl_alt : ℕ → StateZ80 U → StateZ80 U
  set_hl_alt value s = record s { h_alt = high_byte value; l_alt = low_byte value }

  unfoldable pub get_index_value : IndexMode → StateZ80 U → ℕ
  get_index_value index_ix s = s.ix
  get_index_value index_iy s = s.iy
  get_index_value index_none s = get_hl s

  unfoldable pub set_index_value : IndexMode → ℕ → StateZ80 U → StateZ80 U
  set_index_value index_ix value s = record s { ix = value }
  set_index_value index_iy value s = record s { iy = value }
  set_index_value index_none value s = set_hl value s

  -- The displacement is the byte read; it counts as signed.
  unfoldable pub effective_indexed_address : IndexMode → ℕ → StateZ80 U → ℕ
  effective_indexed_address index displacement s = add_disp (get_index_value index s) displacement

  -- The high and the low half of what stands for HL.
  unfoldable pub get_index_high : IndexMode → StateZ80 U → ℕ
  get_index_high index_ix s = high_byte s.ix
  get_index_high index_iy s = high_byte s.iy
  get_index_high index_none s = s.h

  unfoldable pub get_index_low : IndexMode → StateZ80 U → ℕ
  get_index_low index_ix s = low_byte s.ix
  get_index_low index_iy s = low_byte s.iy
  get_index_low index_none s = s.l

  unfoldable pub set_index_high : IndexMode → ℕ → StateZ80 U → StateZ80 U
  set_index_high index_ix value s = record s { ix = compose16 value (low_byte s.ix) }
  set_index_high index_iy value s = record s { iy = compose16 value (low_byte s.iy) }
  set_index_high index_none value s = record s { h = value }

  unfoldable pub set_index_low : IndexMode → ℕ → StateZ80 U → StateZ80 U
  set_index_low index_ix value s = record s { ix = compose16 (high_byte s.ix) value }
  set_index_low index_iy value s = record s { iy = compose16 (high_byte s.iy) value }
  set_index_low index_none value s = record s { l = value }

  unfoldable pub get_reg8_simple : ℕ → IndexMode → StateZ80 U → ℕ
  get_reg8_simple reg index s =
      let n = bit_and reg 7 in
      if n == 0
      then s.b
      else (if n == 1
          then s.c
          else (if n == 2
              then s.d
              else (if n == 3
                  then s.e
                  else (if n == 4
                      then get_index_high index s
                      else (if n == 5 then get_index_low index s else s.a)))))

  unfoldable pub set_reg8_simple : ℕ → IndexMode → ℕ → StateZ80 U → StateZ80 U
  set_reg8_simple reg index value s =
      let n = bit_and reg 7 in
      if n == 0
      then record s { b = value }
      else (if n == 1
          then record s { c = value }
          else (if n == 2
              then record s { d = value }
              else (if n == 3
                  then record s { e = value }
                  else (if n == 4
                      then set_index_high index value s
                      else (if n == 5
                          then set_index_low index value s
                          else record s { a = value })))))

  unfoldable pub get_rp : ℕ → IndexMode → StateZ80 U → ℕ
  get_rp rp index s =
      let n = bit_and rp 3 in
      if n == 0
      then get_bc s
      else (if n == 1 then get_de s else (if n == 2 then get_index_value index s else s.sp))

  unfoldable pub set_rp : ℕ → IndexMode → ℕ → StateZ80 U → StateZ80 U
  set_rp rp index value s =
      let n = bit_and rp 3 in
      if n == 0
      then set_bc value s
      else (if n == 1
          then set_de value s
          else (if n == 2 then set_index_value index value s else record s { sp = value }))

  unfoldable pub get_rp2 : ℕ → IndexMode → StateZ80 U → ℕ
  get_rp2 rp index s =
      let n = bit_and rp 3 in
      if n == 0
      then get_bc s
      else (if n == 1 then get_de s else (if n == 2 then get_index_value index s else get_af s))

  unfoldable pub set_rp2 : ℕ → IndexMode → ℕ → StateZ80 U → StateZ80 U
  set_rp2 rp index value s =
      let n = bit_and rp 3 in
      if n == 0
      then set_bc value s
      else (if n == 1
          then set_de value s
          else (if n == 2 then set_index_value index value s else set_af value s))

  -- `EX AF,AF'` and `EXX`.
  unfoldable pub exchange_af : StateZ80 U → StateZ80 U
  exchange_af s = let temp = get_af s in set_af_alt temp (set_af (get_af_alt s) s)

  unfoldable pub exchange_shadow : StateZ80 U → StateZ80 U
  exchange_shadow s =
      let bc = get_bc s in
      let s₁ = set_bc_alt bc (set_bc (get_bc_alt s) s) in
      let de = get_de s₁ in
      let s₂ = set_de_alt de (set_de (get_de_alt s₁) s₁) in
      let hl = get_hl s₂ in set_hl_alt hl (set_hl (get_hl_alt s₂) s₂)

-- `ConditionMet`, on the flags.
unfoldable pub condition_met : ℕ → ℕ → Bool
condition_met f condition =
    let n = bit_and condition 7 in
    if n == 0
    then not (test f 0x40)
    else (if n == 1
        then test f 0x40
        else (if n == 2
            then not (test f 0x01)
            else (if n == 3
                then test f 0x01
                else (if n == 4
                    then not (test f 0x04)
                    else (if n == 5
                        then test f 0x04
                        else (if n == 6 then not (test f 0x80) else test f 0x80))))))
