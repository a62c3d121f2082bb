-- ===== src/Cpu/Valid/Registers.antt =====
-- The register functions: what they read fits its type, and what they set keeps the state well
-- formed.
use z80_trace.Common.{ℕ, arith, if_either}
use z80_trace.Cpu.State.{StateZ80}
use z80_trace.Cpu.Registers.{IndexMode, index_none, index_ix, index_iy, high_byte, low_byte}
use z80_trace.Cpu.Registers.{compose16, get_af, get_bc, get_de, get_hl}
use z80_trace.Cpu.Registers.{set_af, set_bc, set_de, set_hl, set_af_alt}
use z80_trace.Cpu.Registers.{set_bc_alt, set_de_alt, set_hl_alt, set_a, set_f, set_pc}
use z80_trace.Cpu.Registers.{get_index_value, set_index_value, get_index_high, get_index_low}
use z80_trace.Cpu.Registers.{set_index_high, set_index_low, get_reg8_simple, set_reg8_simple}
use z80_trace.Cpu.Registers.{get_rp, set_rp, get_rp2, set_rp2, exchange_af, exchange_shadow}
use z80_trace.Cpu.Registers.{effective_indexed_address}
use z80_trace.Cpu.Valid.Defs.{IsByte, IsWord, IsState}

pub high_byte-IsByte : (value : ℕ) → IsByte (high_byte value)
unfolding high_byte
high_byte-IsByte value = omega arith

pub low_byte-IsByte : (value : ℕ) → IsByte (low_byte value)
unfolding low_byte
low_byte-IsByte value = omega arith

pub compose16-IsWord : (hi lo : ℕ) → IsWord (compose16 hi lo)
unfolding compose16
compose16-IsWord hi lo = omega arith

module _ {U : Type 0} (s : StateZ80 U) (v : IsState s) where
  pub set_a-IsState : (value : ℕ) → IsByte value → IsState (set_a value s)
  unfolding set_a
  set_a-IsState value h = ground arith

  pub set_f-IsState : (value : ℕ) → IsByte value → IsState (set_f value s)
  unfolding set_f
  set_f-IsState value h = ground arith

  pub set_pc-IsState : (value : ℕ) → IsWord value → IsState (set_pc value s)
  unfolding set_pc
  set_pc-IsState value h = ground arith

  pub set_b-IsState : (value : ℕ) → IsByte value → IsState (record s { b = value })
  set_b-IsState value h = ground arith

  set_c-IsState : (value : ℕ) → IsByte value → IsState (record s { c = value })
  set_c-IsState value h = ground arith

  set_d-IsState : (value : ℕ) → IsByte value → IsState (record s { d = value })
  set_d-IsState value h = ground arith

  set_e-IsState : (value : ℕ) → IsByte value → IsState (record s { e = value })
  set_e-IsState value h = ground arith

  pub set_sp-IsState : (value : ℕ) → IsWord value → IsState (record s { sp = value })
  set_sp-IsState value h = ground arith

  pub set_af-IsState : (value : ℕ) → IsState (set_af value s)
  unfolding set_af high_byte low_byte
  set_af-IsState value = ground arith

  pub set_bc-IsState : (value : ℕ) → IsState (set_bc value s)
  unfolding set_bc high_byte low_byte
  set_bc-IsState value = ground arith

  pub set_de-IsState : (value : ℕ) → IsState (set_de value s)
  unfolding set_de high_byte low_byte
  set_de-IsState value = ground arith

  pub set_hl-IsState : (value : ℕ) → IsState (set_hl value s)
  unfolding set_hl high_byte low_byte
  set_hl-IsState value = ground arith

  pub set_af_alt-IsState : (value : ℕ) → IsState (set_af_alt value s)
  unfolding set_af_alt high_byte low_byte
  set_af_alt-IsState value = ground arith

  pub set_bc_alt-IsState : (value : ℕ) → IsState (set_bc_alt value s)
  unfolding set_bc_alt high_byte low_byte
  set_bc_alt-IsState value = ground arith

  pub set_de_alt-IsState : (value : ℕ) → IsState (set_de_alt value s)
  unfolding set_de_alt high_byte low_byte
  set_de_alt-IsState value = ground arith

  pub set_hl_alt-IsState : (value : ℕ) → IsState (set_hl_alt value s)
  unfolding set_hl_alt high_byte low_byte
  set_hl_alt-IsState value = ground arith

  pub get_bc-IsWord : IsWord (get_bc s)
  unfolding get_bc compose16
  get_bc-IsWord = omega arith

  pub get_de-IsWord : IsWord (get_de s)
  unfolding get_de compose16
  get_de-IsWord = omega arith

  pub get_hl-IsWord : IsWord (get_hl s)
  unfolding get_hl compose16
  get_hl-IsWord = omega arith

  pub get_af-IsWord : IsWord (get_af s)
  unfolding get_af compose16
  get_af-IsWord = omega arith

module _ {U : Type 0} (s : StateZ80 U) (v : IsState s) where
  pub get_index_value-IsWord : (index : IndexMode) → IsWord (get_index_value index s)
  unfolding get_index_value get_hl compose16
  get_index_value-IsWord index_none = omega arith
  get_index_value-IsWord index_ix = v.ix_word
  get_index_value-IsWord index_iy = v.iy_word

  pub set_index_value-IsState :
      (index : IndexMode) (value : ℕ) → IsWord value → IsState (set_index_value index value s)
  unfolding set_index_value
  set_index_value-IsState index_none value h = set_hl-IsState s v value
  set_index_value-IsState index_ix value h = ground arith
  set_index_value-IsState index_iy value h = ground arith

  pub effective_indexed_address-IsWord :
      (index : IndexMode) (disp : ℕ) → IsWord (effective_indexed_address index disp s)
  unfolding effective_indexed_address
  effective_indexed_address-IsWord index disp = omega arith

  get_index_high-IsByte : (index : IndexMode) → IsByte (get_index_high index s)
  unfolding get_index_high high_byte
  get_index_high-IsByte index_none = v.h_byte
  get_index_high-IsByte index_ix = omega arith
  get_index_high-IsByte index_iy = omega arith

  get_index_low-IsByte : (index : IndexMode) → IsByte (get_index_low index s)
  unfolding get_index_low low_byte
  get_index_low-IsByte index_none = v.l_byte
  get_index_low-IsByte index_ix = omega arith
  get_index_low-IsByte index_iy = omega arith

  set_index_high-IsState :
      (index : IndexMode) (value : ℕ) → IsByte value → IsState (set_index_high index value s)
  unfolding set_index_high compose16
  set_index_high-IsState index_none value h = ground arith
  set_index_high-IsState index_ix value h = ground arith
  set_index_high-IsState index_iy value h = ground arith

  set_index_low-IsState :
      (index : IndexMode) (value : ℕ) → IsByte value → IsState (set_index_low index value s)
  unfolding set_index_low compose16
  set_index_low-IsState index_none value h = ground arith
  set_index_low-IsState index_ix value h = ground arith
  set_index_low-IsState index_iy value h = ground arith

  pub get_reg8_simple-IsByte : (reg : ℕ) (index : IndexMode) → IsByte (get_reg8_simple reg index s)
  unfolding get_reg8_simple
  get_reg8_simple-IsByte reg index = if_either IsByte _ v.b_byte (
      if_either IsByte _ v.c_byte (
        if_either IsByte _ v.d_byte (
          if_either IsByte _ v.e_byte (
            if_either IsByte _ (get_index_high-IsByte index)
              (if_either IsByte _ (get_index_low-IsByte index) v.a_byte)))))

  pub set_reg8_simple-IsState :
      (reg : ℕ) (index : IndexMode) (value : ℕ)
      → IsByte value
      → IsState (set_reg8_simple reg index value s)
  unfolding set_reg8_simple set_a
  set_reg8_simple-IsState reg index value h = if_either IsState _ (set_b-IsState s v value h) (
      if_either IsState _ (set_c-IsState s v value h) (
        if_either IsState _ (set_d-IsState s v value h) (
          if_either IsState _ (set_e-IsState s v value h) (
            if_either IsState _ (set_index_high-IsState index value h) (
              if_either IsState _ (set_index_low-IsState index value h)
                (set_a-IsState s v value h))))))

  pub get_rp-IsWord : (rp : ℕ) (index : IndexMode) → IsWord (get_rp rp index s)
  unfolding get_rp
  get_rp-IsWord rp index = if_either IsWord _ (get_bc-IsWord s v) (
      if_either IsWord _ (get_de-IsWord s v)
        (if_either IsWord _ (get_index_value-IsWord index) v.sp_word))

  pub set_rp-IsState :
      (rp : ℕ) (index : IndexMode) (value : ℕ) → IsWord value → IsState (set_rp rp index value s)
  unfolding set_rp
  set_rp-IsState rp index value h = if_either IsState _ (set_bc-IsState s v value) (
      if_either IsState _ (set_de-IsState s v value)
        (if_either IsState _ (set_index_value-IsState index value h) (set_sp-IsState s v value h)))

  pub get_rp2-IsWord : (rp : ℕ) (index : IndexMode) → IsWord (get_rp2 rp index s)
  unfolding get_rp2
  get_rp2-IsWord rp index = if_either IsWord _ (get_bc-IsWord s v) (
      if_either IsWord _ (get_de-IsWord s v)
        (if_either IsWord _ (get_index_value-IsWord index) (get_af-IsWord s v)))

  pub set_rp2-IsState :
      (rp : ℕ) (index : IndexMode) (value : ℕ) → IsWord value → IsState (set_rp2 rp index value s)
  unfolding set_rp2
  set_rp2-IsState rp index value h = if_either IsState _ (set_bc-IsState s v value) (
      if_either IsState _ (set_de-IsState s v value)
        (if_either IsState _ (set_index_value-IsState index value h) (set_af-IsState s v value)))

  pub exchange_af-IsState : IsState (exchange_af s)
  unfolding exchange_af
  exchange_af-IsState = set_af_alt-IsState _ (set_af-IsState s v _) _

  pub exchange_shadow-IsState : IsState (exchange_shadow s)
  unfolding exchange_shadow
  exchange_shadow-IsState =
      set_hl_alt-IsState _
        (set_hl-IsState _
          (set_de_alt-IsState _ (set_de-IsState _ (set_bc_alt-IsState _ (set_bc-IsState s v _) _) _)
            _)
          _)
        _
