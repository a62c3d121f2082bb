-- ===== src/Cpu/Valid/Defs.antt =====
-- What a well-formed processor is, and what it means that a function keeps one.
use z80_trace.Common.{ℕ, ◌<◌, ◌≤◌, Option, none, some, List, length, ◌≢◌}
use z80_trace.Cpu.State.{
  StepResult, unimplemented, StateZ80, Machine, BusEvent, Bytes, max_step_events,
}
use z80_trace.Cpu.Monad.{Cpu}

abbrev pub IsByte : ℕ → Type 0
IsByte n = n < 256

abbrev pub IsWord : ℕ → Type 0
IsWord n = n < 65536

abbrev pub AreBytes : Bytes → Type 0
AreBytes bytes = (x : ℕ) → IsByte (bytes x)

abbrev pub IsSpace : Option Bytes → Type 0
IsSpace none = Unit
IsSpace (some bytes) = AreBytes bytes

-- A device answers a read with a `UINT8`.
abbrev pub IsReader : {U : Type 0} → Option (U → ℕ → ℕ → ℕ × U) → Type 0
IsReader none = Unit
IsReader {U} (some callback) = (user : U) (addr value : ℕ) → IsByte (callback user addr value).0

-- What a step returns for an instruction that is implemented.
abbrev pub IsImplemented : StepResult → Type 0
IsImplemented result = result ≢ unimplemented

abbrev pub IsDone : Option StepResult → Type 0
IsDone result = result ≢ some unimplemented

pub record IsState {U : Type 0} (s : StateZ80 U) : Type 0 where
  pub a_byte : IsByte s.a
  pub f_byte : IsByte s.f
  pub a_alt_byte : IsByte s.a_alt
  pub f_alt_byte : IsByte s.f_alt
  pub b_byte : IsByte s.b
  pub c_byte : IsByte s.c
  pub b_alt_byte : IsByte s.b_alt
  pub c_alt_byte : IsByte s.c_alt
  pub d_byte : IsByte s.d
  pub e_byte : IsByte s.e
  pub d_alt_byte : IsByte s.d_alt
  pub e_alt_byte : IsByte s.e_alt
  pub h_byte : IsByte s.h
  pub l_byte : IsByte s.l
  pub h_alt_byte : IsByte s.h_alt
  pub l_alt_byte : IsByte s.l_alt
  pub ix_word : IsWord s.ix
  pub iy_word : IsWord s.iy
  pub sp_word : IsWord s.sp
  pub pc_word : IsWord s.pc
  pub i_byte : IsByte s.i
  pub r_byte : IsByte s.r
  pub im_mode : s.im ≤ 2
  pub iff1_byte : IsByte s.iff1
  pub iff2_byte : IsByte s.iff2
  pub irq_vector_byte : IsByte s.irq_vector
  pub memory_bytes : AreBytes s.memory
  pub io_space_bytes : IsSpace s.io_space
  pub io_read_bytes : IsReader s.io_read

-- The array of events is never overrun.
abbrev pub AreEvents : Option (List BusEvent) → Type 0
AreEvents none = Unit
AreEvents (some events) = length events ≤ max_step_events

pub record IsMachine {U : Type 0} (m : Machine U) : Type 0 where
  pub state_ok : IsState m.state
  pub events_ok : AreEvents m.events

-- From a well-formed machine `p` gives a value with `P` and a well-formed machine.
pub record Gives {U A : Type 0} (P : A → Type 0) (p : Cpu U A) : Type 0 where
  pub run : (m : Machine U) → IsMachine m → P (p m).0 × IsMachine (p m).1

abbrev pub Any {ℓ} : {A : Type ℓ} → A → Type 0
Any _ = Unit
