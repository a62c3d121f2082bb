-- ===== src/Cpu/State.antt =====
-- include/z80_cpu.h and src/z80_state.c: the state of the processor, the statistics and bus events
-- that a step fills in, allocation and reset.
use z80_trace.Common.{ℕ, Bool, ◌&&◌, Option, none, some, List, if◌then◌else◌}

pub data StepResult : Type 0 where
  ok halt unimplemented : StepResult

pub data BusEventKind : Type 0 where
  fetch read write io_read io_write interrupt_ack : BusEventKind

pub record BusEvent : Type 0 where
  pub kind : BusEventKind
  pub addr : ℕ
  pub value : ℕ

-- `Z80_MAX_STEP_EVENTS`.
abbrev pub max_step_events : ℕ
max_step_events = 32

-- What `SetErrorText` prints into `last_error`: one constructor for each format, with the numbers
-- that are printed.
pub data ErrorText : Type 0 where
  unsupported_im0 : ℕ → ℕ → ErrorText
  unimplemented_opcode : ℕ → ℕ → ErrorText

-- The 64 KiB of `memory` and of `io_space`, by address.
abbrev pub Bytes : Type 0
Bytes = ℕ → ℕ

-- `StateZ80`. `U` is the type of what `io_user` points to: the state of a device behind the two
-- callbacks. A null callback or a null `io_space` is `none`; an empty `last_error` is `none`.
pub record StateZ80 (U : Type 0) : Type 0 where
  pub a : ℕ
  pub f : ℕ
  pub a_alt : ℕ
  pub f_alt : ℕ
  pub b : ℕ
  pub c : ℕ
  pub b_alt : ℕ
  pub c_alt : ℕ
  pub d : ℕ
  pub e : ℕ
  pub d_alt : ℕ
  pub e_alt : ℕ
  pub h : ℕ
  pub l : ℕ
  pub h_alt : ℕ
  pub l_alt : ℕ
  pub ix : ℕ
  pub iy : ℕ
  pub sp : ℕ
  pub pc : ℕ
  pub i : ℕ
  pub r : ℕ
  pub im : ℕ
  pub iff1 : ℕ
  pub iff2 : ℕ
  pub ei_pending : ℕ
  pub nmi_pending : ℕ
  pub irq_pending : ℕ
  pub irq_vector : ℕ
  pub halted : ℕ
  pub memory : Bytes
  pub io_space : Option Bytes
  pub io_user : U
  pub io_read : Option (U → ℕ → ℕ → ℕ × U)
  pub io_write : Option (U → ℕ → ℕ → U)
  pub last_error : Option ErrorText

pub record ExecutionStats : Type 0 where
  pub total_tstates : ℕ
  pub min_sp : ℕ
  pub min_sp_set : Bool

-- The arguments of `EmulateZ80Op`: the processor, and the two records that a caller may leave out.
-- `events` holds the first `count` entries of the array.
pub record Machine (U : Type 0) : Type 0 where
  pub state : StateZ80 U
  pub stats : Option ExecutionStats
  pub events : Option (List BusEvent)

-- `InitZ80`, given the device and whether each of its three allocations succeeds: `calloc` clears
-- every field.
unfoldable pub init_z80 : {U : Type 0} → U → Bool → Bool → Bool → Option (StateZ80 U)
init_z80 user state_ok memory_ok io_ok =
    if state_ok && (memory_ok && io_ok)
    then some (record {
      a = 0;
      f = 0;
      a_alt = 0;
      f_alt = 0;
      b = 0;
      c = 0;
      b_alt = 0;
      c_alt = 0;
      d = 0;
      e = 0;
      d_alt = 0;
      e_alt = 0;
      h = 0;
      l = 0;
      h_alt = 0;
      l_alt = 0;
      ix = 0;
      iy = 0;
      sp = 0;
      pc = 0;
      i = 0;
      r = 0;
      im = 0;
      iff1 = 0;
      iff2 = 0;
      ei_pending = 0;
      nmi_pending = 0;
      irq_pending = 0;
      irq_vector = 0;
      halted = 0;
      memory = λ _. 0;
      io_space = some (λ _. 0);
      io_user = user;
      io_read = none;
      io_write = none;
      last_error = none;
    })
    else none

-- `ResetZ80` on a state that is not null: the memories and the callbacks stay.
unfoldable pub reset_z80 : {U : Type 0} → ℕ → ℕ → StateZ80 U → StateZ80 U
reset_z80 pc sp s = record s {
  a = 0;
  f = 0;
  a_alt = 0;
  f_alt = 0;
  b = 0;
  c = 0;
  b_alt = 0;
  c_alt = 0;
  d = 0;
  e = 0;
  d_alt = 0;
  e_alt = 0;
  h = 0;
  l = 0;
  h_alt = 0;
  l_alt = 0;
  ix = 0;
  iy = 0;
  sp = sp;
  pc = pc;
  i = 0;
  r = 0;
  im = 0;
  iff1 = 0;
  iff2 = 0;
  ei_pending = 0;
  nmi_pending = 0;
  irq_pending = 0;
  irq_vector = 0xff;
  halted = 0;
  last_error = none;
}
