-- ===== src/Plugin.antt =====
-- src/io_plugin.cpp, src/io_plugin.h and include/z80_io_plugin.h: the host of a plugin for the ports.
-- The plugin is a parameter: the functions of its table, over a type `V` for what its opaque pointer
-- points to. A null pointer or a null function is `none`. What the dynamic linker gives is an
-- argument of `load_plugin`.
use z80_trace.Common.{ℕ, Bool, true, false, [], ◌∷◌, Option, none, some, ◌==◌}
use z80_trace.Common.{if◌then◌else◌}
use z80_trace.Common.Text.{Text, codes}
use z80_trace.Cpu.State.{StateZ80}
use z80_trace.Trace.Schedule.{AfterInstruction}

-- `Z80_TRACE_PLUGIN_INTERRUPT_NONE`, `_NMI` and `_INT`.
pub data RequestKind : Type 0 where
  no_request nmi_request int_request : RequestKind

pub record PluginApi (V : Type 0) : Type 0 where
  pub abi_version : ℕ
  pub name : Option Text
  pub create : Option (Option Text → Option V × Text)
  pub destroy : Option (Option V → Unit {0})
  pub reset : Option (Option V → Option V)
  pub read_port : Option (Option V → ℕ → ℕ → ℕ × Option V)
  pub write_port : Option (Option V → ℕ → ℕ → Option V)
  pub after_instruction : Option (Option V → ℕ → ℕ → (RequestKind × ℕ) × Option V)

-- `IoPluginHost`: whether there is a handle, the table, and the opaque pointer.
pub record Host (V : Type 0) : Type 0 where
  pub handle : Bool
  pub api : Option (PluginApi V)
  pub opaque : Option V

-- What `dlopen`, `dlsym` and the function that is found give.
pub data Library (V : Type 0) : Type 0 where
  not_opened : Text → Library V
  no_symbol : Text → Library V
  opened : Option (PluginApi V) → Library V

abbrev pub abi_version_expected : ℕ
abi_version_expected = 1

unfoldable pub is_loaded : {V : Type 0} → Host V → Bool
is_loaded host = elim host.api [ none ↦ false | some api ↦ host.handle ]

-- `Close`: everything is null; `destroy` is called, and nothing of the plugin is left.
unfoldable pub close_host : {V : Type 0} → Host V → Host V
close_host host = record { handle = false; api = none; opaque = none }

-- The end of `Load`: the state that `create` makes. A null state with a text is an error.
unfoldable pub create_state :
    {V : Type 0} → Option Text → PluginApi V → Host V → Option Text × Host V
create_state config api host = elim api.create [
  | none ↦ (none, host)
  | some make ↦
      let (state, message) = make config in
      elim state [
        | some opaque ↦ (none, record host { opaque = some opaque })
        | none ↦ elim message [
          | [] ↦ (none, record host { opaque = none })
          | ch ∷ text ↦ (some (ch ∷ text), close_host host)
        ]
      ]
]

-- `Load`: the error, if there is one, and the host.
unfoldable pub load_plugin : {V : Type 0} → Option Text → Library V → Host V → Option Text × Host V
load_plugin config (not_opened message) host = (some message, close_host host)
load_plugin config (no_symbol message) host = (some message, close_host host)
load_plugin config (opened none) host = (some (codes "plugin returned null API"), close_host host)
load_plugin config (opened (some api)) host =
    if api.abi_version == abi_version_expected
    then create_state config api (record { handle = true; api = some api; opaque = none })
    else (some (codes "plugin ABI version mismatch"), close_host host)

unfoldable pub reset_host : {V : Type 0} → Host V → Host V
reset_host host = elim host.api [
  | none ↦ host
  | some api ↦ elim api.reset [
    | none ↦ host
    | some callback ↦ record host { opaque = callback host.opaque }
  ]
]

unfoldable pub host_name : {V : Type 0} → Host V → Text
host_name host = elim host.api [
  | none ↦ codes "plugin"
  | some api ↦ elim api.name [
    | none ↦ codes "plugin"
    | some text ↦ elim text [ [] ↦ codes "plugin" | ch ∷ rest ↦ ch ∷ rest ]
  ]
]

-- `Read` and `Write`, as the thunks call them on a host that is not null.
unfoldable pub read_host : {V : Type 0} → Host V → ℕ → ℕ → ℕ × Host V
read_host host addr default_value = elim host.api [
  | none ↦ (default_value, host)
  | some api ↦ elim api.read_port [
    | none ↦ (default_value, host)
    | some callback ↦
        let (value, opaque) = callback host.opaque addr default_value in
        (value, record host { opaque = opaque })
  ]
]

unfoldable pub write_host : {V : Type 0} → Host V → ℕ → ℕ → Host V
write_host host addr value = elim host.api [
  | none ↦ host
  | some api ↦ elim api.write_port [
    | none ↦ host
    | some callback ↦ record host { opaque = callback host.opaque addr value }
  ]
]

-- The request of a plugin: an interrupt that is not maskable, with the vector that is not used, or
-- one with its vector.
unfoldable pub asked_for : RequestKind → ℕ → Option (Bool × ℕ)
asked_for no_request vector = none
asked_for nmi_request vector = some (true, 0xff)
asked_for int_request vector = some (false, vector)

unfoldable pub after_instruction_host : {V : Type 0} → Host V → ℕ → ℕ → Option (Bool × ℕ) × Host V
after_instruction_host host step clocks = elim host.api [
  | none ↦ (none, host)
  | some api ↦ elim api.after_instruction [
    | none ↦ (none, host)
    | some callback ↦
        let (request, opaque) = callback host.opaque step clocks in
        (asked_for request.0 request.1, record host { opaque = opaque })
  ]
]

-- `Attach`: the host is what `io_user` points to; without callbacks nothing reads it, so the host
-- stands there in place of a null pointer too.
unfoldable pub attach : {V : Type 0} → Host V → StateZ80 (Host V) → StateZ80 (Host V)
attach host s =
    if is_loaded host
    then record s { io_user = host; io_read = some read_host; io_write = some write_host }
    else record s { io_user = host; io_read = none; io_write = none }

-- The plugin as the trace loop calls it.
unfoldable pub after_hook : {V : Type 0} → AfterInstruction (Host V)
after_hook = some (λ host step clocks.
    if is_loaded host then after_instruction_host host step clocks else (none, host))
