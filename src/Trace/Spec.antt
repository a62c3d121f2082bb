-- ===== src/Trace/Spec.antt =====
-- src/main.cpp, lines 150-336: the numbers and the specifications of the command line. `strtoul` and
-- `strtoull` are a parameter: the value of a text in a base, and what stands behind the number.
use z80_trace.Common.{ℕ, zero, suc, Bool, true, false, not, ◌&&◌, ◌||◌, List, [], ◌∷◌}
use z80_trace.Common.{Option, none, some, u8, u16, ltb, leb, ◌==◌, length}
use z80_trace.Common.{if◌then◌else◌}
use z80_trace.Common.Text.{Text, codes}
use z80_trace.Gdb.Hex.{split_at_code}
use z80_trace.Gdb.Server.{same_text}
use z80_trace.Trace.Schedule.{InterruptSpec, TimerSpec}

pub record MemoryDump : Type 0 where
  pub start : ℕ
  pub length : ℕ

-- `str[0] == '0' && (str[1] == 'x' || str[1] == 'X')`.
unfoldable pub is_hex_text : Text → Bool
is_hex_text (x ∷ y ∷ text) = x == 48 && (y == 120 || y == 88)
is_hex_text _ = false

unfoldable pub is_empty : Text → Bool
is_empty [] = true
is_empty (x ∷ text) = false

-- "nmi" is true, "int" and "irq" are false, and other kinds are refused.
unfoldable pub parse_kind : Text → Option Bool
parse_kind text =
    if same_text text (codes "nmi")
    then some true
    else (if same_text text (codes "int") || same_text text (codes "irq") then some false else none)

-- At most `n` parts between colons; what follows the last of them is left out.
unfoldable pub split_parts : ℕ → Text → List Text
split_parts zero text = []
split_parts (suc n) text = elim (split_at_code 58 text) [
  | none ↦ text ∷ []
  | some (before, after) ↦ before ∷ split_parts n after
]

-- A part that is not there or empty has a default.
unfoldable pub part_or : Text → ℕ → (Text → Option ℕ) → Option ℕ
part_or [] default parse = some default
part_or (x ∷ text) default parse = parse (x ∷ text)

module _ (to_number : Text → ℕ → ℕ × Text) where
  -- A number that takes the whole text, in base 16 behind `0x` and in base 10 else.
  unfoldable pub whole_number : Text → Option ℕ
  whole_number text =
      let (value, rest) = to_number text (if is_hex_text text then 16 else 10) in
      if is_empty rest then some value else none

  unfoldable pub parse_hex : Text → Option ℕ
  parse_hex text =
      let (value, rest) = to_number text 16 in
      if not (is_hex_text text) || (not (is_empty rest) || ltb 0xffff value)
      then none
      else some (u16 value)

  unfoldable pub parse_byte_value : Text → Option ℕ
  parse_byte_value text = if is_empty text then none else elim (whole_number text) [
    | none ↦ none
    | some value ↦ if ltb 0xff value then none else some (u8 value)
  ]

  unfoldable pub parse_u64_value : Text → Option ℕ
  parse_u64_value text = if is_empty text then none else whole_number text

  unfoldable pub parse_port_number : Text → Option ℕ
  parse_port_number text = elim (parse_u64_value text) [
    | none ↦ none
    | some value ↦ if ltb 65535 value then none else some value
  ]

  -- The vector of a specification, 0xFF if there is none.
  unfoldable pub parse_vector : Option Text → Option ℕ
  parse_vector none = some 0xff
  parse_vector (some text) = parse_byte_value text

  unfoldable pub interrupt_from : Bool → Text → Option Text → Option InterruptSpec
  interrupt_from nmi step vector =
      let (value, rest) = to_number step 10 in
      if is_empty step || not (is_empty rest) then none else elim (parse_vector vector) [
        | none ↦ none
        | some byte ↦ some (record { nmi = nmi; step = value; vector = byte; delivered = false })
      ]

  -- The step, and the vector behind a second colon.
  unfoldable pub interrupt_behind : Bool → Text → Option InterruptSpec
  interrupt_behind nmi text = elim (split_at_code 58 text) [
    | none ↦ interrupt_from nmi text none
    | some (step, vector) ↦ interrupt_from nmi step (some vector)
  ]

  unfoldable pub parse_interrupt_spec : Text → Option InterruptSpec
  parse_interrupt_spec text = if leb 128 (length text) then none else elim (split_at_code 58 text) [
    | none ↦ none
    | some (kind, behind) ↦ elim (parse_kind kind) [
      | none ↦ none
      | some nmi ↦ interrupt_behind nmi behind
    ]
  ]

  unfoldable pub timer_at : Bool → ℕ → Text → Text → Option TimerSpec
  timer_at nmi period start vector = elim (part_or start period parse_u64_value) [
    | none ↦ none
    | some first ↦ elim (part_or vector 0xff parse_byte_value) [
      | none ↦ none
      | some byte ↦ some (record { nmi = nmi; period = period; next_fire = first; vector = byte })
    ]
  ]

  unfoldable pub timer_from : Text → Text → Text → Text → Option TimerSpec
  timer_from kind period start vector = elim (parse_kind kind) [
    | none ↦ none
    | some nmi ↦ elim (parse_u64_value period) [
      | none ↦ none
      | some n ↦ if n == 0 then none else timer_at nmi n start vector
    ]
  ]

  unfoldable pub timer_of : List Text → Option TimerSpec
  timer_of [] = none
  timer_of (kind ∷ []) = none
  timer_of (kind ∷ period ∷ []) = timer_from kind period [] []
  timer_of (kind ∷ period ∷ start ∷ []) = timer_from kind period start []
  timer_of (kind ∷ period ∷ start ∷ vector ∷ _) = timer_from kind period start vector

  unfoldable pub parse_timer_spec : Text → Option TimerSpec
  parse_timer_spec text = if leb 128 (length text) then none else timer_of (split_parts 4 text)

  -- The start is in hexadecimal; a length of 0x10000 becomes 0 as a `UINT16`.
  unfoldable pub parse_dump : Text → Option MemoryDump
  parse_dump text = elim (split_at_code 58 text) [
    | none ↦ none
    | some (before, after) ↦ elim (parse_hex before) [
      | none ↦ none
      | some start ↦ elim (whole_number after) [
        | none ↦ none
        | some len ↦
            if len == 0 || ltb 0x10000 len
            then none
            else some (record { start = start; length = u16 len })
      ]
    ]
  ]
