-- ===== src/Gdb/Hex.antt =====
-- src/main.cpp, lines 732-801 and 1019-1041: numbers and bytes as hexadecimal digits. A text is a
-- list of character codes.
use z80_trace.Common.{ℕ, ◌+◌, ◌-◌, ◌&&◌, not, List, [], ◌∷◌}
use z80_trace.Common.{◌++◌, Option, none, some, bit_and, bit_or, u8, u16, u64, ltb, leb, ◌==◌}
use z80_trace.Common.{◌<<<◌, ◌>>>◌, length, if◌then◌else◌}
use z80_trace.Common.Text.{Text}

-- `HexDigit`: `kDigits[value & 0x0F]`.
unfoldable pub digit_code : ℕ → ℕ
digit_code value = let n = bit_and value 0x0f in if ltb n 10 then 48 + n else 87 + n

-- The value of a digit: '0' to '9', 'a' to 'f' or 'A' to 'F'.
unfoldable pub digit_value : ℕ → Option ℕ
digit_value ch =
    if leb 48 ch && leb ch 57
    then some (ch - 48)
    else (if leb 97 ch && leb ch 102
        then some (ch - 97 + 10)
        else (if leb 65 ch && leb ch 70 then some (ch - 65 + 10) else none))

-- The loop of `ParseHexDigits`, from the value so far.
unfoldable pub parse_digits_from : ℕ → Text → Option ℕ
parse_digits_from result [] = some result
parse_digits_from result (ch ∷ text) = elim (digit_value ch) [
  | none ↦ none
  | some digit ↦ parse_digits_from (bit_or (u64 (result <<< 4)) digit) text
]

unfoldable pub parse_hex_digits : Text → Option ℕ
parse_hex_digits [] = none
parse_hex_digits (ch ∷ text) = parse_digits_from 0 (ch ∷ text)

unfoldable pub byte_hex : ℕ → Text
byte_hex value = digit_code (value >>> 4) ∷ digit_code value ∷ []

unfoldable pub word_hex_le : ℕ → Text
word_hex_le value = byte_hex (u8 (bit_and value 0xff)) ++ byte_hex (u8 (value >>> 8))

unfoldable pub parse_hex_byte_pair : Text → Option ℕ
parse_hex_byte_pair text = if not (length text == 2) then none else elim (parse_hex_digits text) [
  | none ↦ none
  | some parsed ↦ if ltb 0xff parsed then none else some (u8 parsed)
]

-- The loop of `DecodeHexBytes`; a text of odd length is refused before it in the source, and by its
-- last digit here.
unfoldable pub decode_hex_bytes : Text → Option (List ℕ)
decode_hex_bytes [] = some []
decode_hex_bytes (x ∷ []) = none
decode_hex_bytes (x ∷ y ∷ text) =
    let rest = decode_hex_bytes text in
    elim (parse_hex_byte_pair (x ∷ y ∷ [])) [
      | none ↦ none
      | some value ↦ elim rest [ none ↦ none | some bytes ↦ some (value ∷ bytes) ]
    ]

-- `EncodeMemory`.
unfoldable pub encode_memory : List ℕ → Text
encode_memory [] = []
encode_memory (byte ∷ bytes) = byte_hex byte ++ encode_memory bytes

-- `find` of a character: what stands before it and what stands after it.
unfoldable pub split_at_code : ℕ → Text → Option (Text × Text)
split_at_code ch [] = none
split_at_code ch (x ∷ text) =
    let rest = split_at_code ch text in
    if x == ch
    then some ([], text)
    else elim rest [ none ↦ none | some (before, after) ↦ some (x ∷ before, after) ]

-- An address that may be left out. The outer `none` is a text that is refused.
unfoldable pub parse_optional_address : Text → Option (Option ℕ)
parse_optional_address [] = some none
parse_optional_address (ch ∷ text) = elim (parse_hex_digits (ch ∷ text)) [
  | none ↦ none
  | some value ↦ if ltb 0xffff value then none else some (some (u16 value))
]

-- An address and a length, at the two sides of a comma.
unfoldable pub parse_addr_len : Text → Option (ℕ × ℕ)
parse_addr_len text = elim (split_at_code 44 text) [
  | none ↦ none
  | some (before, after) ↦ elim (parse_hex_digits before) [
    | none ↦ none
    | some addr ↦ elim (parse_hex_digits after) [ none ↦ none | some len ↦ some (addr, len) ]
  ]
]
