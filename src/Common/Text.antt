-- ===== src/Common/Text.antt =====
-- Text as character codes, and the number formats of the C library that the source uses.
use Prim.Native.Char.{code}
pub use Prim.Native.String.{String}
use Prim.Native.Nat.{ℕ, zero, suc, ◌+◌, ◌-◌, ◌/◌, ◌%◌}
use mathlib.Core.List.{List, [], ◌∷◌, ◌++◌}
use z80_trace.Common.Tests.{ltb, if◌then◌else◌}

abbrev pub Text : Type 0
Text = List ℕ

abbrev pub codes : String → Text
codes String.[] = []
codes (String.◌∷◌ c s) = code c ∷ codes s

-- The characters of a number below 16: `A` to `F` in `%X`.
unfoldable pub hex_digit : ℕ → ℕ
hex_digit n = if ltb n 10 then 48 + n else 55 + n

-- `%02X` of a byte and `%04X` of a word.
unfoldable pub hex2 : ℕ → Text
unfolding hex_digit
hex2 n = hex_digit (n / 16) ∷ hex_digit (n % 16) ∷ []

unfoldable pub hex4 : ℕ → Text
unfolding hex2
hex4 n = hex2 (n / 256) ++ hex2 (n % 256)

-- `%d` of a number below 1000.
unfoldable pub decimal : ℕ → Text
decimal n =
    if ltb n 10
    then (48 + n) ∷ []
    else (if ltb n 100
        then (48 + n / 10) ∷ (48 + n % 10) ∷ []
        else (48 + n / 100) ∷ (48 + n / 10 % 10) ∷ (48 + n % 10) ∷ [])

abbrev pub take {ℓ} : {A : Type ℓ} → ℕ → List A → List A
take zero xs = []
take (suc n) [] = []
take (suc n) (x ∷ xs) = x ∷ take n xs

-- What `snprintf` leaves in a buffer of `out_len` characters, before the terminating null.
unfoldable pub clip : ℕ → Text → Text
clip out_len text = take (out_len - 1) text
