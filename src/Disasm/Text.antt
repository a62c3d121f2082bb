-- ===== src/Disasm/Text.antt =====
-- src/z80_disasm.c, lines 11-49, and the formats of its `snprintf` calls: the text of an instruction
-- as a list of character codes. Every path of the disassembler makes one such call, so the cut to
-- the length of the buffer is made once, in Disasm.antt.
use z80_trace.Common.{ℕ, ◌+◌, ◌-◌, List, [], ◌∷◌, ◌++◌, bit_and, bit_or}
use z80_trace.Common.{u16, ltb, ◌==◌, ◌<<<◌, if◌then◌else◌, add_disp}
use z80_trace.Common.Text.{String, Text, codes, hex2, hex4, decimal}
use z80_trace.Cpu.State.{Bytes}
use z80_trace.Cpu.Registers.{IndexMode, index_none, index_ix, index_iy}

-- What is written, and what is returned.
pub record Entry : Type 0 where
  pub text : Text
  pub length : ℕ

-- The parts of a format: literal characters, `%s`, `%04X` and `%02X`.
pub data Piece : Type 0 where
  chars : String → Piece
  name : Text → Piece
  word byte : ℕ → Piece

unfoldable pub spell : List Piece → Text
spell [] = []
spell (chars s ∷ pieces) = codes s ++ spell pieces
spell (name s ∷ pieces) = s ++ spell pieces
spell (word value ∷ pieces) = hex4 value ++ spell pieces
spell (byte value ∷ pieces) = hex2 value ++ spell pieces

abbrev pub fixed : String → ℕ → Entry
fixed s n = record { text = codes s; length = n }

abbrev pub written : List Piece → ℕ → Entry
written pieces n = record { text = spell pieces; length = n }

-- `mem[addr & 0xFFFF]`.
unfoldable pub byte_at : Bytes → ℕ → ℕ
byte_at mem addr = mem (u16 addr)

unfoldable pub read16 : Bytes → ℕ → ℕ
read16 mem pc = u16 (bit_or (byte_at mem (pc + 1)) (byte_at mem (pc + 2) <<< 8))

unfoldable pub relative_target : ℕ → ℕ → ℕ → ℕ
relative_target pc disp len = add_disp (pc + len) disp

unfoldable pub base_reg_name : ℕ → Text
base_reg_name reg =
    let n = bit_and reg 7 in
    if n == 0
    then codes "B"
    else (if n == 1
        then codes "C"
        else (if n == 2
            then codes "D"
            else (if n == 3
                then codes "E"
                else (if n == 4
                    then codes "H"
                    else (if n == 5
                        then codes "L"
                        else (if n == 6 then codes "(HL)" else codes "A"))))))

unfoldable pub index_pair_name : IndexMode → Text
index_pair_name index_ix = codes "IX"
index_pair_name _ = codes "IY"

-- `indexed_mem ? IndexPairName(index) : "HL"`.
unfoldable pub pair_text : IndexMode → Text
pair_text index_none = codes "HL"
pair_text index = index_pair_name index

unfoldable pub index_reg_name : ℕ → IndexMode → Text
index_reg_name reg index_none = base_reg_name reg
index_reg_name reg index_ix =
    if bit_and reg 7 == 4
    then codes "IXH"
    else (if bit_and reg 7 == 5 then codes "IXL" else base_reg_name reg)
index_reg_name reg index_iy =
    if bit_and reg 7 == 4
    then codes "IYH"
    else (if bit_and reg 7 == 5 then codes "IYL" else base_reg_name reg)

-- The condition of `JR`.
unfoldable pub condition_text : ℕ → Text
condition_text op =
    if op == 0x20
    then codes "NZ"
    else (if op == 0x28 then codes "Z" else (if op == 0x30 then codes "NC" else codes "C"))

-- The buffer of 32 characters that each call passes is long enough for the longest, `(IX-128)`.
unfoldable pub indexed_ref : IndexMode → ℕ → Text
indexed_ref index disp =
    if ltb disp 128
    then codes "(" ++ (index_pair_name index ++ (codes "+" ++ (decimal disp ++ codes ")")))
    else codes "(" ++ (index_pair_name index ++ (codes "-" ++ (decimal (256 - disp) ++ codes ")")))
