-- ===== src/Disasm/Length.antt =====
-- src/z80_disasm.c: the length of an instruction is the number of bytes that the processor reads for
-- it. A length depends on the opcode and on the index prefix alone, so it is compared for all of them
-- in tables.
use z80_trace.Common.{ℕ, suc, ◌+◌, ◌<◌, Bool, true, not, ◌||◌, List, [], ◌∷◌, ◌==◌, ◌≡◌, refl}
use z80_trace.Common.{◌∙◌, arith}
use z80_trace.Common.Table.{holds_below, read_table}
use z80_trace.Cpu.State.{Bytes}
use z80_trace.Cpu.Switch.{one_of, switch_on}
use z80_trace.Cpu.Registers.{IndexMode, index_none, index_ix, index_iy, is_indexed}
use z80_trace.Cpu.Ed.{decode_ed}
use z80_trace.Cpu.Base.Decode.{decode, decode_rest, is_alu_group}
use z80_trace.Cpu.Advance.Ed.{ed_operands}
use z80_trace.Cpu.Advance.Base.{goes_on, operands}
use z80_trace.Disasm.Text.{Entry, byte_at}
use z80_trace.Disasm.Ed.{first_ed_texts, last_ed_texts, disassemble_ed}
use z80_trace.Disasm.Base.{inc_dec_text, load_imm_text, load_reg_text, alu_text, group_text}
use z80_trace.Disasm.Base.{disassemble_base}
use z80_trace.Disasm.Base.Low.{low_texts}
use z80_trace.Disasm.Base.High.{middle_texts, high_texts}

unfoldable pub lengths : List (List ℕ × Entry) → List (List ℕ × ℕ)
lengths [] = []
lengths ((labels, entry) ∷ cases) = (labels, entry.length) ∷ lengths cases

switch_on-length :
    (x : ℕ) (cases : List (List ℕ × Entry)) (default : Entry)
    → (switch_on x cases default).length ≡ switch_on x (lengths cases) default.length
unfolding switch_on lengths
switch_on-length x [] default = refl
switch_on-length x ((labels, entry) ∷ cases) default =
    ground (arith, switch_on-length x cases default)

unfoldable pub blank : Bytes
blank x = 0

group_text-length :
    (mem : Bytes) (pc : ℕ) (index : IndexMode) (op : ℕ)
    → (group_text mem pc index op).length ≡ (group_text blank 0 index op).length
unfolding group_text inc_dec_text load_imm_text load_reg_text alu_text
group_text-length mem pc index op = ground arith

-- The length that the disassembler gives an unprefixed opcode.
unfoldable pub base_length : ℕ → IndexMode → ℕ
base_length op index = switch_on op (lengths (low_texts blank 0 index op)) (
    switch_on op (lengths (middle_texts blank 0 index op))
      (switch_on op (lengths (high_texts blank 0 index op)) (group_text blank 0 index op).length))

pub disassemble_base-length :
    (mem : Bytes) (pc : ℕ) (index : IndexMode)
    → (disassemble_base mem pc index).length ≡ base_length (byte_at mem pc) index
unfolding disassemble_base base_length lengths
disassemble_base-length mem pc index =
    let op : ℕ = byte_at mem pc in
    rw
      (
        switch_on-length op (low_texts mem pc index op) _,
        switch_on-length op (middle_texts mem pc index op) _,
        switch_on-length op (high_texts mem pc index op) _,
        group_text-length mem pc index op,
      )
      refl

-- Of the cases that do not jump.
base_test : IndexMode → ℕ → Bool
base_test index op =
    not (goes_on (decode op)) || base_length op index == suc (operands (decode op) op index)

base_table_plain : holds_below (base_test index_none) 256 ≡ true
unfolding holds_below base_test goes_on operands base_length lengths group_text inc_dec_text
    load_imm_text load_reg_text alu_text one_of switch_on decode decode_rest is_alu_group is_indexed
base_table_plain = refl

base_table_ix : holds_below (base_test index_ix) 256 ≡ true
unfolding holds_below base_test goes_on operands base_length lengths group_text inc_dec_text
    load_imm_text load_reg_text alu_text one_of switch_on decode decode_rest is_alu_group is_indexed
base_table_ix = refl

base_table_iy : holds_below (base_test index_iy) 256 ≡ true
unfolding holds_below base_test goes_on operands base_length lengths group_text inc_dec_text
    load_imm_text load_reg_text alu_text one_of switch_on decode decode_rest is_alu_group is_indexed
base_table_iy = refl

base_table : (index : IndexMode) → holds_below (base_test index) 256 ≡ true
base_table index_none = base_table_plain
base_table index_ix = base_table_ix
base_table index_iy = base_table_iy

base_length-operands :
    (op : ℕ) (index : IndexMode)
    → op < 256
    → goes_on (decode op) ≡ true
    → base_length op index ≡ suc (operands (decode op) op index)
unfolding base_test
base_length-operands op index h continues =
    let row : base_test index op ≡ true =
      read_table (base_test index) 256 op h (base_table index) in
    ground (arith, row, continues)

-- The length that the disassembler gives an opcode behind ED.
unfoldable pub ed_length : ℕ → ℕ
ed_length op =
    switch_on op (lengths (first_ed_texts blank 0))
      (switch_on op (lengths (last_ed_texts blank 0)) 2)

pub disassemble_ed-length :
    (mem : Bytes) (pc : ℕ) → (disassemble_ed mem pc).length ≡ ed_length (byte_at mem (pc + 1))
unfolding disassemble_ed ed_length lengths
disassemble_ed-length mem pc =
    let op : ℕ = byte_at mem (pc + 1) in
    rw (switch_on-length op (first_ed_texts mem pc) _, switch_on-length op (last_ed_texts mem pc) _)
      refl

ed_test : ℕ → Bool
ed_test op = ed_length op == suc (suc (ed_operands (decode_ed op)))

ed_table : holds_below ed_test 256 ≡ true
unfolding holds_below ed_test ed_operands ed_length lengths one_of switch_on decode_ed
ed_table = refl

ed_length-operands : (op : ℕ) → op < 256 → ed_length op ≡ suc (suc (ed_operands (decode_ed op)))
unfolding ed_test
ed_length-operands op h =
    let row : ed_test op ≡ true = read_table ed_test 256 op h ed_table in ground (arith, row)

-- An unprefixed instruction that does not jump is as long as its opcode and what it reads.
pub disassemble_base-operands :
    (mem : Bytes) (pc : ℕ) (index : IndexMode)
    → byte_at mem pc < 256
    → goes_on (decode (byte_at mem pc)) ≡ true
    → (disassemble_base mem pc index).length
      ≡ suc (operands (decode (byte_at mem pc)) (byte_at mem pc) index)
disassemble_base-operands mem pc index h continues =
    disassemble_base-length mem pc index ∙ base_length-operands (byte_at mem pc) index h continues

-- So is one behind ED, with the prefix.
pub disassemble_ed-operands :
    (mem : Bytes) (pc : ℕ)
    → byte_at mem (pc + 1) < 256
    → (disassemble_ed mem pc).length ≡ suc (suc (ed_operands (decode_ed (byte_at mem (pc + 1)))))
disassemble_ed-operands mem pc h =
    disassemble_ed-length mem pc ∙ ed_length-operands (byte_at mem (pc + 1)) h
