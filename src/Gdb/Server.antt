-- ===== src/Gdb/Server.antt =====
-- src/main.cpp, lines 1204-1352: the packets that the server answers. The socket is set up and read
-- outside the model. Dispatch has the packets in the order of their tests.
use z80_trace.Common.{ℕ, zero, suc, ◌+◌, ◌-◌, Bool, true, false, not, ◌&&◌, ◌||◌, List, [], ◌∷◌}
use z80_trace.Common.{Option, none, some, ltb, leb, ◌==◌, if◌then◌else◌, length, min}
use z80_trace.Common.Text.{Text, codes, take}
use z80_trace.Cpu.State.{StateZ80}
use z80_trace.Cpu.Registers.{compose16}
use z80_trace.Trace.Session.{Session}
use z80_trace.Trace.Points.{is_stop_address}
use z80_trace.Gdb.Hex.{parse_hex_digits, parse_hex_byte_pair, decode_hex_bytes, split_at_code}
use z80_trace.Gdb.Hex.{parse_addr_len, word_hex_le}
use z80_trace.Gdb.Registers.{get_debug_register, set_debug_register}
use z80_trace.Gdb.Registers.{decode_register_packet}
use z80_trace.Gdb.Memory.{memory_hex, store_bytes}
use z80_trace.Gdb.Debug.{StopReply, interrupted, illegal, trapped}

unfoldable pub same_text : Text → Text → Bool
same_text [] [] = true
same_text (x ∷ xs) (y ∷ ys) = x == y && same_text xs ys
same_text _ _ = false

-- `rfind(prefix, 0) == 0`.
unfoldable pub starts_with : Text → Text → Bool
starts_with [] text = true
starts_with (x ∷ xs) [] = false
starts_with (x ∷ xs) (y ∷ ys) = x == y && starts_with xs ys

-- `substr(n)`.
unfoldable pub drop : ℕ → Text → Text
drop zero text = text
drop (suc n) [] = []
drop (suc n) (x ∷ text) = drop n text

-- `packet.size() > n && packet[0] == ch`.
unfoldable pub is_command : ℕ → ℕ → Text → Bool
is_command n ch [] = false
is_command n ch (x ∷ text) = ltb n (length (x ∷ text)) && x == ch

unfoldable pub stop_text : StopReply → Text
stop_text interrupted = codes "S02"
stop_text illegal = codes "S04"
stop_text trapped = codes "S05"

-- What the server keeps between packets.
pub record Server (U : Type 0) : Type 0 where
  pub session : Session U
  pub no_ack : Bool
  pub breakpoints : List ℕ

-- The answer to a packet; `none` is a packet that is not answered.
pub record Answer (U : Type 0) : Type 0 where
  pub reply : Option Text
  pub detach : Bool
  pub server : Server U

unfoldable pub insert_breakpoint : ℕ → List ℕ → List ℕ
insert_breakpoint addr breakpoints =
    if is_stop_address addr breakpoints then breakpoints else addr ∷ breakpoints

unfoldable pub erase_breakpoint : ℕ → List ℕ → List ℕ
erase_breakpoint addr [] = []
erase_breakpoint addr (x ∷ breakpoints) =
    let rest = erase_breakpoint addr breakpoints in if x == addr then rest else x ∷ rest

-- The part of `kTargetXml` that is asked for.
unfoldable pub target_part : Text → ℕ → ℕ → Text
target_part xml offset len =
    let start = min offset (length xml) in
    let count = min len (length xml - start) in
    (if ltb (start + count) (length xml) then 109 else 108) ∷ take count (drop start xml)

module _ {U : Type 0} where
  unfoldable pub answer : Text → Server U → Answer U
  answer reply server = record { reply = some reply; detach = false; server = server }

  unfoldable pub set_state : StateZ80 U → Server U → Server U
  set_state s server = record server { session = record (server.session) { state = s } }

  -- `OK`, or `E01` for a packet that is refused.
  unfoldable pub answer_read_register : Text → Server U → Answer U
  answer_read_register text server = elim (parse_hex_digits text) [
    | none ↦ answer (codes "E01") server
    | some reg ↦
        if leb 13 reg
        then answer (codes "E01") server
        else answer (word_hex_le (get_debug_register reg server.session.state)) server
  ]

  unfoldable pub write_register : ℕ → Text → Server U → Answer U
  write_register reg (w ∷ x ∷ y ∷ z ∷ []) server = elim (parse_hex_byte_pair (w ∷ x ∷ [])) [
    | none ↦ answer (codes "E01") server
    | some lo ↦ elim (parse_hex_byte_pair (y ∷ z ∷ [])) [
      | none ↦ answer (codes "E01") server
      | some hi ↦ elim (set_debug_register reg (compose16 hi lo) server.session.state) [
        | none ↦ answer (codes "E01") server
        | some s ↦ answer (codes "OK") (set_state s server)
      ]
    ]
  ]
  write_register reg _ server = answer (codes "E01") server

  unfoldable pub answer_write_register : Text → Server U → Answer U
  answer_write_register text server = elim (split_at_code 61 text) [
    | none ↦ answer (codes "E01") server
    | some (before, after) ↦ elim (parse_hex_digits before) [
      | none ↦ answer (codes "E01") server
      | some reg ↦
          if leb 13 reg then answer (codes "E01") server else write_register reg after server
    ]
  ]

  unfoldable pub answer_registers : Text → Server U → Answer U
  answer_registers text server =
      let (done, s) = decode_register_packet text server.session.state in
      answer (if done then codes "OK" else codes "E01") (set_state s server)

  unfoldable pub answer_read_memory : Text → Server U → Answer U
  answer_read_memory text server = elim (parse_addr_len text) [
    | none ↦ answer (codes "E01") server
    | some (addr, len) ↦
        if ltb 0x10000 len
        then answer (codes "E01") server
        else answer (memory_hex server.session.state.memory addr len) server
  ]

  -- The bytes are stored if there are as many as the packet says.
  unfoldable pub write_memory_bytes : ℕ → ℕ → List ℕ → Server U → Answer U
  write_memory_bytes addr len bytes server =
      if ltb 0x10000 len || not (length bytes == len)
      then answer (codes "E01") server
      else (let s = server.session.state in
          answer (codes "OK")
            (set_state (record s { memory = store_bytes s.memory addr bytes }) server))

  unfoldable pub answer_write_memory : Text → Server U → Answer U
  answer_write_memory text server = elim (split_at_code 58 text) [
    | none ↦ answer (codes "E01") server
    | some (before, after) ↦ elim (parse_addr_len before) [
      | none ↦ answer (codes "E01") server
      | some (addr, len) ↦ elim (decode_hex_bytes after) [
        | none ↦ answer (codes "E01") server
        | some bytes ↦ write_memory_bytes addr len bytes server
      ]
    ]
  ]
