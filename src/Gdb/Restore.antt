-- ===== src/Gdb/Restore.antt =====
-- src/main.cpp, lines 1258-1286: the packets `g` and `G` through the server.
use z80_trace.Common.{◌∷◌, some, ◌≡◌, refl}
use z80_trace.Common.Text.{codes}
use z80_trace.Cpu.State.{StateZ80}
use z80_trace.Cpu.Valid.Defs.{IsState}
use z80_trace.Gdb.Hex.{word_hex_le, byte_hex}
use z80_trace.Gdb.Registers.{encode_registers, encode_register_packet}
use z80_trace.Gdb.Codec.{take_registers, decode_register_packet-encode_register_packet}
use z80_trace.Gdb.Server.{Server, same_text, starts_with, drop, is_command, answer, set_state}
use z80_trace.Gdb.Server.{answer_registers}
use z80_trace.Gdb.Dispatch.{Debugger, query_reply, thread_reply, answer_access, answer_packet}

module _ {U : Type 0} where
  -- The packet `g` is answered with the registers of the processor, and changes nothing. If a client
  -- sends the registers of a well-formed processor back with the packet `G`, whatever the server's
  -- processor is then, the answer is `OK` and that processor has these registers.
  pub answer_packet-registers :
      (debugger : Debugger U) (s : StateZ80 U) (server : Server U)
      → IsState s
      → (answer_packet debugger (codes "g") (set_state s server)
          ≡ some (answer (encode_register_packet s) (set_state s server)))
        × (answer_packet debugger (71 ∷ encode_register_packet s) server
            ≡ some (answer (codes "OK") (set_state (take_registers s server.session.state) server)))
  unfolding answer_packet query_reply thread_reply answer_access same_text starts_with drop
      is_command encode_register_packet encode_registers word_hex_le byte_hex answer_registers
      set_state
  answer_packet-registers debugger s server v =
      (refl, rw (decode_register_packet-encode_register_packet s server.session.state v) refl)
