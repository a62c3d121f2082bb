-- ===== src/Tests/Gdb.antt =====
-- The theorems about the server of the GDB protocol, each at a concrete input.
use z80_trace.Common.{ℕ, true, false, ◌≡◌, refl, none, some, [], ◌∷◌, ◌++◌, arith}
use z80_trace.Common.Text.{codes}
use z80_trace.Gdb.Hex.{encode_memory, parse_hex_byte_pair, parse_hex_digits}
use z80_trace.Gdb.Hex.{parse_digits_from, digit_value}
use z80_trace.Gdb.Registers.{encode_register_packet, decode_register_packet}
use z80_trace.Gdb.Codec.{take_registers}
use z80_trace.Gdb.Codec.{decode_register_packet-encode_register_packet}
use z80_trace.Gdb.Packet.{outside, packet, acknowledge, read_packet, send_packet}
use z80_trace.Gdb.Packet.{checksum_from, add_checksum, read_packet-send_packet, read_packet-refused}
use z80_trace.Gdb.Memory.{memory_hex, store_bytes}
use z80_trace.Gdb.Store.{memory_hex-store_bytes}
use z80_trace.Cpu.Switch.{one_of, switch_on}
use z80_trace.Cpu.Step.{is_prefix}
use z80_trace.Trace.Schedule.{arm_interrupts, arm_timers}
use z80_trace.Trace.Session.{arm}
use z80_trace.Gdb.Server.{Server, answer, set_state}
use z80_trace.Gdb.Dispatch.{Debugger, answer_packet}
use z80_trace.Gdb.Restore.{answer_packet-registers}
use z80_trace.Gdb.Debug.{step_debug}
use z80_trace.Gdb.Follow.{step_debug-IsRaised}
use z80_trace.Common.{Option}
use z80_trace.Cpu.Monad.{run_cpu}
use z80_trace.Cpu.Bus.{fetch_opcode_byte, trace_event, increment_r, advance_pc, add_cycles}
use z80_trace.Cpu.Registers.{set_pc}
use z80_trace.Cpu.Base.{execute_base, execute_base_case, case_result}
use z80_trace.Cpu.Base.Decode.{decode}
use z80_trace.Cpu.Step.{begin_step, execute_instruction, run_opcode, skip_prefixes, emulate_op}
use z80_trace.Cpu.Step.{execute_opcode, irq_accepted}
use z80_trace.Trace.Schedule.{has_active_timers}
use z80_trace.Trace.Session.{Session, is_idle, sleeps, execute_step, count_hits, finish_step}
use z80_trace.Trace.Requested.{IsRaised}
use z80_trace.Gdb.Debug.{StopReply, trapped, DebugOptions, resume_at, step_armed, step_reply}
use z80_trace.Tests.Trace.{asks_always, quiet}
use z80_trace.Tests.Trace.{session}
use z80_trace.Tests.Examples.{code, sample, sample-IsState}

decode_register_packet-encode_register_packet_example :
    decode_register_packet (encode_register_packet sample.state) (record (sample.state) { a = 7 })
    ≡ (true, take_registers sample.state (record (sample.state) { a = 7 }))
decode_register_packet-encode_register_packet_example =
    decode_register_packet-encode_register_packet sample.state (record (sample.state) { a = 7 })
      sample-IsState

read_packet-send_packet_example :
    read_packet false outside (send_packet (codes "g") ++ codes "+")
    ≡ record { received = packet (codes "g"); sent = codes "+"; rest = codes "+" }
read_packet-send_packet_example =
    read_packet-send_packet false (codes "g") (codes "+") (ground arith, tt)

read_packet-refused_example :
    read_packet false outside (codes "$g#68$g#67")
    ≡ acknowledge false 45 (read_packet false outside (codes "$g#67"))
unfolding parse_hex_byte_pair parse_hex_digits parse_digits_from digit_value checksum_from
    add_checksum
read_packet-refused_example =
    read_packet-refused false (codes "g") (codes "$g#67") 54 56 (ground arith, tt) (ground arith)

memory_hex-store_bytes_example :
    memory_hex (store_bytes (λ _. 0) 0xffff code) 0xffff 5 ≡ encode_memory code
memory_hex-store_bytes_example = memory_hex-store_bytes (λ _. 0) 0xffff code (omega arith)

abbrev debugger : Debugger ℕ
debugger = record { resume = λ breakpoints at run. none; single = λ at run. none; target_xml = [] }

abbrev server : Server ℕ
server = record { session = session; no_ack = true; breakpoints = [] }

answer_packet-registers_example :
    (answer_packet debugger (codes "g") (set_state sample.state server)
      ≡ some (answer (encode_register_packet sample.state) (set_state sample.state server)))
    × (answer_packet debugger (71 ∷ encode_register_packet sample.state) server
        ≡ some (
            answer
              (codes "OK")
              (set_state (take_registers sample.state server.session.state) server)))
answer_packet-registers_example =
    answer_packet-registers debugger sample.state server sample-IsState

abbrev debug_options : DebugOptions
debug_options = record { max_steps = 100; io_trace = true }

-- The step from `NOP` at 3, where the client asks it to begin.
abbrev nop_step : Option (StopReply × Session ℕ)
nop_step = step_debug 8 (some asks_always) debug_options (some 3) quiet

session_after : Option (StopReply × Session ℕ) → Session ℕ
session_after none = quiet
session_after (some (reply, session)) = session

nop_step-trapped :
    (nop_step ≡ some (trapped, session_after nop_step)) × ((session_after nop_step).step ≡ 1)
unfolding step_debug resume_at arm arm_interrupts arm_timers step_armed is_idle sleeps
    has_active_timers execute_step count_hits emulate_op begin_step execute_instruction run_opcode
    skip_prefixes is_prefix execute_opcode execute_base execute_base_case decode switch_on one_of
    irq_accepted fetch_opcode_byte trace_event increment_r advance_pc add_cycles run_cpu case_result
    step_reply session_after finish_step set_pc
nop_step-trapped = (refl, refl)

step_debug-IsRaised_example : IsRaised true 0 (session_after nop_step).state
step_debug-IsRaised_example =
    step_debug-IsRaised asks_always true 0 8 debug_options (some 3) trapped quiet
      (session_after nop_step) nop_step-trapped.0 (ground (arith, nop_step-trapped.1))
      (λ user clocks. refl)
