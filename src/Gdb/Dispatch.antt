-- ===== src/Gdb/Dispatch.antt =====
-- src/main.cpp, lines 1206-1372: which packet is answered in which way. `resume` and `single` are
-- `ContinueDebug`, with the breakpoints, and `StepDebug`; `none` is a run that has not ended.
use z80_trace.Common.{ℕ, true, ◌||◌, List, [], Option, none, some}
use z80_trace.Common.{u16, ltb, if◌then◌else◌}
use z80_trace.Common.Text.{Text, codes}
use z80_trace.Trace.Session.{Session}
use z80_trace.Gdb.Hex.{parse_hex_digits, split_at_code, parse_optional_address, parse_addr_len}
use z80_trace.Gdb.Registers.{encode_register_packet}
use z80_trace.Gdb.Packet.{Received, closed, interrupt, packet}
use z80_trace.Gdb.Debug.{StopReply}
use z80_trace.Gdb.Server.{
  Server, Answer, same_text, starts_with, drop, is_command, stop_text, answer,
}
use z80_trace.Gdb.Server.{insert_breakpoint, erase_breakpoint, target_part, answer_read_register}
use z80_trace.Gdb.Server.{answer_write_register, answer_registers, answer_read_memory}
use z80_trace.Gdb.Server.{answer_write_memory}

-- The debugger's functions, as the server calls them.
pub record Debugger (U : Type 0) : Type 0 where
  pub resume : List ℕ → Option ℕ → Session U → Option (StopReply × Session U)
  pub single : Option ℕ → Session U → Option (StopReply × Session U)
  pub target_xml : Text

-- The packets that are answered by a text alone: the first group of tests, and those at the end.
unfoldable pub query_reply : Text → Option Text
query_reply text =
    if same_text text (codes "?")
    then some (codes "S05")
    else (if starts_with (codes "qSupported") text
        then some (codes "PacketSize=4000;QStartNoAckMode+;qXfer:features:read+;swbreak+")
        else (if same_text text (codes "vMustReplyEmpty")
              || same_text text (codes "qTStatus")
              || starts_with (codes "qHostInfo") text
              || starts_with (codes "qThreadExtraInfo") text
            then some []
            else none))

unfoldable pub thread_reply : Text → Option Text
thread_reply text =
    if same_text text (codes "qAttached")
    then some (codes "1")
    else (if same_text text (codes "qC")
        then some (codes "QC0")
        else (if same_text text (codes "qfThreadInfo")
            then some (codes "m0")
            else (if same_text text (codes "qsThreadInfo")
                then some (codes "l")
                else (if same_text text (codes "qOffsets")
                    then some (codes "Text=0;Data=0;Bss=0")
                    else (if same_text text (codes "qSymbol::")
                        then some (codes "OK")
                        else none)))))

-- The prefix of the packets that ask for the description of the target.
abbrev pub target_prefix : Text
target_prefix = codes "qXfer:features:read:target.xml:"

unfoldable pub target_reply : Text → Text → Text
target_reply xml text = elim (parse_addr_len (drop 31 text)) [
  | none ↦ codes "E01"
  | some (offset, len) ↦ target_part xml offset len
]

module _ {U : Type 0} where
  unfoldable pub after_run : Server U → Option (StopReply × Session U) → Option (Answer U)
  after_run server none = none
  after_run server (some (reply, run)) =
      some (answer (stop_text reply) (record server { session = run }))

  unfoldable pub answer_continue : Debugger U → Text → Server U → Option (Answer U)
  answer_continue debugger text server = elim (parse_optional_address text) [
    | none ↦ some (answer (codes "E01") server)
    | some at ↦ after_run server (debugger.resume server.breakpoints at server.session)
  ]

  unfoldable pub answer_step : Debugger U → Text → Server U → Option (Answer U)
  answer_step debugger text server = elim (parse_optional_address text) [
    | none ↦ some (answer (codes "E01") server)
    | some at ↦ after_run server (debugger.single at server.session)
  ]

  -- The action behind `vCont;`.
  unfoldable pub answer_action : Debugger U → Text → Server U → Option (Answer U)
  answer_action debugger action server =
      if same_text action (codes "c")
      then after_run server (debugger.resume server.breakpoints none server.session)
      else (if same_text action (codes "s")
          then after_run server (debugger.single none server.session)
          else some (answer [] server))

  -- `Z0,` and `z0,`: a breakpoint is set or removed.
  unfoldable pub answer_breakpoint : Text → Server U → Answer U
  answer_breakpoint text server = elim (split_at_code 44 (drop 3 text)) [
    | none ↦ answer (codes "E01") server
    | some (before, after) ↦ elim (parse_hex_digits before) [
      | none ↦ answer (codes "E01") server
      | some addr ↦
          if ltb 0xffff addr
          then answer (codes "E01") server
          else answer (codes "OK") (record server {
            breakpoints =
                if is_command 0 90 text
                then insert_breakpoint (u16 addr) server.breakpoints
                else erase_breakpoint (u16 addr) server.breakpoints;
          })
    ]
  ]

  -- The tests from `vCont?` on.
  unfoldable pub answer_control : Debugger U → Text → Server U → Option (Answer U)
  answer_control debugger text server =
      if same_text text (codes "vCont?")
      then some (answer (codes "vCont;c;s") server)
      else (if starts_with (codes "vCont;") text
          then answer_action debugger (drop 6 text) server
          else (if is_command 0 99 text
              then answer_continue debugger (drop 1 text) server
              else (if is_command 0 115 text
                  then answer_step debugger (drop 1 text) server
                  else (if starts_with (codes "Z0,") text || starts_with (codes "z0,") text
                      then some (answer_breakpoint text server)
                      else (if starts_with (codes "Hg") text || starts_with (codes "Hc") text
                          then some (answer (codes "OK") server)
                          else (if same_text text (codes "D")
                              then some (record {
                                reply = some (codes "OK");
                                detach = true;
                                server = server;
                              })
                              else (if same_text text (codes "k")
                                  then some
                                      (record { reply = none; detach = true; server = server })
                                  else some (answer [] server))))))))

  -- The tests from `g` to `M`.
  unfoldable pub answer_access : Debugger U → Text → Server U → Option (Answer U)
  answer_access debugger text server =
      if same_text text (codes "g")
      then some (answer (encode_register_packet server.session.state) server)
      else (if is_command 1 112 text
          then some (answer_read_register (drop 1 text) server)
          else (if is_command 3 80 text
              then some (answer_write_register (drop 1 text) server)
              else (if is_command 1 71 text
                  then some (answer_registers (drop 1 text) server)
                  else (if is_command 1 109 text
                      then some (answer_read_memory (drop 1 text) server)
                      else (if is_command 1 77 text
                          then some (answer_write_memory (drop 1 text) server)
                          else answer_control debugger text server)))))

  unfoldable pub answer_packet : Debugger U → Text → Server U → Option (Answer U)
  answer_packet debugger text server = elim (query_reply text) [
    | some reply ↦ some (answer reply server)
    | none ↦
        if same_text text (codes "QStartNoAckMode")
        then some (answer (codes "OK") (record server { no_ack = true }))
        else elim (thread_reply text) [
          | some reply ↦ some (answer reply server)
          | none ↦
              if starts_with target_prefix text
              then some (answer (target_reply debugger.target_xml text) server)
              else answer_access debugger text server
        ]
  ]

  -- What `ReadPacket` gives; the server ends when the connection is closed.
  unfoldable pub answer_received : Debugger U → Received → Server U → Option (Answer U)
  answer_received debugger closed server =
      some (record { reply = none; detach = true; server = server })
  answer_received debugger interrupt server = some (answer (codes "S02") server)
  answer_received debugger (packet text) server = answer_packet debugger text server
