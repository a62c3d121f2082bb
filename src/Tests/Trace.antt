-- ===== src/Tests/Trace.antt =====
-- The theorems about the trace loop, each at a concrete input.
use z80_trace.Common.{ℕ, zero, suc, true, false, ◌≡◌, refl, none, List, [], ◌∷◌, arith}
use z80_trace.Common.{if◌then◌else◌}
use z80_trace.Cpu.State.{Machine}
use z80_trace.Cpu.Step.{emulate_op}
use z80_trace.Cpu.Valid.Defs.{AreBytes}
use z80_trace.Trace.Schedule.{InterruptSpec, TimerSpec, arm_interrupts, arm_timers}
use z80_trace.Trace.Points.{Tracepoint, add_tracepoint}
use z80_trace.Trace.LoopState.{capture_loop_state, same_loop_state}
use z80_trace.Trace.Session.{Session}
use z80_trace.Trace.Round.{Options, Run, run_round}
use z80_trace.Common.{leb, ◌*◌, ◌-◌, ◌+◌, some, ◌&&◌, if◌then◌else◌}
use z80_trace.Common.Text.{Text, codes}
use z80_trace.Gdb.Hex.{split_at_code}
use z80_trace.Gdb.Server.{same_text}
use z80_trace.Trace.Spec.{is_hex_text, is_empty, parse_kind, split_parts, whole_number}
use z80_trace.Trace.Spec.{
  parse_byte_value, parse_u64_value, part_or, timer_at, timer_from, timer_of,
}
use z80_trace.Trace.Spec.{parse_timer_spec}
use z80_trace.Trace.Accepted.{IsAccepted, parse_timer_spec-IsAccepted}
use z80_trace.Trace.Timers.{ReturnsAhead, arm_timers-ReturnsAhead}
use z80_trace.Trace.Delivery.{any_due, last_vector, arm_interrupts-arm_interrupts}
use z80_trace.Trace.Delivery.{arm_interrupts-any_due}
use z80_trace.Trace.Distinct.{Distinct, IsPresent, Extends, add_tracepoint-Distinct}
use z80_trace.Trace.Progress.{MakesProgress, run_round-MakesProgress}
use z80_trace.Trace.SelfLoop.{same_loop_state-emulate_op}
use z80_trace.Common.{Bool, Option}
use z80_trace.Common.Text.{clip}
use z80_trace.Cpu.State.{ok}
use z80_trace.Cpu.Monad.{run_cpu}
use z80_trace.Cpu.Switch.{one_of, switch_on}
use z80_trace.Cpu.Bus.{fetch_opcode_byte, trace_event, increment_r, advance_pc, add_cycles}
use z80_trace.Cpu.Base.{execute_base, execute_base_case, case_result}
use z80_trace.Cpu.Base.Decode.{decode, is_alu_group}
use z80_trace.Cpu.Step.{begin_step, execute_instruction, run_opcode, skip_prefixes, is_prefix}
use z80_trace.Cpu.Step.{execute_opcode, irq_accepted}
use z80_trace.Disasm.{disassemble_z80_op, skip_prefix_bytes, finish_disassembly, disassemble_at}
use z80_trace.Disasm.Base.{disassemble_base, group_text}
use z80_trace.Trace.Schedule.{arm_timers, has_active_timers}
use z80_trace.Trace.Points.{is_stop_address}
use z80_trace.Trace.Session.{arm, is_idle, sleeps, execute_step, count_hits, finish_step}
use z80_trace.Trace.Round.{Round, goes_on, ends, armed_round, check_stop, detect_loop, step_round}
use z80_trace.Trace.Round.{after_step, check_tracepoints}
use z80_trace.Trace.Requested.{emulate_op-run_round}
use z80_trace.Tests.Run.{program, power_on, machine}
use z80_trace.Tests.Examples.{sample, power_on-IsState}

abbrev pub two_timers : List TimerSpec
two_timers =
    record { nmi = false; period = 10; next_fire = 10; vector = 0xff }
    ∷ record { nmi = true; period = 0; next_fire = 0; vector = 0 }
    ∷ []

abbrev pub two_interrupts : List InterruptSpec
two_interrupts =
    record { nmi = true; step = 3; vector = 0xff; delivered = false }
    ∷ record { nmi = false; step = 3; vector = 0xc7; delivered = false }
    ∷ []

arm_timers-ReturnsAhead_example : ReturnsAhead 25 (arm_timers 30 25 two_timers sample.state)
arm_timers-ReturnsAhead_example =
    arm_timers-ReturnsAhead 30 25 two_timers sample.state (omega arith, (omega arith, tt))
      (omega arith)

arm_interrupts-arm_interrupts_example :
    arm_interrupts (arm_interrupts two_interrupts sample.state 3).0 sample.state 3
    ≡ ((arm_interrupts two_interrupts sample.state 3).0, sample.state)
arm_interrupts-arm_interrupts_example =
    arm_interrupts-arm_interrupts two_interrupts sample.state sample.state 3

arm_interrupts-any_due_example :
    ((arm_interrupts two_interrupts sample.state 3).1.nmi_pending
      ≡ (if any_due true two_interrupts 3 then 1 else 0))
    × ((arm_interrupts two_interrupts sample.state 3).1.irq_pending
        ≡ (if any_due false two_interrupts 3 then 1 else 0))
    × ((arm_interrupts two_interrupts sample.state 3).1.irq_vector
        ≡ last_vector 0xff two_interrupts 3)
arm_interrupts-any_due_example = arm_interrupts-any_due two_interrupts sample.state 3

abbrev one_tracepoint : List Tracepoint
one_tracepoint = record { pc = 5; hits = 2 } ∷ []

add_tracepoint-Distinct_example :
    Distinct (add_tracepoint one_tracepoint 7)
    × IsPresent 7 (add_tracepoint one_tracepoint 7)
    × Extends one_tracepoint (add_tracepoint one_tracepoint 7)
add_tracepoint-Distinct_example = add_tracepoint-Distinct one_tracepoint 7 (tt, tt)

abbrev pub session : Session ℕ
session = record {
  state = sample.state;
  stats = record { total_tstates = 0; min_sp = 0x8000; min_sp_set = true };
  interrupts = two_interrupts;
  timers = two_timers;
  step = 0;
  pc_hits = λ _. 0;
  op_hits = λ _. 0;
}

abbrev pub options : Options
options = record {
  max_steps = 100;
  loop_detect = false;
  bus_trace = false;
  io_trace = true;
  stop_addrs = [];
  tracepoint_max = 0;
  tracepoint_stop = false;
}

abbrev pub start : Run ℕ
start = record {
  session = session;
  tracepoints = [];
  last_state = none;
  total_tracepoint_hits = 0;
  bus_cycle = 0;
  total_bus_writes = 0;
}

run_round-MakesProgress_example : MakesProgress session (run_round 64 none options start)
run_round-MakesProgress_example = run_round-MakesProgress 64 none options start

-- JR -2.
abbrev jump : List ℕ
jump = 0x18 ∷ 0xfe ∷ []

jump-AreBytes : AreBytes (program jump)
jump-AreBytes zero = omega arith
jump-AreBytes (suc zero) = omega arith
jump-AreBytes (suc (suc addr)) = omega arith

abbrev jumper : Machine ℕ
jumper = machine (power_on jump)

same_loop_state-emulate_op_example :
    ((emulate_op 8 jumper).1.state.pc ≡ 0)
    × (same_loop_state
          (capture_loop_state (emulate_op 8 jumper).1.state)
          (capture_loop_state jumper.state)
        ≡ false)
same_loop_state-emulate_op_example =
    same_loop_state-emulate_op 7 jumper (power_on-IsState jump jump-AreBytes) refl refl refl refl
      refl

-- The value of decimal digits, up to another character.
read_decimal : ℕ → Text → ℕ × Text
read_decimal value [] = (value, [])
read_decimal value (x ∷ text) =
    let next = read_decimal (value * 10 + (x - 48)) text in
    if leb 48 x && leb x 57 then next else (value, x ∷ text)

abbrev to_number : Text → ℕ → ℕ × Text
to_number text base = read_decimal 0 text

-- A timer of a text, on a number reader for base 10.
read_timer :
    parse_timer_spec to_number (codes "int:100:20:7")
    ≡ some (record { nmi = false; period = 100; next_fire = 20; vector = 7 })
unfolding parse_timer_spec timer_of timer_from timer_at part_or split_parts split_at_code parse_kind
    same_text parse_u64_value parse_byte_value whole_number is_empty is_hex_text read_decimal
read_timer = refl

parse_timer_spec-IsAccepted_example : IsAccepted (parse_timer_spec to_number (codes "int:100:20:7"))
parse_timer_spec-IsAccepted_example = parse_timer_spec-IsAccepted to_number (codes "int:100:20:7")

-- A plugin that asks for a non-maskable interrupt after each instruction, and counts them.
abbrev pub asks_always : ℕ → ℕ → ℕ → Option (Bool × ℕ) × ℕ
asks_always user step clocks = (some (true, 0), user + 1)

-- A memory of `NOP`, without interrupts and timers.
abbrev pub quiet : Session ℕ
quiet = record session { state = power_on []; interrupts = []; timers = [] }

abbrev quiet_start : Run ℕ
quiet_start = record start { session = quiet }

abbrev quiet_round : Option (Round ℕ)
quiet_round = run_round 8 (some asks_always) options quiet_start

-- The run that goes on.
run_after : Option (Round ℕ) → Run ℕ
run_after none = quiet_start
run_after (some (goes_on run)) = run
run_after (some (ends reason run)) = quiet_start

quiet_round-goes_on :
    (quiet_round ≡ some (goes_on (run_after quiet_round)))
    × ((run_after quiet_round).session.step ≡ 1)
unfolding run_round arm arm_interrupts arm_timers armed_round is_idle sleeps has_active_timers
    check_stop is_stop_address detect_loop step_round execute_step count_hits emulate_op begin_step
    execute_instruction run_opcode skip_prefixes is_prefix execute_opcode execute_base
    execute_base_case decode switch_on one_of irq_accepted fetch_opcode_byte trace_event increment_r
    advance_pc add_cycles run_cpu case_result after_step check_tracepoints run_after finish_step
    disassemble_z80_op skip_prefix_bytes finish_disassembly disassemble_at disassemble_base
    group_text is_alu_group clip
quiet_round-goes_on = (refl, refl)

emulate_op-run_round_example :
    let m = machine (run_after quiet_round).session.state in
    ((emulate_op 8 m).0 ≡ some ok)
    × ((emulate_op 8 m).1.state.pc ≡ 0x66)
    × ((emulate_op 8 m).1.state.iff1 ≡ 0)
emulate_op-run_round_example =
    emulate_op-run_round asks_always 0 8 8 options quiet_start (run_after quiet_round)
      (machine (run_after quiet_round).session.state) quiet_round-goes_on.0
      (ground (arith, quiet_round-goes_on.1)) (λ user clocks. refl) refl
