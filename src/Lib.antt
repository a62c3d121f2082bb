-- ===== src/Lib.antt =====
-- Verification of z80-trace, a tracer that executes Z80 programs one instruction at a time.
--
-- The program. A C core (src/z80_exec.c, src/z80_state.c, include/z80_cpu.h) holds the processor and
-- executes one instruction for each call of `EmulateZ80Op`; src/z80_disasm.c prints an instruction;
-- src/main.cpp is the command line, which loads a 64 KiB image, calls the core in a loop and prints
-- the trace, or serves a GDB client that steps and continues; src/io_plugin.cpp loads a device for
-- the ports. This library models the core, the disassembler, the trace loop with its interrupts,
-- timers and tracepoints, and the GDB server from the packet to the reply.
--
-- The parts and their files, each model file beside its proofs:
--   Common        helpers: Boolean tests, machine words, binary digits, masks, finite tables.
--   Cpu.State     `StateZ80`, `ExecutionStatsZ80`, `Z80StepEvents`, `InitZ80`, `ResetZ80`. `Machine`
--                 joins the three arguments of a step: the processor, and the statistics and events,
--                 which a caller may leave out.
--   Cpu.Monad     functions that change the machine, in the order of the C code.
--   Cpu.Registers `GetAF` to `SetRP2`, the exchanges, `ConditionMet`.
--   Cpu.Flags, Cpu.Alu  `Parity`, `FlagsSZ53`, `FlagsSZP53`, `Add8` to `BitTest`.
--   Cpu.Bus       `TraceEvent` to `WritePort`, `ReadReg8`, `WriteReg8`, `Push16`, `Pop16`.
--   Cpu.Interrupt `ServiceNMI`, `ServiceMaskableInterrupt`.
--   Cpu.Cb, Cpu.Ed, Cpu.Ed.Block  `ExecuteCB`, `ExecuteED`, its block instructions.
--   Cpu.Base      the unprefixed opcodes of `EmulateZ80Op`: Decode has the labels of its switches,
--                 Load, Arith and Jump the bodies.
--   Cpu.Step      `EmulateZ80Op` from its first line to the dispatch, and its end.
--   Cpu.Valid     well-formedness of the machine: the rules follow the shape of a function, and each
--                 function has one proof that applies those of what it calls.
--   Cpu.Laws      what the parts compute: flags, decimal numbers, rotations, pairs, the stack,
--                 interrupts, block copies, prefixes, the decoder, reset.
--   Cpu.Advance   how many bytes each instruction that does not jump takes the program counter on.
--   Disasm        src/z80_disasm.c: Text has the formats, Cb, Ed and Base the instructions, and the
--                 root `DisassembleZ80Op`. A text is a list of character codes. Length, Opcode, Agree
--                 and Prefixes are proofs.
--   Trace         src/main.cpp: Schedule has `ArmInterrupts`, `ArmTimers` and `ArmPluginInterrupt`,
--                 Points the tracepoints, LoopState the snapshot, Session what the trace loop and the
--                 debugger share, Round the trace loop, Spec the numbers and specifications of the
--                 command line. Timers, Delivery, Distinct, Leaves, Progress, Requested, SelfLoop and
--                 Accepted are proofs.
--   Gdb           src/main.cpp: Hex has `HexDigit` to `EncodeMemory`, Registers and Packet the packets,
--                 Debug `StepDebug` and `ContinueDebug`, Memory, Server and Dispatch the commands of
--                 `RunGdbServer`. Codec, Store, Follow and Restore are proofs.
--   Plugin        src/io_plugin.cpp, src/io_plugin.h and include/z80_io_plugin.h: `IoPluginHost`, with
--                 the plugin and the dynamic linker as parameters.
--   Tests         a program that runs, and the theorems at concrete inputs.
--
-- Numbers. A register is a native number; each cast of the source is a remainder in the same place.
-- A subtraction that can go below zero has 2 ^ 8, 2 ^ 16 or 2 ^ 32 added first. A displacement is the
-- byte that is read, and counts as signed where it is added. Memory is a function from addresses.
--
-- Fuel. The loops over the bytes DD and FD, of the step and of the disassembler, take one unit of fuel
-- for each byte they look at, and `none` is a run that has not ended. 65537 is enough whenever memory
-- has another byte, since the address comes by every one; where it has none the loops of the program
-- do not end either. The loop that catches a timer up takes one unit for each period; two more than the
-- clock is enough. The trace loop has fuel for its rounds, and `ContinueDebug` has the list of what
-- `PollCtrlC` returns, one for each round.
--
-- The device. What stands behind the two port callbacks is not part of the core: its state is a type
-- `U`, the callbacks are fields of the processor, and the well-formedness of a machine asks that a
-- read answers a byte, which is the type of the callback.
--
-- Not modelled. The null checks at the head of `EmulateZ80Op` (the state and its memory are there),
-- `FreeZ80`, the text of `last_error` (its format and numbers are kept), the size of the counter of
-- T-states inside a step (64 bits), the texts that the trace loop prints, the options of the command
-- line and its files, sockets, and the dynamic linker. `strtoul` and `strtoull` are a parameter.
pub mod Common
pub mod Cpu
pub mod Disasm
pub mod Trace
pub mod Gdb
pub mod Plugin
pub mod Tests
