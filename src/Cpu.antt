-- ===== src/Cpu.antt =====
-- The processor: its state, its operations, and what is proved of them.
pub mod State
pub mod Monad
pub mod Registers
pub mod Flags
pub mod Alu
pub mod Bus
pub mod Switch
pub mod Interrupt
pub mod Cb
pub mod Ed
pub mod Base
pub mod Step
pub mod Valid
pub mod Laws
pub mod Advance
