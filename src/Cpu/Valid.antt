-- ===== src/Cpu/Valid.antt =====
-- The processor stays well formed: every register holds a value of its C type, and so does every
-- byte of memory.
pub mod Defs
pub mod Rules
pub mod Registers
pub mod Alu
pub mod Bus
pub mod Interrupt
pub mod Cb
pub mod Block
pub mod Ed
pub mod Load
pub mod Arith
pub mod Jump
pub mod Base
pub mod Step
