-- ===== src/Cpu/Laws.antt =====
-- What the parts of the processor compute.
pub mod Flags
pub mod Add
pub mod Sub
pub mod Pairs
pub mod Stack
pub mod Decimal
pub mod Rotate
pub mod Prefix
pub mod Opcode
pub mod Interrupt
pub mod Block
pub mod Select
pub mod Reset
