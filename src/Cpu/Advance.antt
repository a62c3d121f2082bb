-- ===== src/Cpu/Advance.antt =====
-- How far each instruction moves the program counter, for those that do not jump.
pub mod Rules
pub mod Bus
pub mod Registers
pub mod Load
pub mod Arith
pub mod Cb
pub mod Ed
pub mod Base
