-- ===== src/Tests.antt =====
-- Programs that run on the model, and the theorems at concrete inputs.
mod Run
mod Examples
pub mod Disasm
pub mod Trace
pub mod Gdb
