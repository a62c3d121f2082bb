-- ===== src/Gdb.antt =====
-- src/main.cpp, lines 732-1376: the server of the GDB remote protocol.
pub mod Hex
pub mod Registers
pub mod Codec
pub mod Packet
pub mod Debug
pub mod Memory
pub mod Server
pub mod Dispatch
pub mod Store
pub mod Follow
pub mod Restore
