-- ===== src/Gdb/Memory.antt =====
-- src/main.cpp, lines 1295-1311: the loops of the packets `m` and `M` over the memory.
use z80_trace.Common.{ℕ, zero, suc, ◌+◌, List, [], ◌∷◌, ◌++◌, u16, ◌==◌, if◌then◌else◌}
use z80_trace.Common.Text.{Text}
use z80_trace.Cpu.State.{Bytes}
use z80_trace.Gdb.Hex.{byte_hex}

-- The bytes from an address on, in hexadecimal.
unfoldable pub memory_hex : Bytes → ℕ → ℕ → Text
memory_hex memory addr zero = []
memory_hex memory addr (suc len) = byte_hex (memory (u16 addr)) ++ memory_hex memory (addr + 1) len

unfoldable pub store_byte : Bytes → ℕ → ℕ → Bytes
store_byte memory at value x = if x == at then value else memory x

unfoldable pub store_bytes : Bytes → ℕ → List ℕ → Bytes
store_bytes memory addr [] = memory
store_bytes memory addr (byte ∷ bytes) =
    store_bytes (store_byte memory (u16 addr) byte) (addr + 1) bytes
