-- ===== src/Gdb/Store.antt =====
-- src/main.cpp, lines 1287-1313: what the packet `M` stores, the packet `m` reads.
use z80_trace.Common.{ℕ, zero, suc, ◌+◌, ◌<◌, ◌≤◌, false, List, [], ◌∷◌, ◌++◌, ◌≡◌, refl}
use z80_trace.Common.{◌∙◌, ap₂, ==-refl, arith, u16, length, ◌==◌}
use z80_trace.Cpu.State.{Bytes}
use z80_trace.Gdb.Hex.{byte_hex, encode_memory}
use z80_trace.Gdb.Memory.{memory_hex, store_byte, store_bytes}

store_byte-same : (memory : Bytes) (at value : ℕ) → store_byte memory at value at ≡ value
unfolding store_byte
store_byte-same memory at value = rw (==-refl at) refl

-- An address that is not among those stored to keeps its byte.
store_bytes-other :
    (memory : Bytes) (addr : ℕ) (bytes : List ℕ) (x : ℕ)
    → length bytes ≤ x
    → x < 65536
    → store_bytes memory addr bytes (u16 (addr + x)) ≡ memory (u16 (addr + x))
unfolding store_bytes store_byte
store_bytes-other memory addr [] x le lt = refl
store_bytes-other memory addr (byte ∷ bytes) (suc x) le lt =
    let differs : (u16 (addr + suc x) == u16 addr) ≡ false = ground arith in
    let same : u16 (addr + 1 + x) ≡ u16 (addr + suc x) = omega arith in
    let rest =
      store_bytes-other (store_byte memory (u16 addr) byte) (addr + 1) bytes x (omega arith)
        (omega arith) in
    rw (same, differs) at rest
store_bytes-other memory addr (byte ∷ bytes) zero le lt = absurd (omega arith)

-- The bytes that are stored from an address on, at most 65536, are read from there.
pub memory_hex-store_bytes :
    (memory : Bytes) (addr : ℕ) (bytes : List ℕ)
    → length bytes ≤ 65536
    → memory_hex (store_bytes memory addr bytes) addr (length bytes) ≡ encode_memory bytes
unfolding memory_hex store_bytes store_byte encode_memory
memory_hex-store_bytes memory addr [] le = refl
memory_hex-store_bytes memory addr (byte ∷ bytes) le =
    let first =
      store_bytes-other (store_byte memory (u16 addr) byte) (addr + 1) bytes 65535 (omega arith)
        (omega arith) in
    let here : u16 (addr + 1 + 65535) ≡ u16 addr = omega arith in
    ap₂ (λ b text. byte_hex b ++ text) ((rw here at first) ∙ store_byte-same memory (u16 addr) byte)
      (memory_hex-store_bytes (store_byte memory (u16 addr) byte) (addr + 1) bytes (omega arith))
