-- ===== src/Trace/Points.antt =====
-- src/main.cpp, lines 27-30, 338-348 and 597-620: tracepoints and stop addresses.
use z80_trace.Common.{ℕ, ◌+◌, Bool, true, false, not, ◌&&◌, ◌||◌, List, [], ◌∷◌, ◌++◌, Option}
use z80_trace.Common.{none, some, u32, ◌==◌, if◌then◌else◌}

pub record Tracepoint : Type 0 where
  pub pc : ℕ
  pub hits : ℕ

unfoldable pub find_tracepoint : List Tracepoint → ℕ → Option Tracepoint
find_tracepoint [] pc = none
find_tracepoint (tp ∷ tracepoints) pc =
    if tp.pc == pc then some tp else find_tracepoint tracepoints pc

-- The loop of `AddTracepoint`: whether the address is there.
unfoldable pub has_tracepoint : List Tracepoint → ℕ → Bool
has_tracepoint [] addr = false
has_tracepoint (tp ∷ tracepoints) addr = tp.pc == addr || has_tracepoint tracepoints addr

unfoldable pub add_tracepoint : List Tracepoint → ℕ → List Tracepoint
add_tracepoint tracepoints addr =
    if has_tracepoint tracepoints addr
    then tracepoints
    else tracepoints ++ record { pc = addr; hits = 0 } ∷ []

unfoldable pub none_unhit : List Tracepoint → Bool
none_unhit [] = true
none_unhit (tp ∷ tracepoints) = not (tp.hits == 0) && none_unhit tracepoints

unfoldable pub all_tracepoints_hit : List Tracepoint → Bool
all_tracepoints_hit [] = false
all_tracepoints_hit (tp ∷ tracepoints) = none_unhit (tp ∷ tracepoints)

-- `tp->hits += 1` of the tracepoint that `FindTracepoint` points to.
unfoldable pub hit_tracepoint : List Tracepoint → ℕ → List Tracepoint
hit_tracepoint [] pc = []
hit_tracepoint (tp ∷ tracepoints) pc =
    if tp.pc == pc
    then record tp { hits = u32 (tp.hits + 1) } ∷ tracepoints
    else tp ∷ hit_tracepoint tracepoints pc

unfoldable pub is_stop_address : ℕ → List ℕ → Bool
is_stop_address pc [] = false
is_stop_address pc (addr ∷ addrs) = addr == pc || is_stop_address pc addrs
