-- ===== src/Trace/Distinct.antt =====
-- src/main.cpp, lines 338-348 and 613-620: no address has two tracepoints.
use z80_trace.Common.{ℕ, false, true, List, [], ◌∷◌, ◌++◌, ◌≡◌, ◌≢◌, ◌⊎◌}
use z80_trace.Common.{refl, ap, inl, inr, Bool-cases, arith}
use z80_trace.Trace.Points.{Tracepoint, has_tracepoint, add_tracepoint}

-- No tracepoint has the address, or one has it.
abbrev pub IsAbsent : ℕ → List Tracepoint → Type 0
IsAbsent addr [] = Unit
IsAbsent addr (tp ∷ tracepoints) = (tp.pc ≢ addr) × IsAbsent addr tracepoints

abbrev pub IsPresent : ℕ → List Tracepoint → Type 0
IsPresent addr [] = ⊥
IsPresent addr (tp ∷ tracepoints) = (tp.pc ≡ addr) ⊎ IsPresent addr tracepoints

-- Any two tracepoints have different addresses.
abbrev pub Distinct : List Tracepoint → Type 0
Distinct [] = Unit
Distinct (tp ∷ tracepoints) = IsAbsent tp.pc tracepoints × Distinct tracepoints

has_tracepoint-IsPresent :
    (tracepoints : List Tracepoint) (addr : ℕ)
    → has_tracepoint tracepoints addr ≡ true
    → IsPresent addr tracepoints
unfolding has_tracepoint
has_tracepoint-IsPresent [] addr h = ground arith
has_tracepoint-IsPresent (tp ∷ tracepoints) addr h =
    ground (arith, has_tracepoint-IsPresent tracepoints addr)

has_tracepoint-IsAbsent :
    (tracepoints : List Tracepoint) (addr : ℕ)
    → has_tracepoint tracepoints addr ≡ false
    → IsAbsent addr tracepoints
unfolding has_tracepoint
has_tracepoint-IsAbsent [] addr h = tt
has_tracepoint-IsAbsent (tp ∷ tracepoints) addr h =
    (ground arith, has_tracepoint-IsAbsent tracepoints addr (ground arith))

append-IsAbsent :
    (tracepoints : List Tracepoint) (tp : Tracepoint) (addr : ℕ)
    → IsAbsent addr tracepoints
    → tp.pc ≢ addr
    → IsAbsent addr (tracepoints ++ tp ∷ [])
append-IsAbsent [] tp addr h new = (new, tt)
append-IsAbsent (t ∷ tracepoints) tp addr h new = (h.0, append-IsAbsent tracepoints tp addr h.1 new)

append-IsPresent :
    (tracepoints : List Tracepoint) (tp : Tracepoint) → IsPresent tp.pc (tracepoints ++ tp ∷ [])
append-IsPresent [] tp = inl refl
append-IsPresent (t ∷ tracepoints) tp = inr (append-IsPresent tracepoints tp)

append-Distinct :
    (tracepoints : List Tracepoint) (tp : Tracepoint)
    → IsAbsent tp.pc tracepoints
    → Distinct tracepoints
    → Distinct (tracepoints ++ tp ∷ [])
append-Distinct [] tp new h = (tt, tt)
append-Distinct (t ∷ tracepoints) tp new h = (
  append-IsAbsent tracepoints tp t.pc h.0 (ground (arith, new.0)),
  append-Distinct tracepoints tp new.1 h.1,
)

-- The tracepoints begin with those of the first list, hits included.
abbrev pub Extends : List Tracepoint → List Tracepoint → Type 0
Extends old new = (added : List Tracepoint) × (new ≡ old ++ added)

keeps : (tracepoints : List Tracepoint) → tracepoints ≡ tracepoints ++ []
keeps [] = refl
keeps (tp ∷ tracepoints) = ap (λ tps. tp ∷ tps) (keeps tracepoints)

-- If no two tracepoints have the same address, then after `AddTracepoint` this is so still, the address
-- has a tracepoint, and those that were there come first, with their hits.
pub add_tracepoint-Distinct :
    (tracepoints : List Tracepoint) (addr : ℕ)
    → Distinct tracepoints
    → Distinct (add_tracepoint tracepoints addr)
      × IsPresent addr (add_tracepoint tracepoints addr)
      × Extends tracepoints (add_tracepoint tracepoints addr)
unfolding add_tracepoint
add_tracepoint-Distinct tracepoints addr h = elim (Bool-cases (has_tracepoint tracepoints addr)) [
  | inl there ↦
      rw (there) (h, has_tracepoint-IsPresent tracepoints addr there, ([], keeps tracepoints))
  | inr new ↦ rw (new) (
    append-Distinct tracepoints _ (has_tracepoint-IsAbsent tracepoints addr new) h,
    append-IsPresent tracepoints _,
    (_, refl),
  )
]
