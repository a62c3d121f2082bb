-- ===== src/Cpu/Switch.antt =====
-- A `switch` of the C code: the labels of each case, and the default.
use z80_trace.Common.{ℕ, Bool, false, List, [], ◌∷◌, ◌||◌, ◌==◌, if◌then◌else◌}

unfoldable pub one_of : ℕ → List ℕ → Bool
one_of x [] = false
one_of x (label ∷ labels) = x == label || one_of x labels

unfoldable pub switch_on {ℓ} : {C : Type ℓ} → ℕ → List (List ℕ × C) → C → C
switch_on x [] default = default
switch_on x ((labels, c) ∷ cases) default = if one_of x labels then c else switch_on x cases default
