-- ===== src/Cpu/Laws/Block/Copy.antt =====
-- src/z80_exec.c, lines 934-938, repeated: bytes copied one after the other, and the block that results.
use z80_trace.Common.{ℕ, zero, suc, ◌+◌, ◌-◌, ◌<◌, ◌≤◌, true, false, ◌&&◌, u16, leb, ltb, ◌==◌}
use z80_trace.Common.{if◌then◌else◌, ◌≡◌, refl, sym, ap, ◌∙◌, ◌⊎◌, inl, inr, Bool-cases, arith}
use z80_trace.Cpu.State.{Bytes}
use z80_trace.Cpu.Bus.{update}

-- `n` bytes, one after the other, upwards.
unfoldable pub copy_up : ℕ → ℕ → ℕ → Bytes → Bytes
copy_up zero from to bytes = bytes
copy_up (suc n) from to bytes =
    copy_up n (u16 (from + 1)) (u16 (to + 1)) (update bytes to (bytes from))

-- What a block copy should leave at address `x`.
abbrev pub copied : ℕ → ℕ → ℕ → Bytes → Bytes
copied n from to bytes x = if leb to x && ltb x (to + n) then bytes (from + x - to) else bytes x

outside :
    (n from to : ℕ) (bytes : Bytes) (x : ℕ)
    → (x < to) ⊎ (to + n ≤ x)
    → copied n from to bytes x ≡ bytes x
outside n from to bytes x (inl h) =
    let e : (leb to x && ltb x (to + n)) ≡ false = ground arith in rw e refl
outside n from to bytes x (inr h) =
    let e : (leb to x && ltb x (to + n)) ≡ false = ground arith in rw e refl

inside :
    (n from to : ℕ) (bytes : Bytes) (x : ℕ)
    → to ≤ x
    → x < to + n
    → copied n from to bytes x ≡ bytes (from + x - to)
inside n from to bytes x lo hi =
    let e : (leb to x && ltb x (to + n)) ≡ true = ground arith in rw e refl

other_address :
    (bytes : Bytes) (addr value x : ℕ) → (x == addr) ≡ false → update bytes addr value x ≡ bytes x
other_address bytes addr value x h = rw h refl

same_address :
    (bytes : Bytes) (addr value x : ℕ) → (x == addr) ≡ true → update bytes addr value x ≡ value
same_address bytes addr value x h = rw h refl

-- A byte that is still to be moved is not overwritten.
source_kept :
    (n from to x : ℕ)
    → to + 1 ≤ x
    → x < to + suc n
    → (to ≤ from) ⊎ (from + suc n ≤ to)
    → (from + 1 + x - (to + 1) == to) ≡ false
source_kept n from to x lo hi (inl h) = ground arith
source_kept n from to x lo hi (inr h) = ground arith

-- The first byte moved, and then the block after it.
advance :
    (n from to : ℕ) (bytes : Bytes) (x : ℕ)
    → (to ≤ from) ⊎ (from + suc n ≤ to)
    → copied n (from + 1) (to + 1) (update bytes to (bytes from)) x ≡ copied (suc n) from to bytes x
advance n from to bytes x apart = elim (Bool-cases (x == to)) [
  | inl here ↦
      let e : x ≡ to = ground arith in
      outside n (from + 1) (to + 1) (update bytes to (bytes from)) x (inl (omega arith))
      ∙ same_address bytes to (bytes from) x here
      ∙ ap bytes (omega arith)
      ∙ sym (inside (suc n) from to bytes x (omega arith) (omega arith))
  | inr there ↦ elim (Bool-cases (leb to x && ltb x (to + suc n))) [
    | inl within ↦
        let lo : to + 1 ≤ x = ground arith in
        let hi : x < to + suc n = ground arith in
        inside n (from + 1) (to + 1) (update bytes to (bytes from)) x lo (omega arith)
        ∙ other_address bytes to (bytes from) (from + 1 + x - (to + 1))
            (source_kept n from to x lo hi apart)
        ∙ ap bytes (omega arith)
        ∙ sym (inside (suc n) from to bytes x (omega arith) hi)
    | inr beyond ↦
        let far : (x < to) ⊎ (to + suc n ≤ x) = ground arith in
        outside n (from + 1) (to + 1) (update bytes to (bytes from)) x (ground arith)
        ∙ other_address bytes to (bytes from) x there
        ∙ sym (outside (suc n) from to bytes x far)
  ]
]

pub copy_up-copied :
    (n from to : ℕ) (bytes : Bytes) (x : ℕ)
    → from + n ≤ 65536
    → to + n ≤ 65536
    → (to ≤ from) ⊎ (from + n ≤ to)
    → copy_up n from to bytes x ≡ copied n from to bytes x
unfolding copy_up
copy_up-copied zero from to bytes x hf ht apart = sym (outside zero from to bytes x (ground arith))
copy_up-copied (suc zero) from to bytes x hf ht apart =
    sym (outside zero (from + 1) (to + 1) (update bytes to (bytes from)) x (ground arith))
    ∙ advance zero from to bytes x apart
copy_up-copied (suc (suc n)) from to bytes x hf ht apart =
    let ef : u16 (from + 1) ≡ from + 1 = omega arith in
    let et : u16 (to + 1) ≡ to + 1 = omega arith in
    rw (ef, et)
      (copy_up-copied (suc n) (from + 1) (to + 1) (update bytes to (bytes from)) x (omega arith)
        (omega arith) (ground arith))
    ∙ advance (suc n) from to bytes x apart
