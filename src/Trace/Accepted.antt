-- ===== src/Trace/Accepted.antt =====
-- src/main.cpp, lines 165-178 and 252-305: what is known of a timer that the command line accepts.
use z80_trace.Common.{ℕ, ◌<◌, Bool, false, List, [], ◌∷◌, Option, none, some, ◌≡◌}
use z80_trace.Common.{refl, inl, inr, Bool-cases, arith, ltb, leb, length, ◌==◌}
use z80_trace.Common.Text.{Text}
use z80_trace.Trace.Schedule.{TimerSpec}
use z80_trace.Trace.Spec.{is_empty, parse_kind, split_parts, whole_number, parse_byte_value}
use z80_trace.Trace.Spec.{
  parse_u64_value, part_or, timer_at, timer_from, timer_of, parse_timer_spec,
}

abbrev ByteIfAny : Option ℕ → Type 0
ByteIfAny none = Unit
ByteIfAny (some value) = value < 256

-- A timer that is accepted fires again and again, and its vector is a byte.
abbrev pub IsAccepted : Option TimerSpec → Type 0
IsAccepted none = Unit
IsAccepted (some timer) = (0 < timer.period) × (timer.vector < 256)

module _ (to_number : Text → ℕ → ℕ × Text) where
  small_byte :
      (text : Text) (r : Option ℕ)
      → is_empty text ≡ false
      → whole_number to_number text ≡ r
      → ByteIfAny (parse_byte_value to_number text)
  unfolding parse_byte_value
  small_byte text none some_text e = rw (parse_byte_value, some_text, e) tt
  small_byte text (some value) some_text e = elim (Bool-cases (ltb 0xff value)) [
    | inl large ↦ rw (parse_byte_value, some_text, e, large) tt
    | inr small ↦ rw (parse_byte_value, some_text, e, small) (omega arith)
  ]

  parse_byte_value-ByteIfAny : (text : Text) → ByteIfAny (parse_byte_value to_number text)
  unfolding parse_byte_value
  parse_byte_value-ByteIfAny text = elim (Bool-cases (is_empty text)) [
    | inl empty ↦ rw (empty) tt
    | inr some_text ↦ small_byte text _ some_text refl
  ]

  vector-ByteIfAny : (text : Text) → ByteIfAny (part_or text 0xff (parse_byte_value to_number))
  unfolding part_or
  vector-ByteIfAny [] = omega arith
  vector-ByteIfAny (x ∷ text) = parse_byte_value-ByteIfAny (x ∷ text)

  module _ (nmi : Bool) (period : ℕ) (start vector : Text) (positive : 0 < period) where
    timer_with :
        (first byte : Option ℕ)
        → part_or start period (parse_u64_value to_number) ≡ first
        → part_or vector 0xff (parse_byte_value to_number) ≡ byte
        → ByteIfAny byte
        → IsAccepted (timer_at to_number nmi period start vector)
    unfolding timer_at
    timer_with none byte e d h = rw (timer_at, e) tt
    timer_with (some first) none e d h = rw (timer_at, e, d) tt
    timer_with (some first) (some byte) e d h = rw (timer_at, e, d) (positive, h)

    timer_at-IsAccepted : IsAccepted (timer_at to_number nmi period start vector)
    timer_at-IsAccepted = timer_with _ _ refl refl (vector-ByteIfAny vector)

  module _ (kind period start vector : Text) where
    timer_found :
        (nmi : Option Bool) (n : Option ℕ)
        → parse_kind kind ≡ nmi
        → parse_u64_value to_number period ≡ n
        → IsAccepted (timer_from to_number kind period start vector)
    unfolding timer_from
    timer_found none n e d = rw (timer_from, e) tt
    timer_found (some nmi) none e d = rw (timer_from, e, d) tt
    timer_found (some nmi) (some n) e d = elim (Bool-cases (n == 0)) [
      | inl zero_period ↦ rw (timer_from, e, d, zero_period) tt
      | inr used ↦
          rw (timer_from, e, d, used) (timer_at-IsAccepted nmi n start vector (ground arith))
    ]

    timer_from-IsAccepted : IsAccepted (timer_from to_number kind period start vector)
    timer_from-IsAccepted = timer_found _ _ refl refl

  timer_of-IsAccepted : (parts : List Text) → IsAccepted (timer_of to_number parts)
  unfolding timer_of
  timer_of-IsAccepted [] = tt
  timer_of-IsAccepted (kind ∷ []) = tt
  timer_of-IsAccepted (kind ∷ period ∷ []) = timer_from-IsAccepted kind period [] []
  timer_of-IsAccepted (kind ∷ period ∷ start ∷ []) = timer_from-IsAccepted kind period start []
  timer_of-IsAccepted (kind ∷ period ∷ start ∷ vector ∷ rest) =
      timer_from-IsAccepted kind period start vector

  -- Whatever the text and whatever `strtoull` makes of it, a timer that `ParseTimerSpec` accepts has a
  -- period that is not 0, and its vector is a byte.
  pub parse_timer_spec-IsAccepted : (text : Text) → IsAccepted (parse_timer_spec to_number text)
  unfolding parse_timer_spec
  parse_timer_spec-IsAccepted text = elim (Bool-cases (leb 128 (length text))) [
    | inl long ↦ rw (long) tt
    | inr short ↦ rw (short) (timer_of-IsAccepted (split_parts 4 text))
  ]
