-- ===== src/Fs/Mode.antt =====
-- src/fs/mode.cpp: NumericModeFromString, which reads an octal mode from its end.
pub mod Laws
pub mod Symbolic
pub mod Tests
use mathlib.Core.List.{reverse}
use ebftpd.Prelude.{
  ℕ, ◌+◌, ◌-◌, ◌*◌, Bool, true, false, not, Option, none, some, List, [], ◌∷◌, Str, length, ltb,
  ◌==◌, ◌&&◌, ◌||◌, if◌then◌else◌,
}

abbrev pub starts_with_zero : Str → Bool
starts_with_zero [] = false
starts_with_zero (c ∷ cs) = c == b'0'

-- The test of the length, which a mode that is read passes.
abbrev pub has_mode_length : Str → Bool
has_mode_length s =
    not (length s == 0 || (ltb 3 (length s) && (not (length s == 4) || not (starts_with_zero s))))

unfoldable pub is_octal_digit : ℕ → Bool
is_octal_digit c = not (ltb c b'0' || ltb b'7' c)

-- The loop from the last character on, with the value and the factor so far.
unfoldable pub digits_loop : Str → ℕ → ℕ → Option ℕ
digits_loop [] value factor = some value
digits_loop (c ∷ cs) value factor =
    let rest = digits_loop cs (value + (c - b'0') * factor) (factor * 8) in
    if is_octal_digit c then rest else none

-- `none` where InvalidModeString is thrown.
unfoldable pub numeric_mode : Str → Option ℕ
unfolding digits_loop
numeric_mode s = if has_mode_length s then digits_loop (reverse s) 0 1 else none
