-- ===== src/Fs/Mode/Tests.antt =====
-- Modes read at concrete texts.
use ebftpd.Prelude.{
  ℕ, Bool, true, false, Option, List, Str, [], ◌∷◌, ◌≡◌, refl, none, some, codes, if◌then◌else◌,
}
use ebftpd.Fs.Mode.{Option, ℕ, List, Str, Bool, has_mode_length, is_octal_digit, numeric_mode}
use ebftpd.Fs.Mode.Laws.{octal, InPermissions, numeric_mode-octal}
use ebftpd.Fs.Mode.Symbolic.{
  compile, out_of_fuel, invalid, compiled, apply_mode, apply_one, bits, symbolic_loop, changes_loop,
  mode_value, bits_loop, compile_numeric, some_bit, three_bits,
}
use ebftpd.Fs.Mode.Symbolic.Kept.{KeepsSpecial, compile-KeepsSpecial}

mode_755 : numeric_mode (codes "0755") ≡ some 493
unfolding numeric_mode is_octal_digit
mode_755 = refl

mode_1755 : numeric_mode (codes "1755") ≡ none
unfolding numeric_mode
mode_1755 = refl

mode_8 : numeric_mode (codes "8") ≡ none
unfolding numeric_mode is_octal_digit
mode_8 = refl

numeric_mode-octal_example :
    (numeric_mode (codes "0755")
      ≡ (if has_mode_length (codes "0755") then octal (codes "0755") 0 else none))
    × InPermissions (numeric_mode (codes "0755"))
numeric_mode-octal_example = numeric_mode-octal (codes "0755")

compile-KeepsSpecial_example : KeepsSpecial (compile (codes "g=u,o-w"))
compile-KeepsSpecial_example = compile-KeepsSpecial (codes "g=u,o-w")

-- The bits of the permissions that a text makes of others, with the umask 022, the highest first.
abbrev chmod : Str → ℕ → Option (List Bool)
chmod s mode = elim (compile s) [
  | out_of_fuel ↦ none
  | invalid ↦ none
  | compiled cs rest ↦
      let w = apply_mode cs (bits 18) (bits mode) in
      some (w 8 ∷ w 7 ∷ w 6 ∷ w 5 ∷ w 4 ∷ w 3 ∷ w 2 ∷ w 1 ∷ w 0 ∷ [])
]

abbrev triple : Bool → Bool → Bool → List Bool → List Bool
triple r w x rest = r ∷ w ∷ x ∷ rest

copied_to_group :
    chmod (codes "g=u,o-r") 484
    ≡ some (triple true true true (triple true true true (triple false false false [])))
unfolding compile symbolic_loop changes_loop mode_value bits_loop compile_numeric numeric_mode
    apply_mode apply_one some_bit three_bits bits
copied_to_group = refl

-- Where no class is named, the sign = adds as + does: 0777 stays.
equals_adds :
    chmod (codes "=r") 511
    ≡ some (triple true true true (triple true true true (triple true true true [])))
unfolding compile symbolic_loop changes_loop mode_value bits_loop compile_numeric numeric_mode
    apply_mode apply_one some_bit three_bits bits
equals_adds = refl

no_such_who : chmod (codes "z+x") 511 ≡ none
unfolding compile symbolic_loop changes_loop mode_value bits_loop
no_such_who = refl
