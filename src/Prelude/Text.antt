-- ===== src/Prelude/Text.antt =====
-- Texts of the program (std::string) as lists of character codes, with the searches it makes.
use Prim.Native.Nat.{ℕ}
use Prim.Native.Char.{code}
use Prim.Native.String.{String}
use mathlib.Core.Path.{◌≡◌, refl, sym, subst}
use mathlib.Core.Logic.{◌⊎◌, inl, inr}
use mathlib.Core.Bool.{Bool, true, false, ◌&&◌, ◌||◌}
use mathlib.Core.List.{List, [], ◌∷◌, ◌++◌}
use native.Mathlib.Omega.{arith}
use ebftpd.Prelude.Tests.{◌==◌}

abbrev pub Str : Type 0
Str = List ℕ

-- The codes of a literal.
abbrev pub codes : String → Str
codes String.[] = []
codes (String.◌∷◌ c s) = code c ∷ codes s

-- std::string's operator==.
unfoldable pub str_eq : Str → Str → Bool
str_eq [] [] = true
str_eq [] (y ∷ ys) = false
str_eq (x ∷ xs) [] = false
str_eq (x ∷ xs) (y ∷ ys) = x == y && str_eq xs ys

pub str_eq_refl : (s : Str) → str_eq s s ≡ true
unfolding str_eq
str_eq_refl [] = refl
str_eq_refl (x ∷ xs) = ground (arith, str_eq_refl xs)

pub str_eq_sound : (s t : Str) → str_eq s t ≡ true → s ≡ t
unfolding str_eq
str_eq_sound [] [] h = refl
str_eq_sound [] (y ∷ ys) h = cc
str_eq_sound (x ∷ xs) [] h = cc
str_eq_sound (x ∷ xs) (y ∷ ys) h = ground (arith, str_eq_sound xs ys)

-- find(ch) != npos.
unfoldable pub has_char : ℕ → Str → Bool
has_char c [] = false
has_char c (x ∷ xs) = x == c || has_char c xs

-- find_first_of(chars) != npos, with the roles as in the source: does the text hold one of them.
unfoldable pub has_any : Str → Str → Bool
unfolding has_char
has_any chars [] = false
has_any chars (x ∷ xs) = has_char x chars || has_any chars xs

-- compare(0, prefix.length(), prefix) == 0.
unfoldable pub starts_with : Str → Str → Bool
starts_with s [] = true
starts_with [] (p ∷ ps) = false
starts_with (x ∷ xs) (p ∷ ps) = x == p && starts_with xs ps

pub starts_with-append : (p s : Str) → starts_with (p ++ s) p ≡ true
unfolding starts_with
starts_with-append [] s = refl
starts_with-append (x ∷ p) s = ground (arith, starts_with-append p s)

-- Membership of a character, as a type.
abbrev pub In : ℕ → Str → Type 0
In c [] = ⊥
In c (x ∷ xs) = (x ≡ c) ⊎ In c xs

pub has_char_sound : (c : ℕ) (s : Str) → has_char c s ≡ true → In c s
unfolding has_char
has_char_sound c [] h = cc
has_char_sound c (x ∷ s) h = ground (arith, has_char_sound c s)

pub has_char_complete : (c : ℕ) (s : Str) → In c s → has_char c s ≡ true
unfolding has_char
has_char_complete c [] h = absurd h
has_char_complete c (x ∷ s) (inl e) = ground arith
has_char_complete c (x ∷ s) (inr h) = ground (arith, has_char_complete c s h)

-- Do two texts share a character?
pub has_any_sound : (chars s : Str) → has_any chars s ≡ true → (c : ℕ) × In c s × In c chars
unfolding has_any
has_any_sound chars [] h = cc
has_any_sound chars (x ∷ s) h = go (has_char x chars) refl (has_any_sound chars s) h
  where
    go :
        (b : Bool)
        → has_char x chars ≡ b
        → (has_any chars s ≡ true → (c : ℕ) × In c s × In c chars)
        → (b || has_any chars s) ≡ true
        → (c : ℕ) × In c (x ∷ s) × In c chars
    go true e rest h = (x, inl refl, has_char_sound x chars e)
    go false e rest h = let r = rest h in (r.0, inr r.1, r.2)

pub has_any_complete : (chars s : Str) (c : ℕ) → In c s → In c chars → has_any chars s ≡ true
unfolding has_any
has_any_complete chars [] c h k = absurd h
has_any_complete chars (x ∷ s) c (inl e) k =
    rw (has_char_complete x chars (subst (λ y. In y chars) (sym e) k))
has_any_complete chars (x ∷ s) c (inr h) k = ground (arith, has_any_complete chars s c h k)
