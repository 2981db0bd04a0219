-- ===== src/Fs/Mode/Laws.antt =====
-- Octal modes read from the front and from the end (src/fs/mode.cpp).
use mathlib.Core.List.{reverse, reverse-cons, reverse-reverse}
use ebftpd.Prelude.{
  ◌≡◌, refl, sym, subst, ap, ◌∙◌, inl, inr, ℕ, ◌+◌, ◌-◌, ◌*◌, ◌<◌, ◌++◌, true, false, Option, none,
  some, [], ◌∷◌, Str, ◌==◌, if◌then◌else◌, Bool-cases, ==_iff, arith,
}
use ebftpd.Fs.Mode.{has_mode_length, is_octal_digit, digits_loop, numeric_mode}

-- The number that octal digits stand for, the first digit first.
abbrev pub octal : Str → ℕ → Option ℕ
octal [] n = some n
octal (c ∷ cs) n =
    let rest = octal cs (n * 8 + (c - b'0')) in if is_octal_digit c then rest else none

abbrev then_digit : ℕ → Option ℕ → Option ℕ
then_digit c none = none
then_digit c (some n) = if is_octal_digit c then some (n * 8 + (c - b'0')) else none

-- The same, the last digit first.
abbrev little : Str → Option ℕ
little [] = some 0
little (c ∷ cs) = then_digit c (little cs)

abbrev over : ℕ → ℕ → Option ℕ → Option ℕ
over v f none = none
over v f (some n) = some (v + f * n)

over-then_digit :
    (c v f : ℕ) (o : Option ℕ)
    → is_octal_digit c ≡ true
    → over (v + (c - b'0') * f) (f * 8) o ≡ over v f (then_digit c o)
over-then_digit c v f none d = refl
over-then_digit c v f (some n) d = rw (d) (ap some (omega arith))

then_digit-none : (c : ℕ) (o : Option ℕ) → is_octal_digit c ≡ false → then_digit c o ≡ none
then_digit-none c none d = refl
then_digit-none c (some n) d = rw (d) refl

digits_loop-little : (s : Str) (v f : ℕ) → digits_loop s v f ≡ over v f (little s)
unfolding digits_loop
digits_loop-little [] v f = ap some (omega arith)
digits_loop-little (c ∷ cs) v f = elim (Bool-cases (is_octal_digit c)) [
  | inl d ↦
      rw (d)
        (digits_loop-little cs (v + (c - b'0') * f) (f * 8) ∙ over-then_digit c v f (little cs) d)
  | inr d ↦ rw (d, then_digit-none c (little cs) d) refl
]

octal-append : (s : Str) (c n : ℕ) → octal (s ++ c ∷ []) n ≡ then_digit c (octal s n)
octal-append [] c n = refl
octal-append (x ∷ s) c n = elim (Bool-cases (is_octal_digit x)) [
  | inl d ↦ rw (d) (octal-append s c (n * 8 + (x - b'0')))
  | inr d ↦ rw (d) refl
]

octal-reverse : (s : Str) → octal (reverse s) 0 ≡ little s
octal-reverse [] = refl
octal-reverse (c ∷ cs) =
    ap (λ t. octal t 0) (reverse-cons c cs)
    ∙ octal-append (reverse cs) c 0
    ∙ ap (then_digit c) (octal-reverse cs)

over_unit : (o : Option ℕ) → over 0 1 o ≡ o
over_unit none = refl
over_unit (some n) = ap some (omega arith)

digits_loop-octal : (s : Str) → digits_loop (reverse s) 0 1 ≡ octal s 0
digits_loop-octal s =
    digits_loop-little (reverse s) 0 1
    ∙ over_unit (little (reverse s))
    ∙ sym (octal-reverse (reverse s))
    ∙ ap (λ t. octal t 0) (reverse-reverse s)

is_octal_digit→lt : (c : ℕ) → is_octal_digit c ≡ true → c - b'0' < 8
unfolding is_octal_digit
is_octal_digit→lt c h = ground (arith, h)

abbrev scaled : ℕ → Str → ℕ
scaled b [] = b
scaled b (c ∷ cs) = scaled (b * 8) cs

octal-scaled : (s : Str) (n v b : ℕ) → n < b → octal s n ≡ some v → v < scaled b s
octal-scaled [] n v b h e = ground (arith, h, e)
octal-scaled (c ∷ cs) n v b h e = elim (Bool-cases (is_octal_digit c)) [
  | inl d ↦
      let k = is_octal_digit→lt c d in
      octal-scaled cs (n * 8 + (c - b'0')) v (b * 8) (omega (arith, h, k)) (ground (arith, d, e))
  | inr d ↦ absurd (ground (arith, d, e))
]

octal-tail :
    (c : ℕ) (s : Str) (n v : ℕ) → octal (c ∷ s) n ≡ some v → octal s (n * 8 + (c - b'0')) ≡ some v
octal-tail c s n v e = elim (Bool-cases (is_octal_digit c)) [
  | inl d ↦ ground (arith, d, e)
  | inr d ↦ absurd (ground (arith, d, e))
]

octal_bound : (s : Str) (v : ℕ) → has_mode_length s ≡ true → octal s 0 ≡ some v → v < 512
octal_bound [] v h e = ground (arith, h)
octal_bound (a ∷ []) v h e = let k = octal-scaled (a ∷ []) 0 v 1 (omega arith) e in omega (arith, k)
octal_bound (a ∷ b ∷ []) v h e =
    let k = octal-scaled (a ∷ b ∷ []) 0 v 1 (omega arith) e in omega (arith, k)
octal_bound (a ∷ b ∷ c ∷ []) v h e =
    let k = octal-scaled (a ∷ b ∷ c ∷ []) 0 v 1 (omega arith) e in omega (arith, k)
octal_bound (z ∷ a ∷ b ∷ c ∷ []) v h e = elim (Bool-cases (z == b'0')) [
  | inl f ↦
      let same : z ≡ b'0' = (==_iff z b'0').0 f in
      let k =
        octal-scaled (a ∷ b ∷ c ∷ []) (0 * 8 + (z - b'0')) v 1 (omega (arith, same))
          (octal-tail z (a ∷ b ∷ c ∷ []) 0 v e) in
      omega (arith, k)
  | inr f ↦ absurd (ground (arith, f, h))
]
octal_bound (z ∷ a ∷ b ∷ c ∷ d ∷ s) v h e = absurd (ground (arith, h))

-- A value in the nine bits of the permissions, where there is one.
abbrev pub InPermissions : Option ℕ → Type 0
InPermissions none = Unit
InPermissions (some v) = v < 512

bound-InPermissions : (o : Option ℕ) → ((v : ℕ) → o ≡ some v → v < 512) → InPermissions o
bound-InPermissions none h = tt
bound-InPermissions (some v) h = h v refl

octal-InPermissions : (s : Str) → InPermissions (if has_mode_length s then octal s 0 else none)
octal-InPermissions s = elim (Bool-cases (has_mode_length s)) [
  | inl h ↦ rw (h) (bound-InPermissions (octal s 0) (λ v. octal_bound s v h))
  | inr h ↦ rw (h) tt
]

-- An octal mode is read from its end to the number that its digits stand for, read from the front,
-- which lies below 512 and so in the nine bits of the permissions; and the text is refused where
-- one of its characters is no octal digit, or where it is empty or has more than three characters
-- and is not a zero followed by three.
pub numeric_mode-octal :
    (s : Str)
    → (numeric_mode s ≡ (if has_mode_length s then octal s 0 else none))
      × InPermissions (numeric_mode s)
unfolding numeric_mode
numeric_mode-octal s =
    let same = ap (λ o. if has_mode_length s then o else none) (digits_loop-octal s) in
    (same, subst InPermissions (sym same) (octal-InPermissions s))
