-- ===== src/Acl/Strength/Laws.antt =====
-- The counts of src/acl/passwdstrength.hpp and ipstrength.hpp against counts by class of character.
use ebftpd.Prelude.{
  ℕ, ◌+◌, ◌≤◌, ◌≡◌, refl, ap, ◌∙◌, inl, inr, Bool, true, false, not, subst, Bool-cases, [], ◌∷◌,
  ◌++◌, Str, has_char, length, length-append, leb, ◌==◌, ◌&&◌, ◌||◌, if◌then◌else◌, arith,
}
use mathlib.Core.List.{append-nil}
use native.Mathlib.Nat.{zero-add}
use ebftpd.Acl.Strength.{
  is_digit, is_upper, is_alpha, PasswdStrength, count_char, count_chars, passwd_strength,
  passwd_allowed, IpStrength, count_octets, wildcards,
}

-- How many characters are of a class.
unfoldable pub number : (ℕ → Bool) → Str → ℕ
number class [] = 0
number class (c ∷ s) = (if class c then 1 else 0) + number class s

abbrev pub is_lower : ℕ → Bool
is_lower c = leb b'a' c && leb c b'z'

abbrev pub is_other : ℕ → Bool
is_other c = not (is_digit c || (is_upper c || (is_lower c || c == b'.')))

number-append :
    (class : ℕ → Bool) (s t : Str) → number class (s ++ t) ≡ number class s + number class t
unfolding number
number-append class [] t = omega arith
number-append class (c ∷ s) t = omega (arith, number-append class s t)

abbrev plus : PasswdStrength → Str → PasswdStrength
plus s p = record {
  upper_case = s.upper_case + number is_upper p;
  lower_case = s.lower_case + number is_lower p;
  length = s.length;
  digits = s.digits + number is_digit p;
  others = s.others + number is_other p;
}

abbrev unit : (ℕ → Bool) → ℕ → ℕ
unit class c = if class c then 1 else 0

count_char_lem :
    (s : PasswdStrength) (c : ℕ)
    → count_char s c ≡ record {
      upper_case = s.upper_case + unit is_upper c;
      lower_case = s.lower_case + unit is_lower c;
      length = s.length;
      digits = s.digits + unit is_digit c;
      others = s.others + unit is_other c;
    }
unfolding count_char
count_char_lem s c = ground arith

-- The field of the counts, added up in the order of the loop.
added :
    (class : ℕ → Bool) (n : ℕ) (c : ℕ) (p : Str)
    → (n + unit class c) + number class p ≡ n + number class (c ∷ p)
unfolding number
added class n c p = omega arith

count_chars-plus : (p : Str) (s : PasswdStrength) → count_chars s p ≡ plus s p
unfolding count_chars number
count_chars-plus [] s = ground arith
count_chars-plus (c ∷ p) s =
    ap (λ t. count_chars t p) (count_char_lem s c)
    ∙ count_chars-plus p _
    ∙ rw (
      added is_upper s.upper_case c p,
      added is_lower s.lower_case c p,
      added is_digit s.digits c p,
      added is_other s.others c p,
    )

-- The strength of a password is its length and the numbers of its upper case letters, lower case
-- letters, digits, and characters that are none of these and not a dot.
pub passwd_strength_lem :
    (p : Str)
    → passwd_strength p ≡ record {
      upper_case = number is_upper p;
      lower_case = number is_lower p;
      length = length p;
      digits = number is_digit p;
      others = number is_other p;
    }
unfolding passwd_strength
passwd_strength_lem p = count_chars-plus p _ ∙ ground arith

number-around : (class : ℕ → Bool) (s p t : Str) → number class p ≤ number class (s ++ (p ++ t))
number-around class s p t = omega (arith, number-append class s (p ++ t), number-append class p t)

-- A password that is strong enough stays so with any text before and after it.
pub passwd_allowed-append :
    (minimum : PasswdStrength) (before p after : Str)
    → passwd_allowed minimum (passwd_strength p) ≡ true
    → passwd_allowed minimum (passwd_strength (before ++ (p ++ after))) ≡ true
unfolding passwd_allowed
passwd_allowed-append minimum before p after h = ground (
  arith,
  passwd_strength_lem p,
  passwd_strength_lem (before ++ (p ++ after)),
  number-around is_upper before p after,
  number-around is_lower before p after,
  number-around is_digit before p after,
  number-around is_other before p after,
  length-append before (p ++ after),
  length-append p after,
)

-- Digits, and the separators "." and ":".
abbrev pub is_separator : ℕ → Bool
is_separator c = c == b'.' || c == b':'

abbrev pub IsNumeric : Str → Type 0
IsNumeric [] = Unit
IsNumeric (c ∷ s) = ((is_digit c || is_separator c) ≡ true) × IsNumeric s

abbrev pub octets : ℕ → Bool → Bool → IpStrength
octets n is_hostname has_ident = record {
  num_octets = n;
  is_hostname = is_hostname;
  has_ident = has_ident;
}

-- What the loop does on digits and separators.
count_octets-append :
    (ident : Bool) (n : ℕ) (a b : Str)
    → IsNumeric a
    → count_octets ident n (a ++ b) ≡ count_octets ident (n + number is_separator a) b
unfolding count_octets number
count_octets-append ident n [] b h = ground arith
count_octets-append ident n (c ∷ a) b h = elim (Bool-cases (is_separator c)) [
  | inl e ↦ rw e (count_octets-append ident (n + 1) a b h.1 ∙ ground arith)
  | inr e ↦ rw (e, digit e, zero-add) (count_octets-append ident n a b h.1)
]
  where
    digit : is_separator c ≡ false → is_digit c ≡ true
    digit e = ground (arith, e, h.0)

count_octets-start :
    (ident : Bool) (a b : Str)
    → IsNumeric a
    → count_octets ident 0 (a ++ b) ≡ count_octets ident (number is_separator a) b
count_octets-start ident a b h =
    count_octets-append ident 0 a b h ∙ ap (λ m. count_octets ident m b) (zero-add _)

at_end : (ident : Bool) (n : ℕ) → count_octets ident n [] ≡ octets (n + 1) false ident
unfolding count_octets
at_end ident n = refl

at_wildcard :
    (ident : Bool) (n c : ℕ) (b : Str)
    → has_char c wildcards ≡ true
    → count_octets ident n (c ∷ b) ≡ octets n false ident
unfolding count_octets has_char
at_wildcard ident n c b w = ground arith

at_letter :
    (ident : Bool) (n c : ℕ) (b : Str)
    → (is_alpha c || c == b'-') ≡ true
    → count_octets ident n (c ∷ b) ≡ octets n true ident
unfolding count_octets has_char
at_letter ident n c b w = ground arith

-- An address of digits and separators has one octet more than separators. Where it goes on with a
-- wildcard or with a letter or a dash, what follows does not count: it has as many octets as
-- separators before that, and in the second case it is a host name.
pub count_octets_lem :
    (ident : Bool) (a b : Str) (c : ℕ)
    → IsNumeric a
    → (count_octets ident 0 a ≡ octets (number is_separator a + 1) false ident)
      × (has_char c wildcards ≡ true
          → count_octets ident 0 (a ++ c ∷ b) ≡ octets (number is_separator a) false ident)
      × ((is_alpha c || c == b'-') ≡ true
          → count_octets ident 0 (a ++ c ∷ b) ≡ octets (number is_separator a) true ident)
count_octets_lem ident a b c h = (
  subst (λ v. count_octets ident 0 v ≡ octets (number is_separator a + 1) false ident)
      (append-nil a) (count_octets-start ident a [] h ∙ at_end ident _),
  λ w. count_octets-start ident a (c ∷ b) h ∙ at_wildcard ident _ c b w,
  λ w. count_octets-start ident a (c ∷ b) h ∙ at_letter ident _ c b w,
)
