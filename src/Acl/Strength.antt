-- ===== src/Acl/Strength.antt =====
-- src/acl/passwdstrength.hpp and ipstrength.hpp: how strong a password and an address mask are, and
-- whether that is enough. The character classes are those of the C locale.
pub mod Laws
pub mod Tests
use ebftpd.Prelude.{
  ℕ, zero, suc, ◌+◌, Bool, true, false, not, Option, none, some, List, [], ◌∷◌, Str, codes,
  has_char, has_any, length, leb, ltb, ◌==◌, ◌&&◌, ◌||◌, if◌then◌else◌,
}

abbrev pub is_digit : ℕ → Bool
is_digit c = leb b'0' c && leb c b'9'

abbrev pub is_upper : ℕ → Bool
is_upper c = leb b'A' c && leb c b'Z'

abbrev pub is_alpha : ℕ → Bool
is_alpha c = is_upper c || (leb b'a' c && leb c b'z')

pub record PasswdStrength : Type 0 where
  pub upper_case : ℕ
  pub lower_case : ℕ
  pub length : ℕ
  pub digits : ℕ
  pub others : ℕ

-- The body of the loop of the constructor.
unfoldable pub count_char : PasswdStrength → ℕ → PasswdStrength
count_char s ch =
    if is_digit ch
    then record s { digits = s.digits + 1 }
    else if is_alpha ch
    then (if is_upper ch
        then record s { upper_case = s.upper_case + 1 }
        else record s { lower_case = s.lower_case + 1 })
    else if not (ch == b'.')
    then record s { others = s.others + 1 }
    else s

unfoldable pub count_chars : PasswdStrength → Str → PasswdStrength
unfolding count_char
count_chars s [] = s
count_chars s (ch ∷ rest) = count_chars (count_char s ch) rest

unfoldable pub passwd_strength : Str → PasswdStrength
unfolding count_chars
passwd_strength password =
    count_chars
      (record {
        upper_case = 0;
        lower_case = 0;
        length = ebftpd.Prelude.length password;
        digits = 0;
        others = 0;
      })
      password

-- `Allowed`: the first strength is the minimum, the second the password's.
unfoldable pub passwd_allowed : PasswdStrength → PasswdStrength → Bool
passwd_allowed minimum user =
    leb minimum.length user.length
    && (leb minimum.upper_case user.upper_case
        && (leb minimum.lower_case user.lower_case
            && (leb minimum.digits user.digits && leb minimum.others user.others)))

pub record IpStrength : Type 0 where
  pub num_octets : ℕ
  pub is_hostname : Bool
  pub has_ident : Bool

abbrev pub wildcards : Str
wildcards = codes "*?[]"

-- What stands before and after `find_last_of('@')`.
unfoldable pub split_ident : Str → Option (Str × Str)
split_ident [] = none
split_ident (c ∷ s) = elim (split_ident s) [
  | some (a, b) ↦ some (c ∷ a, b)
  | none ↦ if c == b'@' then some ([], s) else none
]

-- The loop over the address, with the octet that is counted where it reaches the end.
unfoldable pub count_octets : Bool → ℕ → Str → IpStrength
count_octets has_ident num_octets [] = record {
  num_octets = num_octets + 1;
  is_hostname = false;
  has_ident = has_ident;
}
count_octets has_ident num_octets (c ∷ rest) =
    let counted = count_octets has_ident (num_octets + 1) rest in
    let further = count_octets has_ident num_octets rest in
    if c == b'.' || c == b':'
    then counted
    else if is_digit c
    then further
    else if has_char c wildcards
    then record { num_octets = num_octets; is_hostname = false; has_ident = has_ident }
    else if is_alpha c || c == b'-'
    then record { num_octets = num_octets; is_hostname = true; has_ident = has_ident }
    else further

unfoldable pub ip_strength : Str → IpStrength
unfolding split_ident count_octets
ip_strength ip = elim (split_ident ip) [
  | some (ident, address) ↦ count_octets (not (has_any wildcards ident)) 0 address
  | none ↦ count_octets false 0 ip
]

-- The answers of `Allowed`.
pub data IpAnswer : Type 0 where
  accepted no_hostname few_octets no_ident : IpAnswer

unfoldable pub ip_allowed : IpStrength → IpStrength → IpAnswer
ip_allowed minimum user =
    if user.is_hostname && not minimum.is_hostname
    then no_hostname
    else if not user.is_hostname && ltb user.num_octets minimum.num_octets
    then few_octets
    else if not user.has_ident && minimum.has_ident
    then no_ident
    else accepted
