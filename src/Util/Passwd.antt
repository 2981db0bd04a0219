-- ===== src/Util/Passwd.antt =====
-- util/util/passwd.cpp: the hexadecimal form of hashes and salts. HashPassword and GenerateSalt
-- call OpenSSL and are parameters of the modules that use them. A byte is a number below 256.
pub mod Laws
pub mod Tests
use ebftpd.Prelude.{
  ℕ, ◌+◌, ◌-◌, ◌*◌, ◌/◌, ◌%◌, ◌^◌, Bool, Option, none, some, List, [], ◌∷◌, Str, ltb, leb, ◌==◌,
  ◌&&◌, ◌||◌, if◌then◌else◌,
}

abbrev hex_digit : ℕ → ℕ
hex_digit n = if ltb n 10 then b'0' + n else b'A' + (n - 10)

-- `std::hex`, `std::uppercase`, two digits filled with 0 for each unsigned char.
unfoldable pub hex_encode : Str → Str
hex_encode [] = []
hex_encode (ch ∷ s) = hex_digit (ch / 16) ∷ hex_digit (ch % 16) ∷ hex_encode s

abbrev digit_value : ℕ → Option ℕ
digit_value c =
    if leb b'0' c && leb c b'9'
    then some (c - b'0')
    else if leb b'A' c && leb c b'F'
    then some (c - b'A' + 10)
    else if leb b'a' c && leb c b'f'
    then some (c - b'a' + 10)
    else none

-- `is >> std::hex >> ch` on a text of two characters, for an unsigned ch that is 0 if it fails:
-- white space is skipped, a sign is read, and the number ends at the first character that is no
-- digit.
abbrev is_space : ℕ → Bool
is_space c = c == 32 || (leb 9 c && leb c 13)

unfoldable pub read_hex : ℕ → ℕ → ℕ
read_hex a b = elim (digit_value a) [
  | some x ↦ elim (digit_value b) [ some y ↦ 16 * x + y | none ↦ x ]
  | none ↦ elim (digit_value b) [
    | some y ↦ if is_space a || a == b'+' then y else if a == b'-' then (2 ^ 32 - y) % 2 ^ 32 else 0
    | none ↦ 0
  ]
]

-- A last single character is dropped.
unfoldable pub hex_decode : Str → Str
hex_decode [] = []
hex_decode (a ∷ []) = []
hex_decode (a ∷ b ∷ s) = read_hex a b % 256 ∷ hex_decode s
