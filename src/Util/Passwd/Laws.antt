-- ===== src/Util/Passwd/Laws.antt =====
-- Decoding undoes encoding, for bytes.
use ebftpd.Prelude.{ℕ, ◌+◌, ◌*◌, ◌/◌, ◌%◌, ◌<◌, ◌≡◌, refl, sym, ap, ◌∙◌, [], ◌∷◌, Str, arith}
use ebftpd.Util.Passwd.{hex_encode, hex_decode, read_hex, hex_digit}

abbrev pub IsBytes : Str → Type 0
IsBytes [] = Unit
IsBytes (c ∷ s) = (c < 256) × IsBytes s

read_hex-hex_digit : (x y : ℕ) → x < 16 → y < 16 → read_hex (hex_digit x) (hex_digit y) ≡ 16 * x + y
unfolding read_hex
read_hex-hex_digit x y h k = ground arith

-- Decoding the encoding of a text of bytes gives the text back.
pub hex_decode-hex_encode : (s : Str) → IsBytes s → hex_decode (hex_encode s) ≡ s
unfolding hex_encode hex_decode
hex_decode-hex_encode [] b = refl
hex_decode-hex_encode (c ∷ s) b = ground (
  arith,
  read_hex-hex_digit (c / 16) (c % 16) (omega arith) (omega arith),
  hex_decode-hex_encode s b.1,
)

-- So texts of bytes with one encoding are one text.
pub hex_encode-injective : (s t : Str) → IsBytes s → IsBytes t → hex_encode s ≡ hex_encode t → s ≡ t
hex_encode-injective s t b c e =
    sym (hex_decode-hex_encode s b) ∙ ap hex_decode e ∙ hex_decode-hex_encode t c
