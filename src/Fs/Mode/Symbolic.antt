-- ===== src/Fs/Mode/Symbolic.antt =====
-- src/fs/mode.cpp and mode.hpp: the modes of SITE CHMOD, octal and symbolic, and what they make of
-- the bits of a file. A mode_t is the function of its bits.
pub mod Special
pub mod Kept
use ebftpd.Prelude.{
  ℕ, zero, suc, ◌/◌, ◌%◌, Bool, true, false, not, Option, none, some, List, [], ◌∷◌, Str, length,
  ltb, ◌==◌, ◌&&◌, ◌||◌, ◌++◌, if◌then◌else◌,
}
use ebftpd.Fs.Mode.{numeric_mode}

abbrev pub Word : Type 0
Word = ℕ → Bool

abbrev pub no_bits : Word
no_bits i = false

abbrev pub both : Word → Word → Word
both a b i = a i && b i

abbrev pub either : Word → Word → Word
either a b i = a i || b i

abbrev pub without : Word → Word → Word
without a b i = a i && not (b i)

unfoldable pub three_bits : ℕ → ℕ → ℕ → Word
three_bits a b c i = i == a || i == b || i == c

abbrev pub user_bits : Word
user_bits = three_bits 8 7 6

abbrev pub group_bits : Word
group_bits = three_bits 5 4 3

abbrev pub other_bits : Word
other_bits = three_bits 2 1 0

abbrev pub all_bits : Word
all_bits = either (either user_bits group_bits) other_bits

abbrev pub read_bits : Word
read_bits = three_bits 8 5 2

abbrev pub write_bits : Word
write_bits = three_bits 7 4 1

abbrev pub exec_bits : Word
exec_bits = three_bits 6 3 0

-- Is one of the first bits set?
unfoldable pub some_bit : ℕ → Word → Bool
some_bit zero w = false
some_bit (suc n) w = w n || some_bit n w

abbrev pub is_nonzero : Word → Bool
is_nonzero w = some_bit 32 w

-- The bits of a number.
unfoldable pub bits : ℕ → Word
bits n zero = n % 2 == 1
bits n (suc i) = bits (n / 2) i

pub data ModeOperator : Type 0 where
  plus minus equals : ModeOperator

pub data ModeKind : Type 0 where
  normal copy : ModeKind

pub record ModeChange : Type 0 where
  pub op : ModeOperator
  pub kind : ModeKind
  pub affected : Word
  pub value : Word

-- What a text is read to: the changes and the rest, or an InvalidModeString.
pub data Compiled : Type 0 where
  out_of_fuel invalid : Compiled
  compiled : List ModeChange → Str → Compiled

abbrev pub who_bits : ℕ → Option Word
who_bits c =
    if c == b'a'
    then some all_bits
    else if c == b'u'
    then some user_bits
    else if c == b'g'
    then some group_bits
    else if c == b'o'
    then some other_bits
    else none

abbrev pub permission_bits : ℕ → Option Word
permission_bits c =
    if c == b'r'
    then some read_bits
    else if c == b'w'
    then some write_bits
    else if c == b'x'
    then some exec_bits
    else none

abbrev pub copied_bits : ℕ → Option Word
copied_bits c =
    if c == b'u'
    then some user_bits
    else if c == b'g'
    then some group_bits
    else if c == b'o'
    then some other_bits
    else none

abbrev pub operator_of : ℕ → Option ModeOperator
operator_of c =
    if c == b'+'
    then some plus
    else if c == b'-'
    then some minus
    else if c == b'='
    then some equals
    else none

-- A loop over characters that stand for bits.
unfoldable pub bits_loop : (ℕ → Option Word) → Str → Word → Word × Str
bits_loop meaning [] w = (w, [])
bits_loop meaning (c ∷ s) w = elim (meaning c) [
  | none ↦ (w, c ∷ s)
  | some b ↦ bits_loop meaning s (either w b)
]

unfoldable pub mode_value : Str → ModeKind × (Word × Str)
unfolding bits_loop
mode_value [] = (normal, (no_bits, []))
mode_value (c ∷ s) = elim (copied_bits c) [
  | some b ↦ (copy, (b, s))
  | none ↦ (normal, bits_loop permission_bits (c ∷ s) no_bits)
]

-- The end of the text is read as its terminator, which is no operator.
abbrev pub at_operator : Str → Bool
at_operator [] = false
at_operator (c ∷ s) = c == b'-' || c == b'=' || c == b'+'

-- The inner loop.
unfoldable pub changes_loop : ℕ → Word → Str → List ModeChange → Compiled
unfolding mode_value
changes_loop zero affected s changes = out_of_fuel
changes_loop (suc n) affected [] changes = invalid
changes_loop (suc n) affected (c ∷ s) changes = elim (operator_of c) [
  | none ↦ invalid
  | some op ↦
      let v = mode_value s in
      let now =
        changes ++ (record { op = op; kind = v.0; affected = affected; value = v.1.0 }) ∷ [] in
      let rest = changes_loop n affected v.1.1 now in
      if at_operator v.1.1 then rest else compiled now v.1.1
]

-- The tests after the inner loop.
abbrev pub after_comma : (Str → List ModeChange → Compiled) → Compiled → Compiled
after_comma more out_of_fuel = out_of_fuel
after_comma more invalid = invalid
after_comma more (compiled now []) = compiled now []
after_comma more (compiled now (d ∷ t)) = if d == b',' then more t now else invalid

-- The outer loop.
unfoldable pub symbolic_loop : ℕ → Str → List ModeChange → Compiled
unfolding changes_loop bits_loop
symbolic_loop zero s changes = out_of_fuel
symbolic_loop (suc n) [] changes = compiled changes []
symbolic_loop (suc n) (c ∷ s) changes =
    let who = bits_loop who_bits (c ∷ s) no_bits in
    after_comma (symbolic_loop n) (changes_loop (suc (length who.1)) who.0 who.1 changes)

abbrev pub is_digit_char : ℕ → Bool
is_digit_char c = not (ltb c b'0' || ltb b'9' c)

abbrev pub numeric_change : ℕ → ModeChange
numeric_change v = record { op = equals; kind = normal; affected = all_bits; value = bits v }

abbrev pub numeric_outcome : Option ℕ → Compiled
numeric_outcome none = invalid
numeric_outcome (some v) = compiled (numeric_change v ∷ []) []

unfoldable pub compile_numeric : Str → Compiled
compile_numeric s = numeric_outcome (numeric_mode s)

unfoldable pub compile : Str → Compiled
unfolding symbolic_loop compile_numeric
compile [] = invalid
compile (c ∷ s) =
    if is_digit_char c
    then compile_numeric (c ∷ s)
    else symbolic_loop (suc (length (c ∷ s))) (c ∷ s) []

-- A permission that one class has, for all classes.
abbrev pub spread : Word → Word → Word
spread permission w = if is_nonzero (both w permission) then either w permission else w

abbrev pub copied_value : ModeKind → Word → Word → Word
copied_value normal value mode = value
copied_value copy value mode =
    spread exec_bits (spread write_bits (spread read_bits (both value mode)))

-- The affected bits, or those that the umask leaves.
abbrev pub masked_value : Word → Word → Word → Word
masked_value affected umask value =
    if is_nonzero affected then both value affected else without value umask

abbrev pub combined : ModeOperator → Word → Word → Word → Word
combined equals affected mode value = either (without mode affected) value
combined plus affected mode value = either mode value
combined minus affected mode value = without mode value

unfoldable pub apply_one : Word → Word → ModeChange → Word
unfolding some_bit
apply_one umask mode c =
    combined c.op c.affected mode (masked_value c.affected umask (copied_value c.kind c.value mode))

unfoldable pub apply_mode : List ModeChange → Word → Word → Word
unfolding apply_one
apply_mode [] umask mode = mode
apply_mode (c ∷ cs) umask mode = apply_mode cs umask (apply_one umask mode c)
