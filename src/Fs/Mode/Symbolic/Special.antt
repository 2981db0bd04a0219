-- ===== src/Fs/Mode/Symbolic/Special.antt =====
-- The bits above the permissions (src/fs/mode.cpp).
use native.Mathlib.Numerals.{unary_clauses}
use ebftpd.Prelude.{
  ◌≡◌, refl, inl, inr, ap, ◌∙◌, ◌*◌, ℕ, zero, suc, ◌+◌, ◌/◌, ◌^◌, ◌<◌, false, List, [], ◌∷◌, ◌++◌,
  Bool-cases, arith,
}
use ebftpd.Fs.Mode.Symbolic.{
  Word, both, either, without, three_bits, bits, ModeChange, normal, copy, plus, minus, equals,
  apply_one, apply_mode, spread, is_nonzero, ModeKind, ModeOperator, copied_value, masked_value,
  combined, exec_bits, write_bits, read_bits,
}

-- The word has no bit above the permissions.
abbrev pub Low : Word → Type 0
Low w = (i : ℕ) → w (9 + i) ≡ false

pub three_bits-Low : (a b c : ℕ) → a < 9 → b < 9 → c < 9 → Low (three_bits a b c)
unfolding three_bits
three_bits-Low a b c x y z = λ i. ground (arith, x, y, z)

pub bits_below : (k n i : ℕ) → n < 2 ^ k → bits n (k + i) ≡ false
unfolding bits
bits_below zero n zero h = ground (arith, h)
bits_below zero n (suc i) h =
    let shift : zero + suc i ≡ suc (zero + i) = omega arith in
    ap (bits n) shift ∙ bits_below zero (n / 2) i (omega (arith, h))
bits_below (suc k) n i h =
    let shift : suc k + i ≡ suc (k + i) = omega arith in
    let power : 2 ^ suc k ≡ 2 * 2 ^ k = simp unary_clauses (omega arith) in
    ap (bits n) shift ∙ bits_below k (n / 2) i (omega (arith, h, power))

pub either-Low : (a b : Word) → Low a → Low b → Low (either a b)
either-Low a b x y = λ i. rw (x i, y i) refl

both-Low : (a b : Word) → Low a → Low (both a b)
both-Low a b x = λ i. rw (x i) refl

without-Low : (a b : Word) → Low a → Low (without a b)
without-Low a b x = λ i. rw (x i) refl

spread-Low : (p w : Word) → Low p → Low w → Low (spread p w)
spread-Low p w x y = elim (Bool-cases (is_nonzero (both w p))) [
  | inl e ↦ rw (e) (either-Low w p y x)
  | inr e ↦ rw (e) y
]

copied-Low : (k : ModeKind) (value mode : Word) → Low value → Low (copied_value k value mode)
copied-Low normal value mode h = h
copied-Low copy value mode h =
    spread-Low exec_bits _ (three_bits-Low 6 3 0 (omega arith) (omega arith) (omega arith)) (
      spread-Low write_bits _ (three_bits-Low 7 4 1 (omega arith) (omega arith) (omega arith)) (
        spread-Low read_bits _ (three_bits-Low 8 5 2 (omega arith) (omega arith) (omega arith))
          (both-Low value mode h)))

masked-Low : (affected umask value : Word) → Low value → Low (masked_value affected umask value)
masked-Low affected umask value h = elim (Bool-cases (is_nonzero affected)) [
  | inl e ↦ rw (e) (both-Low value affected h)
  | inr e ↦ rw (e) (without-Low value umask h)
]

combined-above :
    (op : ModeOperator) (affected mode value : Word)
    → Low affected
    → Low value
    → (i : ℕ) → combined op affected mode value (9 + i) ≡ mode (9 + i)
combined-above equals affected mode value x y i = rw (x i, y i) (ground arith)
combined-above plus affected mode value x y i = rw (y i) (ground arith)
combined-above minus affected mode value x y i = rw (y i) (ground arith)

abbrev pub AllLow : List ModeChange → Type 0
AllLow [] = Unit
AllLow (c ∷ cs) = (Low c.affected × Low c.value) × AllLow cs

apply_one-above :
    (umask mode : Word) (c : ModeChange)
    → Low c.affected
    → Low c.value
    → (i : ℕ) → apply_one umask mode c (9 + i) ≡ mode (9 + i)
unfolding apply_one
apply_one-above umask mode c x y =
    combined-above c.op c.affected mode _ x
      (masked-Low c.affected umask _ (copied-Low c.kind c.value mode y))

pub apply_mode-above :
    (cs : List ModeChange) (umask mode : Word)
    → AllLow cs
    → (i : ℕ) → apply_mode cs umask mode (9 + i) ≡ mode (9 + i)
unfolding apply_mode
apply_mode-above [] umask mode h i = refl
apply_mode-above (c ∷ cs) umask mode ((x, y), h) i =
    apply_mode-above cs umask (apply_one umask mode c) h i ∙ apply_one-above umask mode c x y i

pub AllLow-append :
    (cs : List ModeChange) (c : ModeChange)
    → AllLow cs
    → Low c.affected
    → Low c.value
    → AllLow (cs ++ c ∷ [])
AllLow-append [] c h x y = ((x, y), tt)
AllLow-append (d ∷ cs) c (k, h) x y = (k, AllLow-append cs c h x y)
