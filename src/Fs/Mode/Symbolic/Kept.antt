-- ===== src/Fs/Mode/Symbolic/Kept.antt =====
-- Every text is compiled to an end, to changes below the special bits (src/fs/mode.cpp).
use ebftpd.Prelude.{
  ◌≡◌, refl, inl, inr, subst, ℕ, zero, suc, ◌+◌, ◌<◌, ◌≤◌, Bool, true, false, Option, none, some,
  List, [], ◌∷◌, Str, length, ◌==◌, ◌++◌, if◌then◌else◌, Option-cases, arith,
}
use ebftpd.Fs.Mode.{numeric_mode}
use ebftpd.Fs.Mode.Laws.{InPermissions, numeric_mode-octal}
use ebftpd.Fs.Mode.Symbolic.{
  Word, no_bits, either, user_bits, group_bits, other_bits, all_bits, read_bits, write_bits,
  exec_bits, ModeChange, Compiled, out_of_fuel, invalid, compiled, who_bits, permission_bits,
  copied_bits, operator_of, bits_loop, mode_value, at_operator, changes_loop, symbolic_loop,
  after_comma, numeric_outcome, is_digit_char, compile_numeric, compile, apply_mode,
}
use ebftpd.Fs.Mode.Symbolic.Special.{
  Low, three_bits-Low, either-Low, bits_below, AllLow, AllLow-append, apply_mode-above,
}

abbrev LowIfAny : Option Word → Type 0
LowIfAny none = Unit
LowIfAny (some w) = Low w

chosen-Low :
    (b : Bool) (w : Word) (o : Option Word)
    → Low w
    → LowIfAny o
    → LowIfAny (if b then some w else o)
chosen-Low true w o h k = h
chosen-Low false w o h k = k

user_bits-Low : Low user_bits
user_bits-Low = three_bits-Low 8 7 6 (omega arith) (omega arith) (omega arith)

group_bits-Low : Low group_bits
group_bits-Low = three_bits-Low 5 4 3 (omega arith) (omega arith) (omega arith)

other_bits-Low : Low other_bits
other_bits-Low = three_bits-Low 2 1 0 (omega arith) (omega arith) (omega arith)

all_bits-Low : Low all_bits
all_bits-Low =
    either-Low (either user_bits group_bits) other_bits
      (either-Low user_bits group_bits user_bits-Low group_bits-Low) other_bits-Low

copied_bits-Low : (c : ℕ) → LowIfAny (copied_bits c)
copied_bits-Low c = chosen-Low (c == b'u') user_bits _ user_bits-Low (
    chosen-Low (c == b'g') group_bits _ group_bits-Low
      (chosen-Low (c == b'o') other_bits none other_bits-Low tt))

who_bits-Low : (c : ℕ) → LowIfAny (who_bits c)
who_bits-Low c = chosen-Low (c == b'a') all_bits _ all_bits-Low (copied_bits-Low c)

permission_bits-Low : (c : ℕ) → LowIfAny (permission_bits c)
permission_bits-Low c =
    chosen-Low (c == b'r') read_bits _
      (three_bits-Low 8 5 2 (omega arith) (omega arith) (omega arith))
      (chosen-Low (c == b'w') write_bits _
        (three_bits-Low 7 4 1 (omega arith) (omega arith) (omega arith))
        (chosen-Low (c == b'x') exec_bits none
          (three_bits-Low 6 3 0 (omega arith) (omega arith) (omega arith)) tt))

low : (o : Option Word) (w : Word) → LowIfAny o → o ≡ some w → Low w
low o w h e = subst LowIfAny e h

bits_loop-Low :
    (meaning : ℕ → Option Word) (s : Str) (w : Word)
    → ((c : ℕ) → LowIfAny (meaning c))
    → Low w
    → (let r = bits_loop meaning s w in Low r.0 × (length r.1 ≤ length s))
unfolding bits_loop
bits_loop-Low meaning [] w m h = (h, omega arith)
bits_loop-Low meaning (c ∷ s) w m h = elim (Option-cases (meaning c)) [
  | inl e ↦ rw (bits_loop, e) (h, omega arith)
  | inr (b, e) ↦
      let (k, l) =
        bits_loop-Low meaning s (either w b) m (either-Low w b h (low (meaning c) b (m c) e)) in
      rw (bits_loop, e) (k, omega (arith, l))
]

mode_value-Low : (s : Str) → (let v = mode_value s in Low v.1.0 × (length v.1.1 ≤ length s))
unfolding mode_value
mode_value-Low [] = ((λ i. refl), omega arith)
mode_value-Low (c ∷ s) = elim (Option-cases (copied_bits c)) [
  | inl e ↦
      rw (mode_value, e)
        (bits_loop-Low permission_bits (c ∷ s) no_bits permission_bits-Low (λ i. refl))
  | inr (b, e) ↦ rw (mode_value, e) (low (copied_bits c) b (copied_bits-Low c) e, omega arith)
]

-- A text was read to changes below the special bits, with at most so many characters left.
abbrev ReadWithin : ℕ → Compiled → Type 0
ReadWithin n out_of_fuel = ⊥
ReadWithin n invalid = Unit
ReadWithin n (compiled cs rest) = AllLow cs × (length rest ≤ n)

either_way :
    (P : Compiled → Type 0) (b : Bool) (x y : Compiled) → P x → P y → P (if b then x else y)
either_way P true x y h k = h
either_way P false x y h k = k

wider : (m n : ℕ) (r : Compiled) → m ≤ n → ReadWithin m r → ReadWithin n r
wider m n out_of_fuel h k = k
wider m n invalid h k = k
wider m n (compiled cs rest) h (a, l) = (a, omega (arith, h, l))

changes_loop-ReadWithin :
    (n : ℕ) (affected : Word) (s : Str) (changes : List ModeChange)
    → length s < n
    → Low affected
    → AllLow changes
    → ReadWithin (length s) (changes_loop n affected s changes)
unfolding changes_loop
changes_loop-ReadWithin zero affected s changes h x a = absurd (omega (arith, h))
changes_loop-ReadWithin (suc n) affected [] changes h x a = tt
changes_loop-ReadWithin (suc n) affected (c ∷ s) changes h x a =
    elim (Option-cases (operator_of c)) [
      | inl e ↦ rw (changes_loop, e) tt
      | inr (op, e) ↦
          let v = mode_value s in
          let (y, l) = mode_value-Low s in
          let d : ModeChange = record { op = op; kind = v.0; affected = affected; value = v.1.0 } in
          let now = changes ++ d ∷ [] in
          let b = AllLow-append changes d a x y in
          rw (changes_loop, e)
            (either_way (ReadWithin (length (c ∷ s))) (at_operator v.1.1) _ (compiled now v.1.1)
              (wider (length v.1.1) (length (c ∷ s)) _ (omega (arith, l))
                (changes_loop-ReadWithin n affected v.1.1 now (omega (arith, h, l)) x b))
              (b, omega (arith, l)))
    ]

after_changes :
    (n m : ℕ)
    → m ≤ n
    → (r : Compiled) → ReadWithin m r
    → ((t : Str) (now : List ModeChange)
        → length t < n
        → AllLow now
        → ReadWithin 0 (symbolic_loop n t now))
    → ReadWithin 0 (after_comma (symbolic_loop n) r)
after_changes n m h out_of_fuel k f = k
after_changes n m h invalid k f = tt
after_changes n m h (compiled now []) (a, l) f = (a, omega arith)
after_changes n m h (compiled now (d ∷ t)) (a, l) f =
    either_way (ReadWithin 0) (d == b',') (symbolic_loop n t now) invalid
      (f t now (omega (arith, h, l)) a) tt

symbolic_loop-ReadWithin :
    (n : ℕ) (s : Str) (changes : List ModeChange)
    → length s < n
    → AllLow changes
    → ReadWithin 0 (symbolic_loop n s changes)
unfolding symbolic_loop
symbolic_loop-ReadWithin zero s changes h a = absurd (omega (arith, h))
symbolic_loop-ReadWithin (suc n) [] changes h a = (a, omega arith)
symbolic_loop-ReadWithin (suc n) (c ∷ s) changes h a =
    let who = bits_loop who_bits (c ∷ s) no_bits in
    let (x, l) = bits_loop-Low who_bits (c ∷ s) no_bits who_bits-Low (λ i. refl) in
    after_changes n (length (c ∷ s)) (omega (arith, h))
      (changes_loop (suc (length who.1)) who.0 who.1 changes)
      (wider (length who.1) (length (c ∷ s)) _ l
        (changes_loop-ReadWithin (suc (length who.1)) who.0 who.1 changes (omega arith) x a))
      (λ t now k b. symbolic_loop-ReadWithin n t now k b)

numeric-ReadWithin : (o : Option ℕ) → InPermissions o → ReadWithin 0 (numeric_outcome o)
numeric-ReadWithin none h = tt
numeric-ReadWithin (some v) h = (((all_bits-Low, λ i. bits_below 9 v i h), tt), omega arith)

compile-ReadWithin : (s : Str) → ReadWithin 0 (compile s)
unfolding compile compile_numeric
compile-ReadWithin [] = tt
compile-ReadWithin (c ∷ s) =
    either_way (ReadWithin 0) (is_digit_char c) _ _
      (numeric-ReadWithin (numeric_mode (c ∷ s)) (numeric_mode-octal (c ∷ s)).1)
      (symbolic_loop-ReadWithin (suc (length (c ∷ s))) (c ∷ s) [] (omega arith) tt)

-- The changes keep the bits from the ninth on.
abbrev pub KeepsSpecial : Compiled → Type 0
KeepsSpecial out_of_fuel = ⊥
KeepsSpecial invalid = Unit
KeepsSpecial (compiled cs rest) =
    (rest ≡ []) × ((umask mode : Word) (i : ℕ) → apply_mode cs umask mode (9 + i) ≡ mode (9 + i))

no_rest : (s : Str) → length s ≤ 0 → s ≡ []
no_rest [] h = refl
no_rest (c ∷ s) h = absurd (omega (arith, h))

kept : (r : Compiled) → ReadWithin 0 r → KeepsSpecial r
kept out_of_fuel h = h
kept invalid h = tt
kept (compiled cs rest) (a, l) =
    (no_rest rest l, λ umask mode i. apply_mode-above cs umask mode a i)

-- Every text of a mode, octal or symbolic, is refused or read to its last character, by the fuel of
-- its length; and the changes that it is read to leave the bits above the nine permissions of a
-- file, the set-user, set-group and sticky bits among them, whatever the umask.
pub compile-KeepsSpecial : (s : Str) → KeepsSpecial (compile s)
compile-KeepsSpecial s = kept (compile s) (compile-ReadWithin s)
