-- ===== src/Ftp/Xdupe/Laws.antt =====
-- The lines of the X-DUPE replies are short enough.
use ebftpd.Prelude.{
  ℕ, ◌+◌, ◌≤◌, ◌≡◌, refl, subst, inl, inr, List, [], ◌∷◌, ◌++◌, Str, length, length-append,
  length-take, take, ltb, not_ltb→le, Bool-cases, ◌==◌, if◌then◌else◌, arith,
}
use mathlib.Core.List.{append_assoc, append-nil}
use ebftpd.Ftp.Xdupe.{
  prefix, newline, Page, flush, max_one, put_long, put_short, put_one, put_all, last_line,
  message_one, message_two,
}

-- Every line of the text has at most n characters, the first one counting from w.
abbrev pub Fits : ℕ → ℕ → Str → Type 0
Fits n w [] = w ≤ n
Fits n w (c ∷ s) = if c == newline then (w ≤ n) × Fits n 0 s else Fits n (w + 1) s

Fits-block : (n w : ℕ) (t s : Str) → w + length t ≤ n → Fits n 0 s → Fits n w (t ++ newline ∷ s)
Fits-block n w [] s h f = (omega arith, f)
Fits-block n w (c ∷ t) s h f = elim (Bool-cases (c == newline)) [
  | inl e ↦ rw e (omega arith, Fits-block n 0 t s (omega arith) f)
  | inr e ↦ rw e (Fits-block n (w + 1) t s (omega arith) f)
]

-- A text of whole lines, none of them too long.
abbrev Closed : ℕ → Str → Type 0
Closed n r = (s : Str) → Fits n 0 s → Fits n 0 (r ++ s)

Closed-line : (n : ℕ) (r l : Str) → Closed n r → length l ≤ n → Closed n (r ++ (l ++ newline ∷ []))
Closed-line n r l c h s f =
    rw (append_assoc, append_assoc) (c (l ++ newline ∷ s) (Fits-block n 0 l s (omega arith) f))

-- The line under construction is the prefix and `len` characters, which fit.
record IsGood (p : Page) : Type 0 where
  closed : Closed 76 p.reply
  measured : length p.line ≡ 9 + p.len
  bounded : p.len ≤ max_one

length-prefix : (t : Str) → length (prefix ++ t) ≡ 9 + length t
length-prefix t = omega (arith, length-append prefix t)

flush-IsGood : (p : Page) → IsGood p → IsGood (flush p)
unfolding flush
flush-IsGood p g = record {
  closed = Closed-line 76 p.reply p.line g.closed (omega arith);
  measured = refl;
  bounded = omega arith;
}

done-Closed : (p : Page) → IsGood p → Closed 76 (last_line p)
done-Closed p g = elim (Bool-cases (ltb 0 p.len)) [
  | inl e ↦ rw e (Closed-line 76 p.reply p.line g.closed (omega arith))
  | inr e ↦ rw e g.closed
]

put_long-IsGood : (p : Page) (d : Str) → IsGood p → IsGood (put_long p d)
unfolding put_long
put_long-IsGood p d g = record {
  closed =
      Closed-line 76 (last_line p) (prefix ++ take max_one d) (done-Closed p g)
        (omega (arith, length-prefix (take max_one d), length-take max_one d));
  measured = refl;
  bounded = omega arith;
}

put_short-IsGood :
    (p : Page) (d : Str)
    → IsGood p
    → p.len + length d + (if ltb 0 p.len then 1 else 0) ≤ max_one
    → IsGood (put_short p d)
unfolding put_short
put_short-IsGood p d g h = elim (Bool-cases (ltb 0 p.len)) [
  | inl e ↦
      rw (e, put_short)
        (record {
          closed = g.closed;
          measured = omega (
            arith,
            length-append (p.line ++ b' ' ∷ []) d,
            length-append p.line (b' ' ∷ []),
            g.measured,
          );
          bounded = ground arith;
        })
  | inr e ↦
      rw (e, put_short)
        (record {
          closed = g.closed;
          measured = omega (arith, length-append p.line d, g.measured);
          bounded = ground arith;
        })
]

put_one-IsGood : (p : Page) (d : Str) → IsGood p → IsGood (put_one p d)
unfolding put_one
put_one-IsGood p d g = elim (Bool-cases (ltb max_one (length d))) [
  | inl long ↦ rw (long, put_one) (put_long-IsGood p d g)
  | inr short ↦
      elim (Bool-cases (ltb max_one (p.len + length d + (if ltb 0 p.len then 1 else 0)))) [
        | inl full ↦
            rw (short, full, put_one)
              (put_short-IsGood (flush p) d (flush-IsGood p g) (unfold flush in ground arith))
        | inr room ↦ rw (short, room, put_one) (put_short-IsGood p d g (not_ltb→le _ _ room))
      ]
]

put_all-IsGood : (p : Page) (ds : List Str) → IsGood p → IsGood (put_all p ds)
unfolding put_all
put_all-IsGood p [] g = g
put_all-IsGood p (d ∷ ds) g = put_all-IsGood (put_one p d) ds (put_one-IsGood p d g)

-- Every line of the first kind of reply has at most 76 characters, the prefix included, whatever
-- the names.
pub message_one-Fits : (dupes : List Str) → Fits 76 0 (message_one dupes)
unfolding message_one
message_one-Fits dupes =
    subst (Fits 76 0) (append-nil (last_line (put_all start dupes)))
      (done-Closed (put_all start dupes) (put_all-IsGood start dupes good) [] (omega arith))
  where
    start : Page
    start = record { reply = []; line = prefix; len = 0 }

    good : IsGood start
    good = record { closed = λ s f. f; measured = refl; bounded = omega arith }

-- Every line of the second kind of reply has at most 84 characters.
pub message_two-Fits : (dupes : List Str) → Fits 84 0 (message_two dupes)
unfolding message_two
message_two-Fits [] = omega arith
message_two-Fits (d ∷ ds) =
    Closed-line 84 [] (prefix ++ take 75 d) (λ s f. f)
      (omega (arith, length-prefix (take 75 d), length-take 75 d)) (message_two ds)
      (message_two-Fits ds)
