-- ===== src/Ftp/Xdupe/Empty.antt =====
-- The fourth kind of X-DUPE reply: its bound, and that it is never empty.
use ebftpd.Prelude.{
  ℕ, ◌+◌, ◌≤◌, ◌≡◌, refl, inl, inr, List, [], ◌∷◌, ◌++◌, Str, length, length-append, ltb,
  Bool-cases, ◌==◌, if◌then◌else◌, arith,
}
use ebftpd.Ftp.Xdupe.{prefix, newline, max_four, put_four, message_four}

-- The loop keeps the reply one character longer than the length that it keeps.
put_four_bounds :
    (reply : Str) (len : ℕ) (ds : List Str)
    → length reply ≡ len + 1
    → 8 ≤ len
    → len ≤ max_four
    → (9 ≤ length (put_four reply len ds)) × (length (put_four reply len ds) ≤ max_four + 1)
unfolding put_four
put_four_bounds reply len [] e low high = (omega arith, omega arith)
put_four_bounds reply len (d ∷ ds) e low high =
    elim (Bool-cases (ltb max_four (len + length d + (if len == 8 then 0 else 1)))) [
      | inl full ↦ rw (full, put_four) (omega arith, omega arith)
      | inr room ↦ elim (Bool-cases (len == 8)) [
        | inl first ↦
            rw (room, first, put_four)
              (put_four_bounds (reply ++ d) (len + length d) ds
                (omega (arith, length-append reply d)) (omega arith) (ground arith))
        | inr later ↦
            rw (room, later, put_four)
              (put_four_bounds ((reply ++ b' ' ∷ []) ++ d) (len + 1 + length d) ds
                (omega
                  (arith, length-append (reply ++ b' ' ∷ []) d, length-append reply (b' ' ∷ [])))
                (omega arith) (ground arith))
      ]
    ]

-- The fourth kind of reply has at most 1018 characters with its end of line, and at least 10, also
-- where there are no names: it is never the empty text.
pub message_four_bounds :
    (dupes : List Str) → (10 ≤ length (message_four dupes)) × (length (message_four dupes) ≤ 1018)
unfolding message_four
message_four_bounds dupes =
    let b = put_four_bounds prefix 8 dupes refl (omega arith) (omega arith) in
    ground (arith, b, length-append (put_four prefix 8 dupes) (newline ∷ []))
