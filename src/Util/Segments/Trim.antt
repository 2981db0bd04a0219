-- ===== src/Util/Segments/Trim.antt =====
-- The end of `Resolve` in util/util/path/path.cpp on segments that have a name each.
use ebftpd.Prelude.{
  ℕ, ◌≡◌, refl, sym, ap, ◌∙◌, Bool, true, false, not, List, [], ◌∷◌, ◌++◌, Str, str_eq, has_char,
  ◌==◌, ◌&&◌, if◌then◌else◌, arith,
}
use mathlib.Core.List.{append_assoc}
use ebftpd.Util.FilePath.{slash, is_nil, back, erase_last, trim_trailing_slash}
use ebftpd.Util.Segments.{join_segments, finish}

-- A segment that is a file name: not empty, and without a slash.
pub record IsPlainName (s : Str) : Type 0 where
  pub filled : is_nil s ≡ false
  pub whole : has_char slash s ≡ false

abbrev pub AllPlainNames : List Str → Type 0
AllPlainNames [] = Unit
AllPlainNames (p ∷ ps) = IsPlainName p × AllPlainNames ps

-- The segments of an absolute path, with the empty one before the first slash or without.
abbrev pub root : Bool → List Str → List Str
root true ps = [] ∷ ps
root false ps = ps

back-append : (xs : Str) (c : ℕ) (ys : Str) → back (xs ++ c ∷ ys) ≡ back (c ∷ ys)
unfolding back
back-append [] c ys = refl
back-append (x ∷ []) c ys = refl
back-append (x ∷ y ∷ xs) c ys = back-append (y ∷ xs) c ys

back-cons : (c : ℕ) (s : Str) → is_nil s ≡ false → back (c ∷ s) ≡ back s
unfolding back
back-cons c [] h = cc
back-cons c (d ∷ s) h = refl

erase_last-snoc : (xs : Str) (c : ℕ) → erase_last (xs ++ c ∷ []) ≡ xs
unfolding erase_last
erase_last-snoc [] c = refl
erase_last-snoc (x ∷ []) c = refl
erase_last-snoc (x ∷ y ∷ xs) c = ap (◌∷◌ x) (erase_last-snoc (y ∷ xs) c)

back-whole : (s : Str) → is_nil s ≡ false → has_char slash s ≡ false → (back s == slash) ≡ false
unfolding back has_char
back-whole [] h k = cc
back-whole (c ∷ []) h k = ground arith
back-whole (c ∷ d ∷ s) h k = back-whole (d ∷ s) refl (ground arith)

append-filled : (xs : Str) (c : ℕ) (ys : Str) → is_nil (xs ++ c ∷ ys) ≡ false
append-filled [] c ys = refl
append-filled (x ∷ xs) c ys = refl

join-filled :
    (p : Str) (ps : List Str) → AllPlainNames (p ∷ ps) → is_nil (join_segments (p ∷ ps)) ≡ false
unfolding join_segments
join-filled p [] h = h.0.filled
join-filled p (q ∷ ps) h = append-filled p slash (join_segments (q ∷ ps))

-- Joined names do not end in a slash.
join-back :
    (p : Str) (ps : List Str)
    → AllPlainNames (p ∷ ps)
    → (back (join_segments (p ∷ ps)) == slash) ≡ false
unfolding join_segments
join-back p [] h = back-whole p h.0.filled h.0.whole
join-back p (q ∷ ps) h =
    rw
      (
        back-append p slash (join_segments (q ∷ ps)),
        back-cons slash (join_segments (q ∷ ps)) (join-filled q ps h.1),
      )
      (join-back q ps h.1)

-- The texts of `finish` on an absolute path, once the segments are joined.
abbrev close : Str → Str
close [] = slash ∷ []
close (c ∷ s) = trim_trailing_slash true (if not (c == slash) then slash ∷ c ∷ s else c ∷ s)

finish-close : (segments : List Str) → finish true segments ≡ close (join_segments segments)
unfolding finish
finish-close segments = go (join_segments segments)
  where
    go :
        (t : Str)
        → (elim t [
          | [] ↦ slash ∷ []
          | c ∷ s ↦
              trim_trailing_slash true (if true && not (c == slash) then slash ∷ c ∷ s else c ∷ s)
        ])
          ≡ close t
    go [] = refl
    go (c ∷ s) = refl

abbrev begins : Str → Bool
begins [] = false
begins (c ∷ s) = c == slash

trim_plain : (t : Str) → (back t == slash) ≡ false → trim_trailing_slash true t ≡ t
unfolding trim_trailing_slash
trim_plain t h = rw h

-- A slash at the end of more than one is taken off.
trim_slash : (t : Str) → is_nil t ≡ false → trim_trailing_slash true (t ++ slash ∷ []) ≡ t
unfolding trim_trailing_slash str_eq back
trim_slash [] h = cc
trim_slash (c ∷ []) h = ground arith
trim_slash (c ∷ d ∷ s) h =
    rw (back-append (c ∷ d ∷ s) slash [], erase_last-snoc (c ∷ d ∷ s) slash) (ground arith)

close-name :
    (t : Str)
    → is_nil t ≡ false
    → begins t ≡ false
    → (back t == slash) ≡ false
    → close t ≡ slash ∷ t
close-name [] h k e = cc
close-name (c ∷ s) h k e = rw k (trim_plain (slash ∷ c ∷ s) (rw (back-cons slash (c ∷ s) refl) e))

close-name_slash :
    (t : Str) → is_nil t ≡ false → begins t ≡ false → close (t ++ slash ∷ []) ≡ slash ∷ t
close-name_slash [] h k = cc
close-name_slash (c ∷ s) h k = rw k (trim_slash (slash ∷ c ∷ s) refl)

join-begins :
    (p : Str) (ps : List Str)
    → is_nil p ≡ false
    → has_char slash p ≡ false
    → begins (join_segments (p ∷ ps)) ≡ false
unfolding join_segments has_char
join-begins [] ps h k = cc
join-begins (c ∷ s) [] h k = ground arith
join-begins (c ∷ s) (q ∷ ps) h k = ground arith

join-snoc :
    (p : Str) (ps : List Str)
    → join_segments (p ∷ ps ++ [] ∷ []) ≡ join_segments (p ∷ ps) ++ slash ∷ []
unfolding join_segments
join-snoc p [] = refl
join-snoc p (q ∷ ps) =
    rw (join-snoc q ps) (sym (append_assoc p (slash ∷ join_segments (q ∷ ps)) (slash ∷ [])))

-- An absolute path whose segments are names is made of those, whether the empty segment of the root
-- is still there or not.
pub finish-names :
    (rooted : Bool) (ps : List Str)
    → AllPlainNames ps
    → finish true (root rooted ps) ≡ slash ∷ join_segments ps
unfolding join_segments
finish-names false [] h = finish-close []
finish-names true [] h = finish-close ([] ∷ [])
finish-names false (p ∷ ps) h =
    finish-close (p ∷ ps)
    ∙ close-name _ (join-filled p ps h) (join-begins p ps h.0.filled h.0.whole) (join-back p ps h)
finish-names true (p ∷ ps) h =
    finish-close ([] ∷ p ∷ ps)
    ∙ trim_plain (slash ∷ join_segments (p ∷ ps))
        (rw (back-cons slash (join_segments (p ∷ ps)) (join-filled p ps h)) (join-back p ps h))

-- The same with an empty segment at the end.
pub finish-names_slash :
    (rooted : Bool) (ps : List Str)
    → AllPlainNames ps
    → finish true (root rooted ps ++ [] ∷ []) ≡ slash ∷ join_segments ps
unfolding join_segments trim_trailing_slash str_eq
finish-names_slash false [] h = finish-close ([] ∷ [])
finish-names_slash true [] h = finish-close ([] ∷ [] ∷ [])
finish-names_slash false (p ∷ ps) h =
    finish-close (p ∷ ps ++ [] ∷ [])
    ∙ rw (join-snoc p ps)
        (close-name_slash _ (join-filled p ps h) (join-begins p ps h.0.filled h.0.whole))
finish-names_slash true (p ∷ ps) h =
    finish-close ([] ∷ p ∷ ps ++ [] ∷ [])
    ∙ rw (join-snoc p ps) (trim_slash (slash ∷ join_segments (p ∷ ps)) refl)
