-- ===== src/Util/Segments/Canonical.antt =====
-- The form of the paths that `Resolve` of util/util/path/path.cpp returns.
use ebftpd.Prelude.{
  ◌≡◌, refl, sym, ap, ◌∙◌, inl, inr, false, List, [], ◌∷◌, ◌++◌, Str, str_eq, has_char, ◌==◌,
  Bool-cases, arith,
}
use mathlib.Core.List.{append_assoc, append-nil}
use ebftpd.Util.FilePath.{slash, is_nil}
use ebftpd.Util.Segments.{pieces, join_segments, dot, dot_dot, drop_last, resolve}
use ebftpd.Util.Segments.Trim.{IsPlainName}
use ebftpd.Util.Segments.Laws.{walk, AllWhole, pieces-whole, resolve-walk}

-- A name of a file, neither "." nor "..".
pub record IsName (s : Str) : Type 0 where
  pub plain : IsPlainName s
  pub ne_dot : str_eq s dot ≡ false
  pub ne_dot_dot : str_eq s dot_dot ≡ false

abbrev pub AllNames : List Str → Type 0
AllNames [] = Unit
AllNames (p ∷ ps) = IsName p × AllNames ps

AllNames-drop_last : (ps : List Str) → AllNames ps → AllNames (drop_last ps)
unfolding drop_last
AllNames-drop_last [] h = h
AllNames-drop_last (p ∷ []) h = tt
AllNames-drop_last (p ∷ q ∷ ps) h = (h.0, AllNames-drop_last (q ∷ ps) h.1)

AllNames-append : (ps : List Str) (s : Str) → AllNames ps → IsName s → AllNames (ps ++ s ∷ [])
AllNames-append [] s h k = (k, tt)
AllNames-append (p ∷ ps) s h k = (h.0, AllNames-append ps s h.1 k)

walk-AllNames : (names ps : List Str) → AllNames names → AllWhole ps → AllNames (walk names ps)
unfolding walk
walk-AllNames names [] h w = h
walk-AllNames names (s ∷ ps) h w = elim (Bool-cases (is_nil s)) [
  | inl k ↦ rw k (walk-AllNames names ps h w.1)
  | inr k ↦ elim (Bool-cases (str_eq s dot)) [
    | inl e ↦ rw (k, e) (walk-AllNames names ps h w.1)
    | inr e ↦ elim (Bool-cases (str_eq s dot_dot)) [
      | inl f ↦ rw (k, e, f) (walk-AllNames (drop_last names) ps (AllNames-drop_last names h) w.1)
      | inr f ↦
          let name : IsName s = record {
            plain = record { filled = k; whole = w.0 };
            ne_dot = e;
            ne_dot_dot = f;
          } in
          rw (k, e, f) (walk-AllNames (names ++ s ∷ []) ps (AllNames-append names s h name) w.1)
    ]
  ]
]

-- A slash, and names of files joined by one slash each.
abbrev pub IsCanonical : Str → Type 0
IsCanonical path = (names : List Str) × (path ≡ slash ∷ join_segments names) × AllNames names

-- An absolute path is resolved to one of a slash and names joined by one slash each, of which none
-- is empty, "." or "..".
pub resolve-IsCanonical : (s : Str) → IsCanonical (resolve (slash ∷ s))
resolve-IsCanonical s =
    (walk [] (pieces s), resolve-walk s, walk-AllNames [] (pieces s) tt (pieces-whole s))

pieces-name : (p : Str) → has_char slash p ≡ false → pieces p ≡ p ∷ []
unfolding pieces has_char
pieces-name [] w = refl
pieces-name (c ∷ p) w = elim (Bool-cases (c == slash)) [
  | inl e ↦ ground (arith, e)
  | inr e ↦ rw (e, pieces-name p (ground (arith, e)))
]

pieces-append : (p s : Str) → has_char slash p ≡ false → pieces (p ++ slash ∷ s) ≡ p ∷ pieces s
unfolding pieces has_char
pieces-append [] s w = refl
pieces-append (c ∷ p) s w = elim (Bool-cases (c == slash)) [
  | inl e ↦ ground (arith, e)
  | inr e ↦ rw (e, pieces-append p s (ground (arith, e)))
]

pieces-join :
    (p : Str) (ps : List Str) → AllNames (p ∷ ps) → pieces (join_segments (p ∷ ps)) ≡ p ∷ ps
unfolding join_segments
pieces-join p [] h = pieces-name p h.0.plain.whole
pieces-join p (q ∷ ps) h =
    pieces-append p (join_segments (q ∷ ps)) h.0.plain.whole ∙ ap (◌∷◌ p) (pieces-join q ps h.1)

walk-names : (names ps : List Str) → AllNames ps → walk names ps ≡ names ++ ps
unfolding walk
walk-names names [] h = sym (append-nil names)
walk-names names (p ∷ ps) h =
    rw (h.0.plain.filled, h.0.ne_dot, h.0.ne_dot_dot)
      (walk-names (names ++ p ∷ []) ps h.1 ∙ append_assoc names (p ∷ []) ps)

resolve-names :
    (names : List Str)
    → AllNames names
    → resolve (slash ∷ join_segments names) ≡ slash ∷ join_segments names
unfolding join_segments pieces walk
resolve-names [] h = resolve-walk []
resolve-names (p ∷ ps) h =
    resolve-walk (join_segments (p ∷ ps))
    ∙ rw (pieces-join p ps h) (ap (λ v. slash ∷ join_segments v) (walk-names [] (p ∷ ps) h))

-- Resolving an absolute path that is resolved leaves it as it is.
pub resolve_twice : (s : Str) → resolve (resolve (slash ∷ s)) ≡ resolve (slash ∷ s)
resolve_twice s = let (names, e, h) = resolve-IsCanonical s in rw e (resolve-names names h)
