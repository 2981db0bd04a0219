-- ===== src/Util/Segments/Laws.antt =====
-- What `Resolve` of util/util/path/path.cpp makes of an absolute path.
use ebftpd.Prelude.{
  ◌≡◌, refl, subst, inl, inr, Bool, true, false, List, [], ◌∷◌, ◌++◌, Str, str_eq, has_char, ◌==◌,
  ◌||◌, if◌then◌else◌, Bool-cases,
}
use ebftpd.Util.FilePath.{slash, is_nil}
use ebftpd.Util.Segments.{
  with_head, pieces, keep_middle, split_segments, join_segments, dot, dot_dot, drop_last,
  resolve_loop, finish, resolve,
}
use ebftpd.Util.Segments.Trim.{IsPlainName, AllPlainNames, root, finish-names, finish-names_slash}

-- The names that lead to a file from the root, one piece after the other: an empty piece and "."
-- stay where they are, ".." goes up and stays at the root, and a name goes down.
unfoldable pub walk : List Str → List Str → List Str
unfolding drop_last
walk names [] = names
walk names (s ∷ rest) =
    walk
      (if is_nil s || str_eq s dot
        then names
        else if str_eq s dot_dot
        then drop_last names
        else names ++ s ∷ [])
      rest

-- Without a slash in it.
abbrev pub AllWhole : List Str → Type 0
AllWhole [] = Unit
AllWhole (p ∷ ps) = (has_char slash p ≡ false) × AllWhole ps

pub pieces-whole : (s : Str) → AllWhole (pieces s)
unfolding pieces has_char
pieces-whole [] = (refl, tt)
pieces-whole (c ∷ s) = elim (Bool-cases (c == slash)) [
  | inl e ↦ rw e (refl, pieces-whole s)
  | inr e ↦ rw e (grown (pieces s) e (pieces-whole s))
]
  where
    grown : (ps : List Str) → (c == slash) ≡ false → AllWhole ps → AllWhole (with_head ps (◌∷◌ c))
    grown [] e h = tt
    grown (p ∷ ps) e h = (rw (e, h.0), h.1)

pieces-filled : (s : Str) → (p : Str) × (ps : List Str) × (pieces s ≡ p ∷ ps)
unfolding pieces
pieces-filled [] = ([], [], refl)
pieces-filled (c ∷ s) = elim (Bool-cases (c == slash)) [
  | inl e ↦ ([], pieces s, rw e)
  | inr e ↦ let (p, ps, f) = pieces-filled s in (c ∷ p, ps, rw (e, f))
]

-- Going up from the root leaves it, and the segment before the first slash goes with it.
abbrev still_rooted : Bool → List Str → Bool
still_rooted rooted [] = false
still_rooted rooted (p ∷ ps) = rooted

drop_last-root :
    (rooted : Bool) (ps : List Str)
    → drop_last (root rooted ps) ≡ root (still_rooted rooted ps) (drop_last ps)
unfolding drop_last
drop_last-root true [] = refl
drop_last-root false [] = refl
drop_last-root true (p ∷ ps) = refl
drop_last-root false (p ∷ ps) = refl

root-append :
    (rooted : Bool) (ps : List Str) (s : Str)
    → root rooted ps ++ s ∷ [] ≡ root rooted (ps ++ s ∷ [])
root-append true ps s = refl
root-append false ps s = refl

AllPlainNames-drop_last : (ps : List Str) → AllPlainNames ps → AllPlainNames (drop_last ps)
unfolding drop_last
AllPlainNames-drop_last [] h = h
AllPlainNames-drop_last (p ∷ []) h = tt
AllPlainNames-drop_last (p ∷ q ∷ ps) h = (h.0, AllPlainNames-drop_last (q ∷ ps) h.1)

AllPlainNames-append :
    (ps : List Str) (s : Str) → AllPlainNames ps → IsPlainName s → AllPlainNames (ps ++ s ∷ [])
AllPlainNames-append [] s h k = (k, tt)
AllPlainNames-append (p ∷ ps) s h k = (h.0, AllPlainNames-append ps s h.1 k)

-- One step of the loop on a segment that is not empty is one step of the walk.
record Step (rooted : Bool) (names : List Str) (s : Str) : Type 0 where
  still : Bool
  next : List Str
  named : AllPlainNames next
  looped :
      (rest : List Str)
      → resolve_loop (root rooted names) (s ∷ rest) ≡ resolve_loop (root still next) rest
  walked : (rest : List Str) → walk names (s ∷ rest) ≡ walk next rest

segment-Step :
    (rooted : Bool) (names : List Str) (s : Str)
    → AllPlainNames names
    → is_nil s ≡ false
    → has_char slash s ≡ false
    → Step rooted names s
unfolding resolve_loop walk
segment-Step rooted names s h k w = elim (Bool-cases (str_eq s dot)) [
  | inl e ↦ record {
    still = rooted;
    next = names;
    named = h;
    looped = λ rest. rw e;
    walked = λ rest. rw (k, e);
  }
  | inr e ↦ elim (Bool-cases (str_eq s dot_dot)) [
    | inl f ↦ record {
      still = still_rooted rooted names;
      next = drop_last names;
      named = AllPlainNames-drop_last names h;
      looped = λ rest. rw (e, f, drop_last-root rooted names);
      walked = λ rest. rw (k, e, f);
    }
    | inr f ↦ record {
      still = rooted;
      next = names ++ s ∷ [];
      named = AllPlainNames-append names s h (record { filled = k; whole = w });
      looped = λ rest. rw (e, f, root-append rooted names s);
      walked = λ rest. rw (k, e, f);
    }
  ]
]

-- The loop of `Resolve` on the pieces that it keeps, and its end, against the walk.
loop-walk :
    (rooted : Bool) (names : List Str) (p : Str) (ps : List Str)
    → AllPlainNames names
    → AllWhole (p ∷ ps)
    → finish true (resolve_loop (root rooted names) (keep_middle (p ∷ ps)))
      ≡ slash ∷ join_segments (walk names (p ∷ ps))
unfolding keep_middle resolve_loop walk str_eq
loop-walk rooted names [] [] h w = finish-names_slash rooted names h
loop-walk rooted names (c ∷ s) [] h w =
    let step = segment-Step rooted names (c ∷ s) h refl w.0 in
    rw (step.looped [], step.walked []) (finish-names step.still step.next step.named)
loop-walk rooted names [] (q ∷ ps) h w = loop-walk rooted names q ps h w.1
loop-walk rooted names (c ∷ s) (q ∷ ps) h w =
    let step = segment-Step rooted names (c ∷ s) h refl w.0 in
    rw (step.looped (keep_middle (q ∷ ps)), step.walked (q ∷ ps))
      (loop-walk step.still step.next q ps step.named w.1)

-- An absolute path is resolved to the path of the names that its pieces lead to from the root.
pub resolve-walk : (s : Str) → resolve (slash ∷ s) ≡ slash ∷ join_segments (walk [] (pieces s))
unfolding resolve split_segments pieces resolve_loop str_eq
resolve-walk s =
    let (p, ps, e) = pieces-filled s in
    rw e (loop-walk true [] p ps tt (subst AllWhole e (pieces-whole s)))
