-- ===== src/Util/Segments.antt =====
-- Splitting, joining and resolving of paths in util/util/path/path.cpp. The vector of segments that
-- `Resolve` edits is split at its iterator: what stands before it and what is from it on. Where the
-- vector begins with "..", the source erases that and goes on with the iterator it had, which the
-- standard calls invalid; here it stands at the next segment, as in an array.
pub mod Trim
pub mod Laws
pub mod Canonical
pub mod Tests
use ebftpd.Prelude.{
  Bool, true, false, not, List, [], ◌∷◌, ◌++◌, Str, codes, str_eq, ◌==◌, ◌&&◌, if◌then◌else◌,
}
use ebftpd.Util.FilePath.{slash, is_nil, trim_trailing_slash}

abbrev pub with_head : List Str → (Str → Str) → List Str
with_head [] f = []
with_head (p ∷ ps) f = f p ∷ ps

-- What stands between the slashes, empty texts included.
unfoldable pub pieces : Str → List Str
pieces [] = [] ∷ []
pieces (c ∷ s) = if c == slash then [] ∷ pieces s else with_head (pieces s) (◌∷◌ c)

-- Of the pieces after the first the loop drops the empty ones, and the last one is not asked.
unfoldable pub keep_middle : List Str → List Str
keep_middle [] = []
keep_middle (p ∷ []) = p ∷ []
keep_middle (p ∷ q ∷ ps) = if is_nil p then keep_middle (q ∷ ps) else p ∷ keep_middle (q ∷ ps)

unfoldable pub split_segments : Str → List Str
unfolding pieces keep_middle
split_segments [] = []
split_segments (c ∷ s) = elim (pieces (c ∷ s)) [ [] ↦ [] | p ∷ ps ↦ p ∷ keep_middle ps ]

unfoldable pub join_segments : List Str → Str
join_segments [] = []
join_segments (p ∷ []) = p
join_segments (p ∷ q ∷ ps) = p ++ slash ∷ join_segments (q ∷ ps)

abbrev pub dot : Str
dot = codes "."

abbrev pub dot_dot : Str
dot_dot = codes ".."

-- `erase` of the segment before the iterator.
unfoldable pub drop_last : List Str → List Str
drop_last [] = []
drop_last (p ∷ []) = []
drop_last (p ∷ q ∷ ps) = p ∷ drop_last (q ∷ ps)

-- The loop of `Resolve`, from the segments before the iterator and those from it on.
unfoldable pub resolve_loop : List Str → List Str → List Str
unfolding drop_last
resolve_loop before [] = before
resolve_loop before (s ∷ rest) =
    resolve_loop
      (if str_eq s dot
        then before
        else if str_eq s dot_dot
        then drop_last before
        else before ++ s ∷ [])
      rest

-- What `Resolve` makes of the segments that are left.
unfoldable pub finish : Bool → List Str → Str
unfolding join_segments trim_trailing_slash
finish absolute segments = elim (join_segments segments) [
  | [] ↦ slash ∷ []
  | c ∷ s ↦ trim_trailing_slash true (if absolute && not (c == slash) then slash ∷ c ∷ s else c ∷ s)
]

unfoldable pub resolve : Str → Str
unfolding split_segments resolve_loop finish
resolve [] = []
resolve (c ∷ s) = finish (c == slash) (resolve_loop [] (split_segments (c ∷ s)))
