-- ===== src/Util/FilePath.antt =====
-- util/util/path/path.cpp: the text operations on paths. Reading the last character of an empty
-- path is undefined in C++; here an empty path is left as it is.
use ebftpd.Prelude.{
  ℕ, Bool, true, false, not, Option, none, some, [], ◌∷◌, Str, str_eq, ◌==◌, ◌&&◌, if◌then◌else◌,
}

abbrev pub slash : ℕ
slash = b'/'

abbrev pub is_nil : Str → Bool
is_nil [] = true
is_nil (c ∷ s) = false

-- The last character, 0 for none.
unfoldable pub back : Str → ℕ
back [] = 0
back (c ∷ []) = c
back (c ∷ d ∷ s) = back (d ∷ s)

unfoldable pub erase_last : Str → Str
erase_last [] = []
erase_last (c ∷ []) = []
erase_last (c ∷ d ∷ s) = c ∷ erase_last (d ∷ s)

unfoldable pub trim_trailing_slash : Bool → Str → Str
unfolding back erase_last
trim_trailing_slash keep_root_slash path =
    if not (back path == slash)
    then path
    else if keep_root_slash && str_eq path (slash ∷ [])
    then path
    else erase_last path

-- What stands before and after `find_last_of('/')`.
unfoldable pub split_last : Str → Option (Str × Str)
split_last [] = none
split_last (c ∷ s) = elim (split_last s) [
  | some (a, b) ↦ some (c ∷ a, b)
  | none ↦ if c == slash then some ([], s) else none
]

unfoldable pub dirname : Str → Str
unfolding trim_trailing_slash split_last
dirname path =
    let trimmed = trim_trailing_slash true path in
    if str_eq trimmed (slash ∷ [])
    then trimmed
    else elim (split_last trimmed) [ none ↦ [] | some (a, b) ↦ if is_nil a then slash ∷ [] else a ]

unfoldable pub basename : Str → Str
unfolding trim_trailing_slash split_last
basename path =
    let trimmed = trim_trailing_slash true path in
    if str_eq trimmed (slash ∷ [])
    then trimmed
    else elim (split_last trimmed) [ none ↦ trimmed | some (a, b) ↦ b ]
