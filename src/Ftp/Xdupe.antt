-- ===== src/Ftp/Xdupe.antt =====
-- src/ftp/xdupe.cpp: the replies that list the files of a directory which a client need not upload.
-- The output streams are texts. The directory listing of BuildDupeList, which may throw, is an
-- argument, and the masks are the configuration's.
pub mod Laws
pub mod Empty
pub mod Tests
use ebftpd.Prelude.{
  ℕ, zero, suc, ◌+◌, ◌≤◌, Bool, true, false, Option, none, some, List, [], ◌∷◌, ◌++◌, Str, codes,
  length, take, ltb, ◌==◌, ◌||◌, if◌then◌else◌,
}
use ebftpd.Util.Wildcard.{Fnmatch, wildcard_match}

abbrev pub prefix : Str
prefix = codes " X-DUPE: "

abbrev pub newline : ℕ
newline = 10

-- The variables of the loop of MessageOne.
pub record Page : Type 0 where
  pub reply : Str
  pub line : Str
  pub len : ℕ

-- `reply << line.str() << '\n'; line.str(""); line << " X-DUPE: "; len = 0;`
unfoldable pub flush : Page → Page
flush p = record { reply = p.reply ++ (p.line ++ newline ∷ []); line = prefix; len = 0 }

abbrev pub max_one : ℕ
max_one = 67

-- `if (len > 0) reply << line.str() << '\n';`
abbrev pub last_line : Page → Str
last_line p = if ltb 0 p.len then p.reply ++ (p.line ++ newline ∷ []) else p.reply

-- A file whose name is longer than a line gets a line of its own, cut off.
unfoldable pub put_long : Page → Str → Page
put_long p dupe = record {
  reply = last_line p ++ ((prefix ++ take max_one dupe) ++ newline ∷ []);
  line = prefix;
  len = 0;
}

-- The separator and the name.
unfoldable pub put_short : Page → Str → Page
put_short p dupe =
    if ltb 0 p.len
    then record p { line = (p.line ++ b' ' ∷ []) ++ dupe; len = p.len + 1 + length dupe }
    else record p { line = p.line ++ dupe; len = p.len + length dupe }

unfoldable pub put_one : Page → Str → Page
unfolding put_long put_short flush
put_one p dupe =
    if ltb max_one (length dupe)
    then put_long p dupe
    else if ltb max_one (p.len + length dupe + (if ltb 0 p.len then 1 else 0))
    then put_short (flush p) dupe
    else put_short p dupe

unfoldable pub put_all : Page → List Str → Page
unfolding put_one
put_all p [] = p
put_all p (d ∷ ds) = put_all (put_one p d) ds

unfoldable pub message_one : List Str → Str
unfolding put_all
message_one dupes = last_line (put_all (record { reply = []; line = prefix; len = 0 }) dupes)

unfoldable pub message_two : List Str → Str
message_two [] = []
message_two (d ∷ ds) = ((prefix ++ take 75 d) ++ newline ∷ []) ++ message_two ds

unfoldable pub message_three : List Str → Str
message_three [] = []
message_three (d ∷ ds) = ((prefix ++ d) ++ newline ∷ []) ++ message_three ds

abbrev pub max_four : ℕ
max_four = 1016

-- The loop of MessageFour, over the reply and its supposed length.
unfoldable pub put_four : Str → ℕ → List Str → Str
put_four reply len [] = reply
put_four reply len (d ∷ ds) =
    let more = put_four (reply ++ d) (len + length d) ds in
    let separated = put_four ((reply ++ b' ' ∷ []) ++ d) (len + 1 + length d) ds in
    if ltb max_four (len + length d + (if len == 8 then 0 else 1))
    then reply
    else if len == 8
    then more
    else separated

unfoldable pub message_four : List Str → Str
unfolding put_four
message_four dupes =
    let s = put_four prefix 8 dupes in if length s == 8 then [] else s ++ newline ∷ []

unfoldable pub is_xdupe : Fnmatch → List Str → Str → Bool
is_xdupe fnmatch [] path = false
is_xdupe fnmatch (mask ∷ masks) path =
    wildcard_match fnmatch mask path false || is_xdupe fnmatch masks path

-- The loop of BuildDupeList; a directory that cannot be read gives what was found so far, which is
-- the listing up to the error.
unfoldable pub build_dupe_list : Fnmatch → List Str → List Str → List Str
unfolding is_xdupe
build_dupe_list fnmatch masks [] = []
build_dupe_list fnmatch masks (d ∷ ds) =
    if is_xdupe fnmatch masks d
    then d ∷ build_dupe_list fnmatch masks ds
    else build_dupe_list fnmatch masks ds

pub data Mode : Type 0 where
  disabled one two three four : Mode

unfoldable pub message : Fnmatch → List Str → Mode → List Str → Str
unfolding build_dupe_list message_one message_two message_three message_four
message fnmatch masks disabled listing = []
message fnmatch masks one listing = message_one (build_dupe_list fnmatch masks listing)
message fnmatch masks two listing = message_two (build_dupe_list fnmatch masks listing)
message fnmatch masks three listing = message_three (build_dupe_list fnmatch masks listing)
message fnmatch masks four listing = message_four (build_dupe_list fnmatch masks listing)
