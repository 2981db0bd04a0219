-- ===== src/Cmd/Change/Values.antt =====
-- What SITE CHANGE asks of the server, and the numbers it reads: StrToInt and StrToLLong of
-- src/util/util/string.cpp and ParseSize of src/cfg/util.cpp. Integers do not wrap.
use ebftpd.Prelude.{
  ◌≤◌, ◌-◌, ◌≡◌, ◌^◌, ◌⊎◌, ◌%◌, ◌≤ℤ◌, ltb, ℕ, ◌*◌, Bool, true, false, not, Option, none, some, List,
  [], ◌∷◌, Str, codes, str_eq, length, ℤ, pos, negsuc, ◌==◌, ◌||◌, if◌then◌else◌,
}
use ebftpd.Acl.Rules.{Acl, AclInfo, evaluate}
use ebftpd.Acl.User.Data.{UserData}

-- The accounts of the database.
abbrev pub Accounts : Type 0
Accounts = ℤ → Option UserData

-- What a group says of its leech and allotment slots.
pub record Slots : Type 0 where
  pub num_leeches : ℤ
  pub leech_slots : ℤ
  pub num_allotments : ℤ
  pub allotment_slots : ℤ
  pub total_allotment_size : ℤ
  pub max_allotment_size : ℤ

-- The functions of boost and of the standard library, the configuration, the client that gives the
-- command, and what the database answers. `saves` says for a user whether the write of the setting
-- succeeds, and that of the template flag after it.
pub record Server : Type 0 where
  pub split : Str → List Str
  pub to_upper : Str → Str
  pub to_lower : Str → Str
  pub is_alpha : ℕ → Bool
  pub stoi : Str → Option (ℤ × ℕ)
  pub stoll : Str → Option (ℤ × ℕ)
  pub replace_slashes : Str → Str
  pub from_simple_string : Str → Option ℕ
  pub path_from_user : Str → Str
  pub valid_tagline : Str → Bool
  pub command_acl : Str → Option Acl
  pub is_section : Str → Bool
  pub maximum_ratio : ℤ
  pub client_user : UserData
  pub client_info : AclInfo
  pub is_master : Bool
  pub default_ratio : Option ℤ
  pub load_group : Accounts → ℤ → Option Slots
  pub get_uids : Str → List ℤ
  pub saves : ℤ → Bool × Bool

-- The arguments; the table of commands asks for three of them.
pub record Request : Type 0 where
  pub arg_str : Str
  pub user_mask : Str
  pub setting : Str
  pub value : Str
  pub more : List Str

-- The library's function, which also says how many characters it read, must read all.
unfoldable pub str_to_number : (Str → Option (ℤ × ℕ)) → Str → Option ℤ
str_to_number read s = elim (read s) [
  | none ↦ none
  | some (value, n) ↦ if n == length s then some value else none
]

-- A text as all before its last character, and that.
unfoldable pub split_back : ℕ → Str → Str × ℕ
split_back c [] = ([], c)
split_back c (d ∷ s) = let (front, back) = split_back d s in (c ∷ front, back)

-- A product as a `long long` holds it. Its overflow is undefined in C++; on the machines it wraps.
unfoldable pub wrapped : ℕ → ℤ
wrapped n = if ltb (n % 2 ^ 64) (2 ^ 63) then pos (n % 2 ^ 64) else negsuc (2 ^ 64 - 1 - n % 2 ^ 64)

unfoldable pub scale : Str → ℤ → Option ℤ
unfolding wrapped
scale unit (negsuc n) = none
scale unit (pos n) =
    if str_eq unit (codes "M")
    then some (wrapped (n * 1024))
    else if str_eq unit (codes "G")
    then some (wrapped (n * (1024 * 1024)))
    else if not (str_eq unit (codes "K"))
    then none
    else some (pos n)

abbrev pub scale_read : Str → Option ℤ → Option ℤ
scale_read unit none = none
scale_read unit (some v) = scale unit v

-- The unit and the digits of a size.
unfoldable pub size_parts : Server → Str → Option (Str × Str)
unfolding split_back
size_parts w [] = none
size_parts w (c ∷ s) =
    let (front, back) = split_back c s in
    if w.is_alpha back
    then elim front [ [] ↦ none | d ∷ t ↦ some (w.to_upper (back ∷ []), d ∷ t) ]
    else some (codes "K", c ∷ s)

unfoldable pub parse_size : Server → Str → Option ℤ
unfolding str_to_number size_parts scale
parse_size w s = elim (size_parts w s) [
  | none ↦ none
  | some (unit, digits) ↦ scale_read unit (str_to_number w.stoll digits)
]

-- A size that is not negative, or the one that is read of the text, whose number is so large that its
-- product with the unit may overflow.
abbrev pub IsSize : Server → Str → ℤ → Type 0
IsSize w s n =
    (pos 0 ≤ℤ n)
    ⊎ ((unit : Str) × (digits : Str) × (k : ℕ) × (size_parts w s ≡ some (unit, digits))
        × (str_to_number w.stoll digits ≡ some (pos k))
        × (2 ^ 43 ≤ k)
        × (parse_size w s ≡ some n))

-- The loop of `AllowSiteCmd`, over the words of a keyword such as `change|changegadmin`.
unfoldable pub allows_some : Server → List Str → Bool
allows_some w [] = false
allows_some w (word ∷ words) = elim (w.command_acl word) [
  | none ↦ allows_some w words
  | some acl ↦ (evaluate acl w.client_info).0 || allows_some w words
]

unfoldable pub allow_site_cmd : Server → Str → Bool
unfolding allows_some
allow_site_cmd w keyword = elim (w.split keyword) [
  | [] ↦ true
  | word ∷ words ↦ allows_some w (word ∷ words)
]
