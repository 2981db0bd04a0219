-- ===== src/Db/UserCache.antt =====
-- src/db/user/usercache.cpp, and the lookups without a cache of src/db/user/util.cpp. A call of the
-- cache holds its mutexes; MongoDB's queries are arguments, and the users of the database a map.
pub mod Laws
pub mod Direct
pub mod Populate
pub mod Replication
pub mod Lag
pub mod Tests
use mathlib.Core.Option
use ebftpd.Prelude.{
  Bool, true, false, Option, none, some, List, [], ◌∷◌, ◌++◌, ℤ, minus_one, Str, codes, str_eq,
  eq_ℤ, ◌||◌, if◌then◌else◌,
}
use ebftpd.Util.Wildcard.{Fnmatch, wildcard_match}
use ebftpd.Util.Map.{Map, find, erase, assign, id_key, name_key}
use ebftpd.Db.Names.{Names, learn, forget, no_names}

-- What the cache reads of a user's document, beside its key, the user's identity.
pub record UserRow : Type 0 where
  pub name : Str
  pub primary_gid : ℤ
  pub ip_masks : List Str

pub record UserCache : Type 0 where
  pub known : Names
  pub primary_gids : Map ℤ ℤ
  pub ip_masks : Map ℤ (List Str)

abbrev pub new_user_cache : UserCache
new_user_cache = record { known = no_names; primary_gids = []; ip_masks = [] }

abbrev pub or_else {ℓ} : {A : Type ℓ} → A → Option A → A
or_else a none = a
or_else a (some b) = b

unfoldable pub uid_to_name : UserCache → ℤ → Str
uid_to_name c uid = or_else (codes "unknown") (find uid c.known.names)

unfoldable pub name_to_uid : UserCache → Str → ℤ
name_to_uid c name = or_else minus_one (find name c.known.ids)

unfoldable pub uid_to_primary_gid : UserCache → ℤ → ℤ
uid_to_primary_gid c uid = or_else minus_one (find uid c.primary_gids)

-- `WildcardMatch` of a container of patterns.
unfoldable pub matches_one : Fnmatch → List Str → Str → Bool
matches_one fnmatch [] s = false
matches_one fnmatch (m ∷ ms) s = wildcard_match fnmatch m s true || matches_one fnmatch ms s

unfoldable pub any_masks : Fnmatch → Map ℤ (List Str) → Str → Bool
any_masks fnmatch [] s = false
any_masks fnmatch ((uid, masks) ∷ m) s = matches_one fnmatch masks s || any_masks fnmatch m s

-- `IdentIPAllowed`, for any user and for one.
unfoldable pub ident_ip_allowed : Fnmatch → UserCache → Str → Bool
ident_ip_allowed fnmatch c s = any_masks fnmatch c.ip_masks s

unfoldable pub ident_ip_allowed_for : Fnmatch → UserCache → Str → ℤ → Bool
ident_ip_allowed_for fnmatch c s uid = elim (find uid c.ip_masks) [
  | none ↦ false
  | some masks ↦ matches_one fnmatch masks s
]

pub record UserTriple : Type 0 where
  pub uid : ℤ
  pub name : Str
  pub primary_gid : ℤ

unfoldable pub learn_user : UserTriple → UserCache → UserCache
learn_user d c = record c {
  known = learn d.uid d.name c.known;
  primary_gids = assign d.uid d.primary_gid c.primary_gids;
}

unfoldable pub set_masks : ℤ → List Str → UserCache → UserCache
set_masks uid masks c = record c { ip_masks = assign uid masks c.ip_masks }

unfoldable pub forget_user : ℤ → UserCache → UserCache
forget_user uid c = record {
  known = forget uid c.known;
  primary_gids = erase uid c.primary_gids;
  ip_masks = erase uid c.ip_masks;
}

-- `Replicate`: the identity of the entry, none where it is no integer; the results of the query and
-- of `LookupIPMasks`, none where they throw; and what it returns.
unfoldable pub replicate_user :
    Option ℤ → Option (Option UserTriple) → Option (List Str) → UserCache → UserCache × Bool
unfolding learn_user set_masks forget_user
replicate_user none query masks c = (c, true)
replicate_user (some uid) none masks c = (c, false)
replicate_user (some uid) (some none) masks c = (forget_user uid c, true)
replicate_user (some uid) (some (some d)) none c = (learn_user d c, false)
replicate_user (some uid) (some (some d)) (some ms) c = (set_masks d.uid ms (learn_user d c), true)

-- The loop of `Populate` over the users that `GetUsers` gives.
unfoldable pub populate_loop : Map ℤ UserRow → UserCache → UserCache
unfolding learn_user set_masks
populate_loop [] c = c
populate_loop ((uid, row) ∷ users) c = populate_loop users (
    set_masks uid row.ip_masks
      (learn_user (record { uid = uid; name = row.name; primary_gid = row.primary_gid }) c))

unfoldable pub populate_users : Map ℤ UserRow → UserCache
unfolding populate_loop
populate_users users = populate_loop users new_user_cache

-- UserNoCache: each lookup is a query of the database.
unfoldable pub query_name : Str → Map ℤ UserRow → Option ℤ
query_name name [] = none
query_name name ((uid, row) ∷ users) =
    if str_eq row.name name then some uid else query_name name users

abbrev pub name_of : UserRow → Str
name_of row = row.name

abbrev pub gid_of : UserRow → ℤ
gid_of row = row.primary_gid

abbrev pub masks_of : UserRow → List Str
masks_of row = row.ip_masks

unfoldable pub uid_to_name_direct : Map ℤ UserRow → ℤ → Str
uid_to_name_direct users uid = or_else (codes "unknown") (Option.map name_of (find uid users))

unfoldable pub name_to_uid_direct : Map ℤ UserRow → Str → ℤ
unfolding query_name
name_to_uid_direct users name = or_else minus_one (query_name name users)

unfoldable pub uid_to_primary_gid_direct : Map ℤ UserRow → ℤ → ℤ
uid_to_primary_gid_direct users uid = or_else minus_one (Option.map gid_of (find uid users))

-- `LookupIPMasks`, of one user or, for -1, of all.
unfoldable pub all_masks : Map ℤ UserRow → List Str
all_masks [] = []
all_masks ((uid, row) ∷ users) = row.ip_masks ++ all_masks users

unfoldable pub lookup_ip_masks : Map ℤ UserRow → ℤ → List Str
unfolding all_masks
lookup_ip_masks users uid =
    if eq_ℤ uid minus_one
    then all_masks users
    else or_else [] (Option.map masks_of (find uid users))

-- `IdentIPAllowed` without the cache.
unfoldable pub ident_ip_allowed_direct : Fnmatch → Map ℤ UserRow → Str → ℤ → Bool
unfolding matches_one lookup_ip_masks
ident_ip_allowed_direct fnmatch users s uid = matches_one fnmatch (lookup_ip_masks users uid) s
