-- ===== src/Db/GroupCache.antt =====
-- src/db/group/groupcache.cpp, and the lookups without a cache of src/db/group/util.cpp. The groups
-- of the database are a map from identities to names.
pub mod Laws
pub mod Tests
use ebftpd.Prelude.{
  Bool, true, false, Option, none, some, List, [], ◌∷◌, ℤ, minus_one, Str, codes, str_eq, eq_ℤ,
  if◌then◌else◌,
}
use ebftpd.Util.Map.{Map, find, id_key, name_key}
use ebftpd.Db.Names.{Names, learn, forget, no_names}
use ebftpd.Db.UserCache.{or_else}

-- The cache is the two maps alone.
unfoldable pub gid_to_name : Names → ℤ → Str
gid_to_name c gid =
    if eq_ℤ gid minus_one then codes "NoGroup" else or_else (codes "unknown") (find gid c.names)

unfoldable pub name_to_gid : Names → Str → ℤ
name_to_gid c name = or_else minus_one (find name c.ids)

pub record GroupPair : Type 0 where
  pub gid : ℤ
  pub name : Str

-- The identity of the entry, none where it is no integer, and the result of the query, none where
-- it throws.
unfoldable pub replicate_group : Option ℤ → Option (Option GroupPair) → Names → Names × Bool
replicate_group none query c = (c, true)
replicate_group (some gid) none c = (c, false)
replicate_group (some gid) (some none) c = (forget gid c, true)
replicate_group (some gid) (some (some d)) c = (learn d.gid d.name c, true)

unfoldable pub populate_groups_loop : Map ℤ Str → Names → Names
populate_groups_loop [] c = c
populate_groups_loop ((gid, name) ∷ groups) c = populate_groups_loop groups (learn gid name c)

unfoldable pub populate_groups : Map ℤ Str → Names
unfolding populate_groups_loop
populate_groups groups = populate_groups_loop groups no_names

-- GroupNoCache: each lookup is a query of the database.
unfoldable pub query_group : Str → Map ℤ Str → Option ℤ
query_group name [] = none
query_group name ((gid, n) ∷ groups) = if str_eq n name then some gid else query_group name groups

unfoldable pub gid_to_name_direct : Map ℤ Str → ℤ → Str
gid_to_name_direct groups gid = or_else (codes "unknown") (find gid groups)

unfoldable pub name_to_gid_direct : Map ℤ Str → Str → ℤ
unfolding query_group
name_to_gid_direct groups name = or_else minus_one (query_group name groups)
