-- ===== src/Db/UserCache/Direct.antt =====
-- A user cache that has what the database has answers as the lookups in the database do
-- (src/db/user/usercache.cpp and util.cpp).
use ebftpd.Prelude.{
  ◌≡◌, ◌≢◌, sym, ap, ◌∙◌, inl, inr, ℤ, minus_one, Str, codes, eq_ℤ, eq_ℤ-iff, Option-cases, arith,
}
use ebftpd.Util.Wildcard.{Fnmatch}
use ebftpd.Util.Map.{Map, IsMap, find, id_key, name_key}
use ebftpd.Db.UserCache.{
  UserRow, UserCache, or_else, uid_to_name, name_to_uid, uid_to_primary_gid, matches_one,
  ident_ip_allowed, ident_ip_allowed_for, query_name, uid_to_name_direct, name_to_uid_direct,
  uid_to_primary_gid_direct, lookup_ip_masks, ident_ip_allowed_direct,
}
use ebftpd.Db.UserCache.Laws.{
  IsSynced, query_name-find, find-query_name, any_masks_ext, all_masks-any, masks_map,
  masks_map-IsMap, find-masks_map,
}

find-eq-query_name :
    (users : Map ℤ UserRow) (c : UserCache) (name : Str)
    → IsMap users
    → IsSynced users c
    → find name c.known.ids ≡ query_name name users
find-eq-query_name users c name h s = elim (Option-cases (query_name name users)) [
  | inl e ↦ elim (Option-cases (find name c.known.ids)) [
    | inl f ↦ f ∙ sym e
    | inr (uid, f) ↦ absurd (find-query_name name users uid ((s.named.back name uid).0 f) e)
  ]
  | inr (uid, e) ↦ (s.named.back name uid).1 (query_name-find name users uid h e) ∙ sym e
]

ident_ip_allowed-for :
    (fnmatch : Fnmatch) (users : Map ℤ UserRow) (c : UserCache) (address : Str) (uid : ℤ)
    → IsSynced users c
    → uid ≢ minus_one
    → ident_ip_allowed_for fnmatch c address uid ≡ ident_ip_allowed_direct fnmatch users address uid
unfolding ident_ip_allowed_for ident_ip_allowed_direct lookup_ip_masks matches_one
ident_ip_allowed-for fnmatch users c address uid s ne =
    ground (arith, s.masks uid, eq_ℤ-iff uid minus_one)

ident_ip_allowed-any :
    (fnmatch : Fnmatch) (users : Map ℤ UserRow) (c : UserCache) (address : Str)
    → IsMap users
    → IsSynced users c
    → ident_ip_allowed fnmatch c address ≡ ident_ip_allowed_direct fnmatch users address minus_one
unfolding ident_ip_allowed ident_ip_allowed_direct lookup_ip_masks eq_ℤ
ident_ip_allowed-any fnmatch users c address h s =
    any_masks_ext fnmatch c.ip_masks (masks_map users) address s.proper (masks_map-IsMap users h)
      (λ uid. s.masks uid ∙ sym (find-masks_map users uid))
    ∙ sym (all_masks-any fnmatch users address)

-- A cache that has exactly what the database has answers each of the five questions as the query of
-- the database does that is made without a cache, the identity -1 excepted, which the query of the
-- masks of one user takes for all users.
pub user_cache-direct :
    (fnmatch : Fnmatch) (users : Map ℤ UserRow) (c : UserCache) (uid : ℤ) (name address : Str)
    → IsMap users
    → IsSynced users c
    → uid ≢ minus_one
    → (uid_to_name c uid ≡ uid_to_name_direct users uid)
      × (name_to_uid c name ≡ name_to_uid_direct users name)
      × (uid_to_primary_gid c uid ≡ uid_to_primary_gid_direct users uid)
      × (ident_ip_allowed fnmatch c address
          ≡ ident_ip_allowed_direct fnmatch users address minus_one)
      × (ident_ip_allowed_for fnmatch c address uid
          ≡ ident_ip_allowed_direct fnmatch users address uid)
unfolding uid_to_name name_to_uid uid_to_primary_gid uid_to_name_direct name_to_uid_direct
    uid_to_primary_gid_direct
user_cache-direct fnmatch users c uid name address h s ne = (
  ap (or_else (codes "unknown")) (s.named.forth uid),
  ap (or_else minus_one) (find-eq-query_name users c name h s),
  ap (or_else minus_one) (s.gids uid),
  ident_ip_allowed-any fnmatch users c address h s,
  ident_ip_allowed-for fnmatch users c address uid s ne,
)
