-- ===== src/Db/GroupCache/Laws.antt =====
-- The group cache under replication answers as the database does (src/db/group/groupcache.cpp and
-- util.cpp). A group is looked at as a user with no other data.
use mathlib.Core.Option
use ebftpd.Prelude.{
  ◌≡◌, refl, sym, ap, subst, ◌∙◌, inl, inr, Option, none, some, [], ◌∷◌, ℤ, minus_one, Str, codes,
  eq_ℤ, Option-cases, arith, if◌then◌else◌,
}
use ebftpd.Util.Map.{
  find-assign_self, find-erase_self, Map, IsMap, find, erase, assign, find-assign, find-erase,
  assign-IsMap, erase-IsMap, id_key, name_key,
}
use ebftpd.Db.Names.{Names, learn, forget}
use ebftpd.Db.Names.Laws.{Agrees, Stored, IsNew, store_name, learn-Agrees, forget-Agrees}
use ebftpd.Db.GroupCache.{
  GroupPair, gid_to_name, name_to_gid, replicate_group, populate_groups_loop, populate_groups,
  query_group, gid_to_name_direct, name_to_gid_direct,
}
use ebftpd.Db.UserCache.{
  UserRow, UserCache, or_else, learn_user, set_masks, query_name, populate_loop, populate_users,
  new_user_cache,
}
use ebftpd.Db.UserCache.Laws.{stored_names, query_name-find, find-query_name}
use ebftpd.Db.UserCache.Populate.{Agrees-ext, HasUniqueNames, populate_users-IsSynced}

abbrev stored_groups : Map ℤ Str → Stored
stored_groups groups gid = find gid groups

abbrev as_user : Str → UserRow
as_user name = record { name = name; primary_gid = minus_one; ip_masks = [] }

abbrev as_users : Map ℤ Str → Map ℤ UserRow
as_users [] = []
as_users ((gid, name) ∷ groups) = (gid, as_user name) ∷ as_users groups

find-as_users :
    (groups : Map ℤ Str) (gid : ℤ) → stored_names (as_users groups) gid ≡ find gid groups
unfolding find
find-as_users [] gid = refl
find-as_users ((x, name) ∷ groups) gid = ground (arith, find-as_users groups gid)

none-as_users :
    (groups : Map ℤ Str) (gid : ℤ) → find gid groups ≡ none → find gid (as_users groups) ≡ none
none-as_users groups gid e = ground (arith, e, find-as_users groups gid)

as_users-IsMap : (groups : Map ℤ Str) → IsMap groups → IsMap (as_users groups)
as_users-IsMap [] h = tt
as_users-IsMap ((gid, name) ∷ groups) (f, h) = (none-as_users groups gid f, as_users-IsMap groups h)

query-as_users :
    (name : Str) (groups : Map ℤ Str) → query_group name groups ≡ query_name name (as_users groups)
unfolding query_group query_name
query-as_users name [] = refl
query-as_users name ((gid, n) ∷ groups) = ground (arith, query-as_users name groups)

populate-as_users :
    (groups : Map ℤ Str) (c : UserCache)
    → populate_groups_loop groups c.known ≡ (populate_loop (as_users groups) c).known
unfolding populate_groups_loop populate_loop learn_user set_masks
populate-as_users [] c = refl
populate-as_users ((gid, name) ∷ groups) c =
    populate-as_users groups
      (set_masks gid [] (learn_user (record { uid = gid; name = name; primary_gid = minus_one }) c))

populate_groups-Agrees :
    (groups : Map ℤ Str)
    → IsMap groups
    → HasUniqueNames (stored_groups groups)
    → Agrees (populate_groups groups) (stored_groups groups)
unfolding populate_groups populate_users
populate_groups-Agrees groups h unique =
    let same = find-as_users groups in
    let synced =
      populate_users-IsSynced (as_users groups) (as_users-IsMap groups h)
        (λ x y n e f. unique x y n (sym (same x) ∙ e) (sym (same y) ∙ f)) in
    subst (λ d. Agrees d (stored_groups groups)) (sym (populate-as_users groups new_user_cache))
      (Agrees-ext (populate_users (as_users groups)).known (stored_names (as_users groups))
        (stored_groups groups) same synced.named)

abbrev pub group_pair : ℤ → Str → GroupPair
group_pair gid name = record { gid = gid; name = name }

-- Replicate of an identity, whose query finds what the database has.
abbrev pub group_replicated : Map ℤ Str → ℤ → Names → Names
group_replicated groups gid c =
    (replicate_group (some gid) (some (Option.map (group_pair gid) (find gid groups))) c).0

-- Runs in which every change is replicated before the next one, and no group is renamed.
pub data GroupRun : Map ℤ Str → Names → Type 0 where
  populate :
      (groups : Map ℤ Str)
      → IsMap groups
      → HasUniqueNames (stored_groups groups)
      → GroupRun groups (populate_groups groups)
  save :
      {groups : Map ℤ Str} {c : Names} (gid : ℤ) (name : Str)
      → GroupRun groups c
      → IsNew (stored_groups groups) gid name
      → GroupRun (assign gid name groups) (group_replicated (assign gid name groups) gid c)
  remove :
      {groups : Map ℤ Str} {c : Names} (gid : ℤ)
      → GroupRun groups c
      → GroupRun (erase gid groups) (group_replicated (erase gid groups) gid c)

group_replicated-eq :
    (groups : Map ℤ Str) (gid : ℤ) (c : Names) (o : Option Str)
    → find gid groups ≡ o
    → group_replicated groups gid c
      ≡ (replicate_group (some gid) (some (Option.map (group_pair gid) o)) c).0
group_replicated-eq groups gid c o e =
    ap (λ q. (replicate_group (some gid) (some (Option.map (group_pair gid) q)) c).0) e

GroupRun-Agrees :
    {groups : Map ℤ Str} {c : Names}
    → GroupRun groups c
    → Agrees c (stored_groups groups) × IsMap groups
unfolding replicate_group
GroupRun-Agrees (populate groups h unique) = (populate_groups-Agrees groups h unique, h)
GroupRun-Agrees (save {groups} {c} gid name r new) =
    let (a, h) = GroupRun-Agrees r in
    (
      subst (λ d. Agrees d (stored_groups (assign gid name groups)))
          (sym (
            group_replicated-eq (assign gid name groups) gid c (some name)
              (find-assign_self gid name groups)))
          (Agrees-ext (learn gid name c) (store_name gid (some name) (stored_groups groups))
            (stored_groups (assign gid name groups))
            (λ x. ground (arith, find-assign gid x name groups))
            (learn-Agrees c (stored_groups groups) gid name a new)),
      assign-IsMap gid name groups h,
    )
GroupRun-Agrees (remove {groups} {c} gid r) =
    let (a, h) = GroupRun-Agrees r in
    (
      subst (λ d. Agrees d (stored_groups (erase gid groups)))
          (sym (group_replicated-eq (erase gid groups) gid c none (find-erase_self gid groups)))
          (Agrees-ext (forget gid c) (store_name gid none (stored_groups groups))
            (stored_groups (erase gid groups)) (λ x. ground (arith, find-erase gid x groups))
            (forget-Agrees c (stored_groups groups) gid a)),
      erase-IsMap gid groups h,
    )

find-eq-query_group :
    (groups : Map ℤ Str) (c : Names) (name : Str)
    → Agrees c (stored_groups groups)
    → IsMap groups
    → find name c.ids ≡ query_group name groups
find-eq-query_group groups c name a h = elim (Option-cases (query_name name (as_users groups))) [
  | inl e ↦ elim (Option-cases (find name c.ids)) [
    | inl f ↦ f ∙ sym (query-as_users name groups ∙ e)
    | inr (gid, f) ↦ absurd (
        find-query_name name (as_users groups) gid
          (find-as_users groups gid ∙ (a.back name gid).0 f) e)
  ]
  | inr (gid, e) ↦
      (a.back name gid).1 (
        sym (find-as_users groups gid)
        ∙ query_name-find name (as_users groups) gid (as_users-IsMap groups h) e)
      ∙ sym (query-as_users name groups ∙ e)
]

-- After any run of changes of groups, each of them replicated before the next, in which no group
-- takes a new name in place of another, the cache answers as the queries of the database do; the
-- identity -1 alone has a name of its own in the cache.
pub GroupRun-direct :
    {groups : Map ℤ Str} {c : Names} (gid : ℤ) (name : Str)
    → GroupRun groups c
    → (gid_to_name c gid
        ≡ (if eq_ℤ gid minus_one then codes "NoGroup" else gid_to_name_direct groups gid))
      × (name_to_gid c name ≡ name_to_gid_direct groups name)
unfolding gid_to_name gid_to_name_direct name_to_gid name_to_gid_direct
GroupRun-direct {groups} {c} gid name r =
    let (a, h) = GroupRun-Agrees r in
    (
      ap (λ o. if eq_ℤ gid minus_one then codes "NoGroup" else or_else (codes "unknown") o)
          (a.forth gid),
      ap (or_else minus_one) (find-eq-query_group groups c name a h),
    )
