-- ===== src/Db/UserCache/Tests.antt =====
-- The user cache at concrete databases.
use ebftpd.Prelude.{
  ◌≡◌, refl, true, some, [], ◌∷◌, ℤ, pos, minus_one, codes, eq_ℤ, eq_ℤ-iff, str_eq, arith,
  if◌then◌else◌,
}
use ebftpd.Util.Wildcard.{Fnmatch, wildcard_match}
use ebftpd.Util.Map.{Map, IsMap, find, erase, assign, id_key, name_key}
use ebftpd.Db.Names.Laws.{IsNew}
use ebftpd.Db.UserCache.{
  matches_one, UserRow, UserCache, uid_to_name, name_to_uid, uid_to_primary_gid, ident_ip_allowed,
  ident_ip_allowed_for, uid_to_name_direct, name_to_uid_direct, uid_to_primary_gid_direct,
  ident_ip_allowed_direct, populate_users,
}
use ebftpd.Db.UserCache.Laws.{IsSynced, stored_names}
use ebftpd.Db.UserCache.Direct.{user_cache-direct}
use ebftpd.Db.UserCache.Populate.{HasUniqueNames, populate_users-IsSynced}
use ebftpd.Db.UserCache.Replication.{
  replicated, Run, populate, save, remove, Run-IsSynced, renamed-stale,
}

abbrev alice : UserRow
alice = record { name = codes "alice"; primary_gid = pos 1; ip_masks = codes "*@10.0.0.1" ∷ [] }

abbrev bob : UserRow
bob = record { name = codes "bob"; primary_gid = pos 2; ip_masks = [] }

abbrev robert : UserRow
robert = record { name = codes "robert"; primary_gid = pos 2; ip_masks = [] }

abbrev users : Map ℤ UserRow
users = (pos 5, alice) ∷ []

-- Texts that are equal match.
abbrev equal_match : Fnmatch
equal_match pattern s fold = if str_eq pattern s then 0 else 1

users-IsMap : IsMap users
unfolding find
users-IsMap = (refl, tt)

users-HasUniqueNames : HasUniqueNames (stored_names users)
unfolding find
users-HasUniqueNames x y n e f = ground (arith, eq_ℤ-iff (pos 5) x, eq_ℤ-iff (pos 5) y)

bob-IsNew : IsNew (stored_names users) (pos 6) (codes "bob")
unfolding find eq_ℤ
bob-IsNew = record { free = λ x e. ground (arith, eq_ℤ-iff (pos 5) x); kept = λ old e. cc e }

-- Alice is there from the start, bob comes, and alice goes.
run :
    Run
      (assign (pos 6) bob users)
      (replicated (assign (pos 6) bob users) (pos 6) (populate_users users))
run = save (pos 6) bob (populate users users-IsMap users-HasUniqueNames) (λ e. cc e) bob-IsNew

Run-IsSynced_example : IsSynced (erase (pos 5) (assign (pos 6) bob users)) (
    replicated
      (erase (pos 5) (assign (pos 6) bob users))
      (pos 5)
      (replicated (assign (pos 6) bob users) (pos 6) (populate_users users)))
Run-IsSynced_example = Run-IsSynced (remove (pos 5) run)

alice_admitted :
    ident_ip_allowed_for equal_match (populate_users users) (codes "*@10.0.0.1") (pos 5) ≡ true
unfolding populate_users find assign erase ident_ip_allowed_for matches_one wildcard_match str_eq
    eq_ℤ
alice_admitted = refl

synced : IsSynced users (populate_users users)
synced = populate_users-IsSynced users users-IsMap users-HasUniqueNames

user_cache-direct_example :
    let c : UserCache = populate_users users in
    let address = codes "*@10.0.0.1" in
    (uid_to_name c (pos 5) ≡ uid_to_name_direct users (pos 5))
    × (name_to_uid c (codes "alice") ≡ name_to_uid_direct users (codes "alice"))
    × (uid_to_primary_gid c (pos 5) ≡ uid_to_primary_gid_direct users (pos 5))
    × (ident_ip_allowed equal_match c address
        ≡ ident_ip_allowed_direct equal_match users address minus_one)
    × (ident_ip_allowed_for equal_match c address (pos 5)
        ≡ ident_ip_allowed_direct equal_match users address (pos 5))
user_cache-direct_example =
    user_cache-direct equal_match users (populate_users users) (pos 5) (codes "alice")
      (codes "*@10.0.0.1") users-IsMap synced (λ e. cc e)

abbrev caught_up : UserCache
caught_up = replicated (erase (pos 5) (assign (pos 6) bob users)) (pos 6) (populate_users users)

alice_stored : stored_names users (pos 5) ≡ some (codes "alice")
unfolding find eq_ℤ
alice_stored = refl

renamed-stale_example :
    (name_to_uid
        (replicated (assign (pos 5) robert users) (pos 5) (populate_users users))
        (codes "alice")
      ≡ pos 5)
    × (name_to_uid_direct (assign (pos 5) robert users) (codes "alice") ≡ minus_one)
renamed-stale_example =
    renamed-stale users (populate_users users) (pos 5) robert (codes "alice") users-IsMap synced
      (λ e. cc e) alice_stored (λ e. cc e)
