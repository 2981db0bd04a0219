-- ===== src/Db/UserCache/Lag.antt =====
-- The user cache of src/db/user/usercache.cpp while entries of the update log wait for their
-- replication (src/db/replicator.cpp), or got lost in it.
use mathlib.Core.Option
use ebftpd.Prelude.{◌⊎◌, not, ◌≡◌, ◌≢◌, none, some, List, [], ◌∷◌, ◌++◌, ℤ, minus_one, eq_ℤ}
use ebftpd.Acl.User.GidList.{keep}
use ebftpd.Util.Map.{Map, IsMap, find, erase, assign, id_key, name_key}
use ebftpd.Db.Names.{Names}
use ebftpd.Db.UserCache.{
  UserTriple, replicate_user, Option, UserRow, UserCache, name_of, gid_of, masks_of, populate_users,
}
use ebftpd.Db.UserCache.Laws.{stored_names}
use ebftpd.Db.UserCache.Populate.{HasUniqueNames, triple}
use ebftpd.Db.UserCache.Replication.{replicated}

-- What the cache keeps under one identity is what the database has.
abbrev pub IsCurrent : Map ℤ UserRow → UserCache → ℤ → Type 0
IsCurrent users c uid =
    (find uid c.known.names ≡ Option.map name_of (find uid users))
    × (find uid c.primary_gids ≡ Option.map gid_of (find uid users))
    × (find uid c.ip_masks ≡ Option.map masks_of (find uid users))

-- An identity's queries in Replicate where one of them throws: the first, or else that of the
-- masks.
abbrev pub Fails : Map ℤ UserRow → ℤ → Option (Option UserTriple) → Type 0
Fails users uid query = (query ≡ none) ⊎ (query ≡ some (Option.map (triple uid) (find uid users)))

abbrev pub removed : ℤ → List ℤ → List ℤ
removed uid uids = keep (λ g. not (eq_ℤ g uid)) uids

-- Runs in which entries of the update log wait, and any user may be renamed. The second list has
-- the identities that were missed: a query threw in their replication, whose result is not looked
-- at, and none of their entries was replicated since.
pub data Lagging : Map ℤ UserRow → UserCache → List ℤ → List ℤ → Type 0 where
  begin :
      (users : Map ℤ UserRow)
      → IsMap users
      → HasUniqueNames (stored_names users)
      → Lagging users (populate_users users) [] []
  change :
      {users : Map ℤ UserRow} {c : UserCache} {log missed : List ℤ} (uid : ℤ) (row : UserRow)
      → Lagging users c log missed
      → uid ≢ minus_one
      → Lagging (assign uid row users) c (log ++ uid ∷ []) missed
  delete :
      {users : Map ℤ UserRow} {c : UserCache} {log missed : List ℤ} (uid : ℤ)
      → Lagging users c log missed
      → uid ≢ minus_one
      → Lagging (erase uid users) c (log ++ uid ∷ []) missed
  replicate :
      {users : Map ℤ UserRow} {c : UserCache} {log missed : List ℤ} (uid : ℤ)
      → Lagging users c (uid ∷ log) missed
      → uid ≢ minus_one
      → Lagging users (replicated users uid c) log (removed uid missed)
  miss :
      {users : Map ℤ UserRow} {c : UserCache} {log missed : List ℤ} (uid : ℤ)
      (query : Option (Option UserTriple))
      → Lagging users c (uid ∷ log) missed
      → Fails users uid query
      → Lagging users (replicate_user (some uid) query none c).0 log (uid ∷ missed)
