-- ===== src/Db/UserCache/Replication.antt =====
-- Changes of the database and their replication into the cache of src/db/user/usercache.cpp, as
-- src/db/replicator.cpp makes it: one entry of the update log at a time, in order.
use mathlib.Core.Option
use ebftpd.Prelude.{
  ◌≡◌, ◌≢◌, sym, ap, subst, ◌∙◌, inl, inr, none, some, ℤ, minus_one, Str, Bool-cases, eq_ℤ,
  eq_ℤ-iff, Option-cases, arith,
}
use ebftpd.Util.Map.{
  find-assign_self, find-erase_self, Map, IsMap, find, erase, assign, find-assign, assign-IsMap,
  id_key, name_key,
}
use ebftpd.Db.Names.Laws.{IsNew, learn-stale}
use ebftpd.Db.UserCache.{
  UserRow, UserCache, or_else, name_to_uid, learn_user, set_masks, forget_user, replicate_user,
  populate_users, lookup_ip_masks, name_to_uid_direct, query_name,
}
use ebftpd.Db.UserCache.Laws.{IsSynced, stored_names, query_name-find}
use ebftpd.Db.UserCache.Populate.{
  HasUniqueNames, triple, row_set-IsSynced, forget_user-IsSynced, populate_users-IsSynced,
}

-- Replicate of an identity, whose queries find what the database has.
abbrev pub replicated : Map ℤ UserRow → ℤ → UserCache → UserCache
replicated users uid c =
    (replicate_user (some uid) (some (Option.map (triple uid) (find uid users)))
      (some (lookup_ip_masks users uid)) c).0

-- A row that is there is set in the cache, and one that is not is removed.
pub replicated-some :
    (users : Map ℤ UserRow) (uid : ℤ) (row : UserRow) (c : UserCache)
    → uid ≢ minus_one
    → find uid users ≡ some row
    → replicated users uid c ≡ set_masks uid row.ip_masks (learn_user (triple uid row) c)
unfolding replicate_user lookup_ip_masks
replicated-some users uid row c ne e =
    let masks : lookup_ip_masks users uid ≡ row.ip_masks =
      ground (arith, e, eq_ℤ-iff uid minus_one) in
    ap
      (λ q.
        (replicate_user (some uid) (some (Option.map (triple uid) q))
          (some (lookup_ip_masks users uid)) c).0)
      e
    ∙ ap (λ ms. set_masks uid ms (learn_user (triple uid row) c)) masks

pub replicated-none :
    (users : Map ℤ UserRow) (uid : ℤ) (c : UserCache)
    → find uid users ≡ none
    → replicated users uid c ≡ forget_user uid c
unfolding replicate_user
replicated-none users uid c e =
    ap
      (λ q.
        (replicate_user (some uid) (some (Option.map (triple uid) q))
          (some (lookup_ip_masks users uid)) c).0)
      e

-- Runs in which every change is replicated before the next one, and nobody is renamed.
pub data Run : Map ℤ UserRow → UserCache → Type 0 where
  populate :
      (users : Map ℤ UserRow)
      → IsMap users
      → HasUniqueNames (stored_names users)
      → Run users (populate_users users)
  save :
      {users : Map ℤ UserRow} {c : UserCache} (uid : ℤ) (row : UserRow)
      → Run users c
      → uid ≢ minus_one
      → IsNew (stored_names users) uid row.name
      → Run (assign uid row users) (replicated (assign uid row users) uid c)
  remove :
      {users : Map ℤ UserRow} {c : UserCache} (uid : ℤ)
      → Run users c
      → Run (erase uid users) (replicated (erase uid users) uid c)

-- After any run of changes, each of them replicated before the next, in which no user takes a new
-- name in place of another, the cache has exactly what the database has.
pub Run-IsSynced : {users : Map ℤ UserRow} {c : UserCache} → Run users c → IsSynced users c
Run-IsSynced (populate users h unique) = populate_users-IsSynced users h unique
Run-IsSynced (save {users} {c} uid row r ne new) =
    subst (IsSynced (assign uid row users))
      (sym (replicated-some (assign uid row users) uid row c ne (find-assign_self uid row users)))
      (row_set-IsSynced users c uid row (Run-IsSynced r) new)
Run-IsSynced (remove {users} {c} uid r) =
    subst (IsSynced (erase uid users))
      (sym (replicated-none (erase uid users) uid c (find-erase_self uid users)))
      (forget_user-IsSynced users c uid (Run-IsSynced r))

-- Where a user is renamed, the cache keeps the old name: it leads to the user as before, though no
-- user of the database has it.
pub renamed-stale :
    (users : Map ℤ UserRow) (c : UserCache) (uid : ℤ) (row : UserRow) (old : Str)
    → IsMap users
    → IsSynced users c
    → uid ≢ minus_one
    → stored_names users uid ≡ some old
    → old ≢ row.name
    → (name_to_uid (replicated (assign uid row users) uid c) old ≡ uid)
      × (name_to_uid_direct (assign uid row users) old ≡ minus_one)
unfolding name_to_uid name_to_uid_direct set_masks learn_user
renamed-stale users c uid row old h s ne e differ =
    let kept : find old c.known.ids ≡ some uid = (s.named.back old uid).1 e in
    (
      ap (λ d. or_else minus_one (find old d.known.ids))
            (replicated-some (assign uid row users) uid row c ne (find-assign_self uid row users))
          ∙ ap (or_else minus_one) (learn-stale c.known uid old row.name kept differ),
      elim (Option-cases (query_name old (assign uid row users))) [
        | inl f ↦ ap (or_else minus_one) f
        | inr (x, f) ↦
            let found =
              query_name-find old (assign uid row users) x (assign-IsMap uid row users h) f in
            elim (Bool-cases (eq_ℤ uid x)) [
              | inl g ↦ absurd (differ (ground (arith, g, found, find-assign uid x row users)))
              | inr g ↦
                  let also : stored_names users x ≡ some old =
                    ground (arith, g, found, find-assign uid x row users) in
                  absurd (ground (arith, g, kept, (s.named.back old x).1 also, eq_ℤ-iff uid x))
            ]
      ],
    )
