-- ===== src/Cmd/Site/Authority.antt =====
-- Who may change an account by the commands of src/cmd/site/commands.cpp.
use ebftpd.Prelude.{
  ◌≡◌, ◌≢◌, ◌⊎◌, refl, sym, ap, ◌∙◌, inl, inr, Bool, true, false, not, Option, none, some, Str,
  codes, str_eq, ℤ, pos, eq_ℤ, eq_ℤ-iff, ◌&&◌, ◌||◌, if◌then◌else◌, Bool-cases, arith,
}
use ebftpd.Acl.User.Data.{UserData, Outcome, returned, unsaved, aborted, rename}
use ebftpd.Acl.User.Flags.{has_flag, siteop_flag, deleted_flag}
use ebftpd.Cmd.Change.Values.{Accounts}
use ebftpd.Cmd.Change.Apply.{store}
use ebftpd.Cmd.Site.{
  Around, SiteReply, okay, refused, denied, syntax_error, SiteCommand, chpass, deluser, readd,
  renuser, acl_keyword, allows, administers, written, saves, change_password, delete_user, has_slot,
  readd_user, rename_user, execute_command_of, execute_site,
}
use ebftpd.Cmd.Site.Keywords.{SplitsKeywords, IsCached, Holds, holds}

-- The user that a command names.
abbrev pub target : SiteCommand → Str
target (chpass name password) = name
target (deluser name) = name
target (readd name) = name
target (renuser old name) = old

abbrev pub MasterForSiteop : Around → UserData → Type 0
MasterForSiteop w u = (has_flag u siteop_flag ≡ false) ⊎ (w.server.is_master ≡ true)

abbrev pub Permitted : Around → SiteCommand → UserData → Type 0
Permitted w (chpass name password) u =
    Holds w (codes "chpass") (codes "chpassgadmin") u × (w.is_secure password ≡ true)
Permitted w (deluser name) u =
    Holds w (codes "deluser") (codes "delusergadmin") u
    × MasterForSiteop w u
    × (u.id ≢ pos 0)
    × (u.id ≢ pos 1)
Permitted w (readd name) u =
    Holds w (codes "readd") (codes "readdgadmin") u
    × (has_flag u deleted_flag ≡ true)
    × ((allows w (codes "readd") ≡ true) ⊎ (has_slot w u.primary_gid ≡ true))
Permitted w (renuser old name) u =
    (allows w (codes "renuser") ≡ true) × MasterForSiteop w u × (w.valid_username name ≡ true)

module _ (accounts : Accounts) (uid : ℤ) where
  -- A branch that leaves the accounts was not taken.
  passed :
      (b : Bool) (reply : SiteReply) (rest : SiteReply × Accounts)
      → (if b then (reply, accounts) else rest).1 uid ≢ accounts uid
      → (b ≡ false) × (rest.1 uid ≢ accounts uid)
  passed true reply rest h = absurd (h refl)
  passed false reply rest h = (refl, h)

  loaded :
      (o : Option UserData) (k : UserData → SiteReply × Accounts)
      → (let r : SiteReply × Accounts = elim o [ none ↦ (refused, accounts) | some u ↦ k u ] in
          r.1 uid ≢ accounts uid)
      → (u : UserData) × (o ≡ some u) × ((k u).1 uid ≢ accounts uid)
  loaded none k h = absurd (h refl)
  loaded (some u) k h = (u, refl, h)

  store-changes : (x : ℤ) (v : UserData) → store accounts x v uid ≢ accounts uid → x ≡ uid
  unfolding store
  store-changes x v h = elim (Bool-cases (eq_ℤ x uid)) [
    | inl e ↦ (eq_ℤ-iff x uid).0 e
    | inr e ↦ absurd (h (rw (e, store) refl))
  ]

  written-changes :
      (x : ℤ) (o : Outcome UserData) → (written accounts x o).1 uid ≢ accounts uid → x ≡ uid
  written-changes x (returned v) h = store-changes x v h
  written-changes x (unsaved v) h = absurd (h refl)
  written-changes x aborted h = absurd (h refl)

master_passed :
    (w : Around) (u : UserData)
    → (has_flag u siteop_flag && not w.server.is_master) ≡ false
    → MasterForSiteop w u
master_passed w u e = ground (arith, e)

abbrev pub Authorised : Around → SiteCommand → Accounts → ℤ → Type 0
Authorised w c accounts uid =
    (w.load_name (target c) ≡ uid) × ((u : UserData) × (accounts uid ≡ some u) × Permitted w c u)

renamed-changes :
    (saved : Bool) (accounts : Accounts) (uid x : ℤ) (u : UserData) (name : Str)
    → (let r = rename saved u name in
        let now : SiteReply × Accounts =
          if r.0 then (okay, store accounts x r.1) else (refused, accounts) in
        now.1 uid ≢ accounts uid)
    → x ≡ uid
unfolding rename
renamed-changes true accounts uid x u name h = store-changes accounts uid x _ h
renamed-changes false accounts uid x u name h = absurd (h refl)

module _ (w : Around) (accounts : Accounts) (uid : ℤ) (s : SplitsKeywords w) where
  chpass-Authorised :
      (name password : Str)
      → IsCached w accounts name
      → allows w (acl_keyword (chpass name password)) ≡ true
      → (change_password w name password accounts).1 uid ≢ accounts uid
      → Authorised w (chpass name password) accounts uid
  unfolding change_password
  chpass-Authorised name password cached k h =
      let (p, h1) = passed accounts uid _ denied _ h in
      let (q, h2) = passed accounts uid (not (w.is_secure password)) refused _ h1 in
      let (u, e, h3) = loaded accounts uid (accounts (w.load_name name)) _ h2 in
      let same = written-changes accounts uid (w.load_name name) _ h3 in
      (
        same,
        (
          u,
          ap accounts (sym same) ∙ e,
          (
            holds w accounts name (codes "chpass") (codes "chpassgadmin")
                (codes "chpass|chpassgadmin") u s.passwords cached e k p,
            ground (arith, q),
          ),
        ),
      )

  deluser-Authorised :
      (name : Str)
      → IsCached w accounts name
      → allows w (acl_keyword (deluser name)) ≡ true
      → (delete_user w name accounts).1 uid ≢ accounts uid
      → Authorised w (deluser name) accounts uid
  unfolding delete_user
  deluser-Authorised name cached k h =
      let (p, h1) = passed accounts uid _ denied _ h in
      let (u, e, h2) = loaded accounts uid (accounts (w.load_name name)) _ h1 in
      let (m, h3) =
        passed accounts uid (has_flag u siteop_flag && not w.server.is_master) refused _ h2 in
      let (i, h4) =
        passed accounts uid
          (str_eq u.name (codes "default") || eq_ℤ u.id (pos 0) || eq_ℤ u.id (pos 1)) refused _
          h3 in
      let (d, h5) = passed accounts uid (has_flag u deleted_flag) refused _ h4 in
      let same = written-changes accounts uid (w.load_name name) _ h5 in
      (
        same,
        (
          u,
          ap accounts (sym same) ∙ e,
          (
            holds w accounts name (codes "deluser") (codes "delusergadmin")
                (codes "deluser|delusergadmin") u s.deletions cached e k p,
            master_passed w u m,
            (λ z. ground (arith, i, (eq_ℤ-iff u.id (pos 0)).1 z)),
            (λ z. ground (arith, i, (eq_ℤ-iff u.id (pos 1)).1 z)),
          ),
        ),
      )

  readd-Authorised :
      (name : Str)
      → IsCached w accounts name
      → allows w (acl_keyword (readd name)) ≡ true
      → (readd_user w name accounts).1 uid ≢ accounts uid
      → Authorised w (readd name) accounts uid
  unfolding readd_user
  readd-Authorised name cached k h =
      let gadmin = not (allows w (codes "readd")) && allows w (codes "readdgadmin") in
      let (p, h1) = passed accounts uid (gadmin && not (administers w name)) denied _ h in
      let (u, e, h2) = loaded accounts uid (accounts (w.load_name name)) _ h1 in
      let (d, h3) = passed accounts uid (not (has_flag u deleted_flag)) refused _ h2 in
      let (f, h4) = passed accounts uid (gadmin && not (has_slot w u.primary_gid)) refused _ h3 in
      let same = written-changes accounts uid (w.load_name name) _ h4 in
      let held =
        holds w accounts name (codes "readd") (codes "readdgadmin") (codes "readd|readdgadmin") u
          s.readmissions cached e k (ground (arith, p)) in
      (
        same,
        (
          u,
          ap accounts (sym same) ∙ e,
          (held, ground (arith, d), elim held [ inl a ↦ inl a | inr b ↦ ground (arith, b, f) ]),
        ),
      )

  renuser-Authorised :
      (old name : Str)
      → allows w (acl_keyword (renuser old name)) ≡ true
      → (rename_user w old name accounts).1 uid ≢ accounts uid
      → Authorised w (renuser old name) accounts uid
  unfolding rename_user rename
  renuser-Authorised old name k h =
      let (v, h1) = passed accounts uid (not (w.valid_username name)) refused _ h in
      let (u, e, h2) = loaded accounts uid (accounts (w.load_name old)) _ h1 in
      let (m, h3) =
        passed accounts uid (has_flag u siteop_flag && not w.server.is_master) refused _ h2 in
      let r = rename (saves w (w.load_name old)) u name in
      let now : SiteReply × Accounts =
        if r.0 then (okay, store accounts (w.load_name old) r.1) else (refused, accounts) in
      let (i, h4) = passed accounts uid (str_eq u.name (codes "default")) refused now h3 in
      let same =
        renamed-changes (saves w (w.load_name old)) accounts uid (w.load_name old) u name h4 in
      (same, (u, ap accounts (sym same) ∙ e, (k, master_passed w u m, ground (arith, v))))

  by_command :
      (c : SiteCommand)
      → IsCached w accounts (target c)
      → allows w (acl_keyword c) ≡ true
      → (execute_command_of w c accounts).1 uid ≢ accounts uid
      → Authorised w c accounts uid
  unfolding execute_command_of
  by_command (chpass name password) cached k h = chpass-Authorised name password cached k h
  by_command (deluser name) cached k h = deluser-Authorised name cached k h
  by_command (readd name) cached k h = readd-Authorised name cached k h
  by_command (renuser old name) cached k h = renuser-Authorised old name k h

-- Where the cache has the primary group of the user that a command names, as it may not while a
-- change waits for its replication or after a rename, and keywords are split at their bars: where a
-- command by SITE CHPASS, DELUSER, READD or RENUSER changes the account of a user, it is the one
-- that it names, and the client may run the command, or is a group administrator of that user's
-- primary group who may run the variant for such; a siteop is deleted or renamed by masters only,
-- the users 0 and 1 are not deleted, a new password passed the check of its strength, and a group
-- administrator readds a deleted user only to a free slot of the group.
pub execute_site-Authorised :
    (w : Around) (c : SiteCommand) (accounts : Accounts) (uid : ℤ)
    → SplitsKeywords w
    → IsCached w accounts (target c)
    → (execute_site w c accounts).1 uid ≢ accounts uid
    → Authorised w c accounts uid
unfolding execute_site execute_command_of
execute_site-Authorised w c accounts uid s cached h =
    let (k, h1) = passed accounts uid (not (allows w (acl_keyword c))) denied _ h in
    let (x, h2) = passed accounts uid (not w.scripts_allow) refused _ h1 in
    let (y, h3) = passed accounts uid (not w.is_ascii) syntax_error _ h2 in
    by_command w accounts uid s c cached (ground (arith, k)) h3
