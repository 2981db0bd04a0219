-- ===== src/Cmd/Site.antt =====
-- src/cmd/rfc/commands.cpp, SITE: the permission of a command by the table of
-- src/cmd/site/factory.cpp, and the commands CHPASS, DELUSER, READD and RENUSER of
-- src/cmd/site/commands.cpp. The replies' texts, the log and the kicking of a deleted user are left
-- out.
pub mod Keywords
pub mod Authority
pub mod Credits
pub mod Tests
use ebftpd.Prelude.{
  Bool, true, false, not, Option, none, some, List, [], ◌∷◌, Str, codes, str_eq, ℤ, pos, leb_ℤ,
  eq_ℤ, ◌&&◌, ◌||◌, if◌then◌else◌,
}
use ebftpd.Acl.User.Data.{UserData, Outcome, returned, unsaved, aborted, rename}
use ebftpd.Acl.User.Flags.{
  has_flag, has_gadmin_gid, add_flags, del_flags, siteop_flag, deleted_flag,
}
use ebftpd.Acl.User.Password.{set_password}
use ebftpd.Cmd.Change.Values.{Server, Accounts, allow_site_cmd}
use ebftpd.Cmd.Change.Apply.{store}
use ebftpd.Db.UserCache.{UserCache, name_to_uid, uid_to_primary_gid}

-- What a command finds: the server with the client, the cache of the users, the user that a query
-- by name loads, the check of the passwords with OpenSSL's hash and a random salt, which names are
-- valid, the slots of a group with those in use, and whether the scripts before the command let it
-- run and its arguments are ASCII.
pub record Around : Type 0 where
  pub server : Server
  pub cache : UserCache
  pub load_name : Str → ℤ
  pub is_secure : Str → Bool
  pub hash_password : Str → Str → Str
  pub raw_salt : Str
  pub valid_username : Str → Bool
  pub load_slots : ℤ → Option (ℤ × ℤ)
  pub scripts_allow : Bool
  pub is_ascii : Bool

pub data SiteReply : Type 0 where
  okay refused denied syntax_error failed : SiteReply

-- The command and its arguments, in the number that the table asks for.
pub data SiteCommand : Type 0 where
  chpass : Str → Str → SiteCommand
  deluser : Str → SiteCommand
  readd : Str → SiteCommand
  renuser : Str → Str → SiteCommand

-- The keywords of the table.
abbrev pub acl_keyword : SiteCommand → Str
acl_keyword (chpass name password) = codes "chpass|chpassgadmin"
acl_keyword (deluser name) = codes "deluser|delusergadmin"
acl_keyword (readd name) = codes "readd|readdgadmin"
acl_keyword (renuser old name) = codes "renuser"

abbrev pub allows : Around → Str → Bool
allows w keyword = allow_site_cmd w.server keyword

-- `client.User().HasGadminGID(acl::NameToPrimaryGID(name))`
unfoldable pub administers : Around → Str → Bool
administers w name =
    has_gadmin_gid w.server.client_user (uid_to_primary_gid w.cache (name_to_uid w.cache name))

-- What a setter makes of the database; a write that is lost leaves it.
abbrev pub written : Accounts → ℤ → Outcome UserData → SiteReply × Accounts
written accounts uid (returned u) = (okay, store accounts uid u)
written accounts uid (unsaved u) = (okay, accounts)
written accounts uid aborted = (failed, accounts)

abbrev pub saves : Around → ℤ → Bool
saves w uid = (w.server.saves uid).0

unfoldable pub change_password : Around → Str → Str → Accounts → SiteReply × Accounts
unfolding administers
change_password w name password accounts =
    if not (allows w (codes "chpass"))
      && allows w (codes "chpassgadmin")
      && not (administers w name)
    then (denied, accounts)
    else if not (w.is_secure password)
    then (refused, accounts)
    else let uid = w.load_name name in
      elim (accounts uid) [
        | none ↦ (refused, accounts)
        | some u ↦
            written accounts uid (set_password w.hash_password (saves w uid) u w.raw_salt password)
      ]

unfoldable pub delete_user : Around → Str → Accounts → SiteReply × Accounts
unfolding administers has_flag
delete_user w name accounts =
    if not (allows w (codes "deluser"))
      && allows w (codes "delusergadmin")
      && not (administers w name)
    then (denied, accounts)
    else let uid = w.load_name name in
      elim (accounts uid) [
        | none ↦ (refused, accounts)
        | some u ↦
            if has_flag u siteop_flag && not w.server.is_master
            then (refused, accounts)
            else if str_eq u.name (codes "default") || eq_ℤ u.id (pos 0) || eq_ℤ u.id (pos 1)
            then (refused, accounts)
            else if has_flag u deleted_flag
            then (refused, accounts)
            else written accounts uid (add_flags (saves w uid) u (deleted_flag ∷ []))
      ]

-- The test of the slots, for a group administrator.
unfoldable pub has_slot : Around → ℤ → Bool
has_slot w gid = elim (w.load_slots gid) [
  | none ↦ false
  | some (used, slots) ↦ not (leb_ℤ slots used)
]

unfoldable pub readd_user : Around → Str → Accounts → SiteReply × Accounts
unfolding administers has_slot has_flag
readd_user w name accounts =
    let gadmin = not (allows w (codes "readd")) && allows w (codes "readdgadmin") in
    if gadmin && not (administers w name)
    then (denied, accounts)
    else let uid = w.load_name name in
      elim (accounts uid) [
        | none ↦ (refused, accounts)
        | some u ↦
            if not (has_flag u deleted_flag)
            then (refused, accounts)
            else if gadmin && not (has_slot w u.primary_gid)
            then (refused, accounts)
            else written accounts uid (del_flags (saves w uid) u (deleted_flag ∷ []))
      ]

unfoldable pub rename_user : Around → Str → Str → Accounts → SiteReply × Accounts
unfolding has_flag rename
rename_user w old name accounts =
    if not (w.valid_username name)
    then (refused, accounts)
    else let uid = w.load_name old in
      elim (accounts uid) [
        | none ↦ (refused, accounts)
        | some u ↦
            if has_flag u siteop_flag && not w.server.is_master
            then (refused, accounts)
            else if str_eq u.name (codes "default")
            then (refused, accounts)
            else let r = rename (saves w uid) u name in
              if r.0 then (okay, store accounts uid r.1) else (refused, accounts)
      ]

unfoldable pub execute_command_of : Around → SiteCommand → Accounts → SiteReply × Accounts
execute_command_of w (chpass name password) accounts = change_password w name password accounts
execute_command_of w (deluser name) accounts = delete_user w name accounts
execute_command_of w (readd name) accounts = readd_user w name accounts
execute_command_of w (renuser old name) accounts = rename_user w old name accounts

-- SITE.
unfoldable pub execute_site : Around → SiteCommand → Accounts → SiteReply × Accounts
unfolding execute_command_of
execute_site w c accounts =
    if not (allows w (acl_keyword c))
    then (denied, accounts)
    else if not w.scripts_allow
    then (refused, accounts)
    else if not w.is_ascii
    then (syntax_error, accounts)
    else execute_command_of w c accounts
