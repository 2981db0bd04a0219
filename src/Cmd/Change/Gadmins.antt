-- ===== src/Cmd/Change/Gadmins.antt =====
-- Whose accounts Execute of src/cmd/site/change.cpp changes.
use ebftpd.Prelude.{◌≡◌, Bool, true, some, Str, ℤ}
use ebftpd.Acl.User.Data.{UserData}
use ebftpd.Acl.User.Flags.{siteop_flag, has_flag, has_gadmin_gid}
use ebftpd.Acl.User.GidList.{contains}
use ebftpd.Cmd.Change.Values.{Accounts, Server, Request}
use ebftpd.Cmd.Change.Checks.{FlagAction, Change, flags_by, checked, check}
use ebftpd.Cmd.Change.Apply.{primary_gid_of}

-- What stands behind a change of the account of a user.
pub record Authorised (w : Server) (r : Request) (accounts : Accounts) (uid : ℤ) : Type 0 where
  pub gadmin : Bool
  pub change : Change
  pub was_checked : check w r ≡ checked gadmin change
  pub is_named : contains uid (w.get_uids r.user_mask) ≡ true
  pub is_administered :
      gadmin ≡ true → has_gadmin_gid w.client_user (primary_gid_of accounts uid) ≡ true
  pub by_master :
      (action : FlagAction) (flags : Str) (u : UserData)
      → change ≡ flags_by action flags
      → accounts uid ≡ some u
      → has_flag u siteop_flag ≡ true
      → w.is_master ≡ true
