-- ===== src/Cmd/Site/Tests.antt =====
-- SITE DELUSER and GIVE at concrete inputs.
use ebftpd.Prelude.{
  ℕ, ◌≡◌, ◌≢◌, ◌⊎◌, refl, ap, arith, true, false, Option, none, some, [], ◌∷◌, Str, codes, ℤ, pos,
  eq_ℤ, str_eq, ◌||◌, List, ℕ, length, if◌then◌else◌, has_char, ◌+ℤ◌, ◌-ℤ◌,
}
use ebftpd.Acl.Rules.{
  Acl, flag_permission, evaluate, first_result, permission_evaluate, valid_flags,
}
use ebftpd.Acl.User.Data.{UserData, new_user_data, commit, section_ratio, find_entry}
use ebftpd.Acl.User.Flags.{has_flag, add_flags, has_gadmin_gid, added_flags}
use ebftpd.Acl.User.GidList.{contains}
use ebftpd.Cmd.Change.Values.{Accounts, Server, allow_site_cmd, allows_some, parse_size}
use ebftpd.Cmd.Change.Apply.{store}
use ebftpd.Cmd.Nuking.{Credits, set_entry, incr_credits, entry_credits}
use ebftpd.Db.UserCache.{UserRow, populate_users, name_to_uid, uid_to_primary_gid}
use ebftpd.Db.Names.{learn}
use ebftpd.Util.Map.{Map, find, assign, erase}
use ebftpd.Cmd.Site.{
  List, Around, deluser, execute_site, delete_user, administers, execute_command_of,
}
use ebftpd.Cmd.Site.Keywords.{SplitsKeywords, IsCached}
use ebftpd.Cmd.Site.Authority.{Authorised, execute_site-Authorised}
use ebftpd.Cmd.Site.Credits.{give, parse_section, give_in, pay, decr_credits_checked, has_leech}
use ebftpd.Cmd.Site.Credits.Conserved.{Gave, give-Gave}

abbrev everybody : Acl
everybody = record { perms = flag_permission (codes "*") false ∷ []; final_result = none }

abbrev bob_account : UserData
bob_account = record (new_user_data 0) {
  id = pos 4;
  name = codes "bob";
  flags = codes "3";
  primary_gid = pos 5;
}

abbrev carol : UserData
carol = record (new_user_data 0) {
  id = pos 7;
  name = codes "carol";
  flags = codes "3";
  primary_gid = pos 5;
  gadmin_gids = pos 5 ∷ [];
}

abbrev known : Accounts
known uid = if eq_ℤ uid (pos 4) then some bob_account else none

-- boost splits the keywords of the table at their bars.
abbrev split_bars : Str → List Str
split_bars s =
    if str_eq s (codes "chpass|chpassgadmin")
    then codes "chpass" ∷ codes "chpassgadmin" ∷ []
    else if str_eq s (codes "deluser|delusergadmin")
    then codes "deluser" ∷ codes "delusergadmin" ∷ []
    else if str_eq s (codes "readd|readdgadmin")
    then codes "readd" ∷ codes "readdgadmin" ∷ []
    else s ∷ []

-- Carol may run DELUSER as a group administrator, and give her own credits.
abbrev settings_of : Server
settings_of = record {
  split = split_bars;
  to_upper = λ s. s;
  to_lower = λ s. s;
  is_alpha = λ c. false;
  stoi = λ s. some (pos 7, length s);
  stoll = λ s. some (pos 7, length s);
  replace_slashes = λ s. s;
  from_simple_string = λ s. none;
  path_from_user = λ s. s;
  valid_tagline = λ s. true;
  command_acl =
      λ s. if str_eq s (codes "deluser") || str_eq s (codes "give") then none else some everybody;
  is_section = λ s. true;
  maximum_ratio = pos 9;
  client_user = carol;
  client_info = record { username = []; groupname = []; flags = [] };
  is_master = false;
  default_ratio = none;
  load_group = λ a gid. none;
  get_uids = λ mask. pos 4 ∷ [];
  saves = λ uid. (true, true);
}

abbrev rows : Map ℤ UserRow
rows = (pos 4, record { name = codes "bob"; primary_gid = pos 5; ip_masks = [] }) ∷ []

abbrev around : Around
around = record {
  server = settings_of;
  cache = populate_users rows;
  load_name = λ name. pos 4;
  is_secure = λ s. true;
  hash_password = λ s t. s;
  raw_salt = [];
  valid_username = λ s. true;
  load_slots = λ gid. none;
  scripts_allow = true;
  is_ascii = true;
}

around-Splits : SplitsKeywords around
unfolding str_eq
around-Splits = record {
  passwords = record { together = refl; first = refl; second = refl };
  deletions = record { together = refl; first = refl; second = refl };
  readmissions = record { together = refl; first = refl; second = refl };
}

bob-IsCached : IsCached around known (codes "bob")
unfolding populate_users find assign erase uid_to_primary_gid name_to_uid str_eq eq_ℤ learn
bob-IsCached u e = ap (λ o. elim o [ none ↦ pos 5 | some v ↦ v.primary_gid ]) e

abbrev length_of_flags : Option UserData → ℕ
length_of_flags none = 0
length_of_flags (some u) = length u.flags

bob_deleted : length_of_flags ((execute_site around (deluser (codes "bob")) known).1 (pos 4)) ≡ 2
unfolding execute_site execute_command_of delete_user administers populate_users find assign erase
    uid_to_primary_gid name_to_uid str_eq eq_ℤ learn allow_site_cmd allows_some evaluate
    first_result permission_evaluate has_flag has_char has_gadmin_gid contains valid_flags
    added_flags add_flags store commit
bob_deleted = refl

bob_changed : (execute_site around (deluser (codes "bob")) known).1 (pos 4) ≢ known (pos 4)
unfolding eq_ℤ
bob_changed e = ground (arith, bob_deleted, ap length_of_flags e)

execute_site-Authorised_example : Authorised around (deluser (codes "bob")) known (pos 4)
execute_site-Authorised_example =
    execute_site-Authorised around (deluser (codes "bob")) known (pos 4) around-Splits bob-IsCached
      bob_changed

abbrev ten : Credits
ten uid section = some (pos 10)

abbrev seven : List Str
seven = codes "bob" ∷ codes "7" ∷ []

own_only : allow_site_cmd settings_of (codes "giveown") ≡ true
unfolding str_eq allow_site_cmd allows_some evaluate first_result permission_evaluate has_char
own_only = refl

not_all : allow_site_cmd settings_of (codes "give") ≡ false
unfolding str_eq allow_site_cmd allows_some evaluate first_result permission_evaluate has_char
not_all = refl

give-Gave_example :
    let r = give around (λ s. none) known seven ten in (r.1 ≡ ten) ⊎ Gave around known ten r.1
give-Gave_example = give-Gave around (λ s. none) known seven ten own_only not_all

-- Carol has three left, and Bob seventeen.
carol_left :
    (entry_credits (give around (λ s. none) known seven ten).1 (pos 7) [] ≡ pos 3)
    × (entry_credits (give around (λ s. none) known seven ten).1 (pos 4) [] ≡ pos 17)
unfolding give parse_section give_in pay decr_credits_checked has_leech str_eq allow_site_cmd
    allows_some evaluate first_result permission_evaluate has_char parse_size set_entry incr_credits
    entry_credits eq_ℤ ◌+ℤ◌ ◌-ℤ◌ section_ratio find_entry
carol_left = (refl, refl)
