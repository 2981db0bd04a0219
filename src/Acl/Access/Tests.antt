-- ===== src/Acl/Access/Tests.antt =====
-- Path permissions at concrete inputs.
use ebftpd.Prelude.{
  ◌≡◌, ◌↔◌, refl, true, false, none, [], ◌∷◌, Str, codes, str_eq, starts_with, pos, eq_ℤ,
  if◌then◌else◌, has_char,
}
use ebftpd.Util.Wildcard.{wildcard_match}
use ebftpd.Util.FilePath.{basename, back}
use ebftpd.Acl.Rules.{flag_permission, user_permission, evaluate, first_result, permission_evaluate}
use ebftpd.Acl.User.Data.{UserData, new_user_data}
use ebftpd.Acl.Config.{Right, Config}
use ebftpd.Acl.Access.{
  Site, Access, success, any_matches, evaluate_loop, allowed, file_allowed, inner_allowed,
  inside_home_dir, private_path, private_loop, trait_allowed, owned_allowed, download_allowed,
  plain_allowed, evaluate_rights, check_noretrieve,
}
use ebftpd.Acl.Access.Laws.{judged, download_allowed_lem}
use ebftpd.Acl.Access.Admission.Attempts.{Admitted, allowed-Admitted}
use ebftpd.Acl.Access.Rights.{Governs, evaluate_loop_iff}

-- A pattern matches itself, and "*" everything.
abbrev site : Site
site = record {
  fnmatch =
      λ pattern s fold. if str_eq pattern (codes "*") then 0 else if str_eq pattern s then 0 else 1;
  replace_all = λ s pattern replacement. s;
  regex_match = λ s pattern. true;
  gid_to_name = λ gid. codes "team";
  owner_uid = λ path. pos 3;
  is_directory = λ path. false;
}

abbrev eve : UserData
eve = record (new_user_data 0) { id = pos 9; name = codes "eve" }

abbrev bob : UserData
bob = record (new_user_data 0) { id = pos 8; name = codes "bob" }

-- Everybody but Eve, everywhere.
abbrev not_eve : Right
not_eve = record {
  path = codes "*";
  acl = record {
    perms = user_permission (codes "eve") true ∷ flag_permission (codes "*") false ∷ [];
    final_result = none;
  };
  special_var = false;
}

abbrev config : Config
config = record {
  rights = λ kind. not_eve ∷ [];
  hidden_files = [];
  noretrieve = codes "secret" ∷ [];
  privpath = [];
  path_filter = [];
}

abbrev file : Str
file = codes "/a/b"

bob_downloads : (allowed site Access.download config bob file).0 ≡ success
unfolding allowed file_allowed inner_allowed inside_home_dir private_path private_loop trait_allowed
    owned_allowed download_allowed plain_allowed evaluate_rights evaluate_loop evaluate first_result
    permission_evaluate wildcard_match str_eq eq_ℤ check_noretrieve any_matches basename starts_with
    back has_char
bob_downloads = refl

allowed-Admitted_example : Admitted site bob (judged site file) Access.download config
allowed-Admitted_example = allowed-Admitted site Access.download config bob file bob_downloads

download_allowed_lem_example : any_matches site config.noretrieve (basename file) ≡ false
download_allowed_lem_example =
    download_allowed_lem site config bob file (unfold allowed in bob_downloads)

evaluate_loop_iff_example :
    ((evaluate_loop site true [] (not_eve ∷ []) eve file).0 ≡ false)
    ↔ Governs site eve file (not_eve ∷ []) false
evaluate_loop_iff_example = evaluate_loop_iff site eve file (not_eve ∷ []) false
