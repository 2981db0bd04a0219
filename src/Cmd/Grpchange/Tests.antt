-- ===== src/Cmd/Grpchange/Tests.antt =====
-- SITE GRPCHANGE at concrete inputs.
use ebftpd.Prelude.{
  subst, ◌≡◌, refl, true, false, none, some, [], ◌∷◌, codes, str_eq, pos, length, eq_ℤ, has_char,
  if◌then◌else◌, arith,
}
use ebftpd.Acl.Rules.{Acl, flag_permission, evaluate, first_result, permission_evaluate}
use ebftpd.Acl.User.Data.{new_user_data}
use ebftpd.Acl.Group.{new_group_data}
use ebftpd.Cmd.Change.Values.{Server, Request, allow_site_cmd}
use ebftpd.Cmd.Change.Checks.{rest_of_line}
use ebftpd.Cmd.Grpchange.{Groups, execute_group, check_group, check_group_comment, comment_to}
use ebftpd.Cmd.Grpchange.Bounds.{AllBounded, Bounded, SameComments}
use ebftpd.Cmd.Grpchange.Laws.{execute_group-AllBounded}

abbrev everyone : Acl
everyone = record { perms = flag_permission (codes "*") false ∷ []; final_result = none }

abbrev server : Server
server = record {
  split = λ s. s ∷ [];
  to_upper = λ s. s;
  to_lower = λ s. s;
  is_alpha = λ c. false;
  stoi = λ s. some (pos 7, length s);
  stoll = λ s. some (pos 7, length s);
  replace_slashes = λ s. s;
  from_simple_string = λ s. none;
  path_from_user = λ s. s;
  valid_tagline = λ s. true;
  command_acl = λ s. some everyone;
  is_section = λ s. true;
  maximum_ratio = pos 9;
  client_user = new_user_data 0;
  client_info = record { username = []; groupname = []; flags = [] };
  is_master = true;
  default_ratio = none;
  load_group = λ a gid. none;
  get_uids = λ mask. [];
  saves = λ uid. (true, true);
}

-- SITE GRPCHANGE dev comment hello
abbrev hello : Request
hello = record {
  arg_str = codes "dev comment hello";
  user_mask = codes "dev";
  setting = codes "comment";
  value = codes "hello";
  more = [];
}

abbrev groups : Groups
groups gid = if eq_ℤ gid (pos 5) then some new_group_data else none

hello_checked : check_group server hello ≡ some (comment_to (codes "hello"))
unfolding check_group str_eq allow_site_cmd evaluate first_result permission_evaluate has_char eq_ℤ
    check_group_comment rest_of_line
hello_checked = refl

new_group_data-Bounded : Bounded new_group_data
new_group_data-Bounded = record {
  slots_low = omega arith;
  leech_low = omega arith;
  allotment_low = omega arith;
  size_low = omega arith;
  logins_low = omega arith;
}

groups-AllBounded : AllBounded groups
groups-AllBounded gid g e =
    let same : new_group_data ≡ g = ground arith in subst Bounded same new_group_data-Bounded

execute_group-AllBounded_example :
    AllBounded (execute_group server (λ gid. true) (pos 5 ∷ []) hello groups)
    × SameComments groups (execute_group server (λ gid. true) (pos 5 ∷ []) hello groups)
execute_group-AllBounded_example =
    execute_group-AllBounded server (λ gid. true) (pos 5 ∷ []) hello groups groups-AllBounded
