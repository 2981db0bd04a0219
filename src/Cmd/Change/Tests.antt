-- ===== src/Cmd/Change/Tests.antt =====
-- SITE CHANGE at concrete inputs.
use ebftpd.Prelude.{
  negsuc, if◌then◌else◌, ◌≡◌, ◌≢◌, refl, arith, ℕ, true, false, none, some, [], ◌∷◌, codes, pos,
  length, has_char, eq_ℤ, str_eq, ◌+ℤ◌,
}
use ebftpd.Acl.Rules.{
  Acl, flag_permission, evaluate, first_result, permission_evaluate, valid_flags,
}
use ebftpd.Acl.User.Data.{UserData, new_user_data, commit}
use ebftpd.Acl.User.Flags.{template_flag, has_flag, set_flags}
use ebftpd.Acl.User.Flags.Laws.{Ascends}
use ebftpd.Cmd.Change.Values.{wrapped, scale, Accounts, Server, Request, allow_site_cmd}
use ebftpd.Cmd.Change.Checks.{
  checked, undefined, flags_by, add_them, set_them, check, check_flags, check_section_ratio,
}
use ebftpd.Cmd.Change.Apply.{execute, change_flags, assertion}
use ebftpd.Cmd.Change.Bounds.{Sane}
use ebftpd.Cmd.Change.Table.{check-Sane}
use ebftpd.Cmd.Change.Flags.{Protected, change_flags_lem}
use ebftpd.Cmd.Change.Assertions.{execute-ne-assertion}

abbrev everyone : Acl
everyone = record { perms = flag_permission (codes "*") false ∷ []; final_result = none }

abbrev ann : UserData
ann = record (new_user_data 0) {
  id = pos 4;
  name = codes "ann";
  flags = codes "26";
  primary_gid = pos 5;
}

abbrev accounts : Accounts
accounts uid = if eq_ℤ uid (pos 4) then some ann else none

abbrev server : Server
server = record {
  split = λ s. s ∷ [];
  to_upper = λ s. s;
  to_lower = λ s. s;
  is_alpha = λ c. false;
  stoi = λ s. some (pos 7, length s);
  stoll = λ s. some (pos 7, length s);
  replace_slashes = λ s. s;
  from_simple_string = λ s. none;
  path_from_user = λ s. s;
  valid_tagline = λ s. true;
  command_acl = λ s. some everyone;
  is_section = λ s. true;
  maximum_ratio = pos 9;
  client_user = ann;
  client_info = record { username = []; groupname = []; flags = [] };
  is_master = true;
  default_ratio = none;
  load_group = λ a gid. none;
  get_uids = λ mask. pos 4 ∷ [];
  saves = λ uid. (true, true);
}

-- SITE CHANGE ann flags =3
abbrev set_three : Request
set_three = record {
  arg_str = codes "ann flags =3";
  user_mask = codes "ann";
  setting = codes "flags";
  value = codes "=3";
  more = [];
}

set_three_checked : check server set_three ≡ checked false (flags_by set_them (codes "3"))
unfolding check str_eq allow_site_cmd evaluate first_result permission_evaluate has_char eq_ℤ ◌+ℤ◌
    check_flags valid_flags
set_three_checked = refl

check-Sane_example : Sane server set_three.value (flags_by set_them (codes "3"))
check-Sane_example =
    check-Sane server set_three false (flags_by set_them (codes "3")) set_three_checked

-- The deleted flag of ann is gone.
abbrev ann_after : UserData
ann_after = record ann { flags = codes "3" }

execute-ne-assertion_example : (execute server set_three accounts).0 ≢ assertion
execute-ne-assertion_example = execute-ne-assertion server set_three accounts

ann-Ascends : Ascends ann.flags
ann-Ascends = omega arith

change_flags_lem_example :
    (set_them ≢ set_them → (c : ℕ) → Protected c → has_flag ann_after c ≡ has_flag ann c)
    × (set_them ≡ set_them → (c : ℕ) → Protected c → has_flag ann_after c ≡ false)
    × (set_them ≢ add_them → ann.id ≡ pos 1 → has_flag ann_after template_flag ≡ true)
change_flags_lem_example =
    change_flags_lem (true, true) set_them (codes "3") ann ann_after (unfold has_char in refl)
      (unfold has_char in refl) ann-Ascends
      (unfold change_flags set_flags valid_flags has_char commit eq_ℤ in refl)

-- SITE CHANGE ann sratio MP3, without a ratio, reads past the end of the arguments.
abbrev no_ratio : Request
no_ratio = record {
  arg_str = codes "ann sratio MP3";
  user_mask = codes "ann";
  setting = codes "sratio";
  value = codes "MP3";
  more = [];
}

no_ratio_checked : check server no_ratio ≡ undefined
unfolding check str_eq allow_site_cmd evaluate first_result permission_evaluate has_char eq_ℤ ◌+ℤ◌
    check_section_ratio
no_ratio_checked = refl

-- The size 18014398509481983M is negative.
overflowed : scale (codes "M") (pos 18014398509481983) ≡ some (negsuc 1023)
unfolding scale wrapped str_eq
overflowed = refl
