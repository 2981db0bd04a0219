-- ===== src/Cmd/Change/Checks.antt =====
-- The checks of src/cmd/site/change.cpp: from the arguments to the change that is to be made. The
-- text that the reply displays is left out.
use ebftpd.Acl.User.Flags.{deleted_flag, gadmin_flag}
use ebftpd.Prelude.{
  ℕ, ◌+◌, Bool, true, false, not, Option, none, some, List, [], ◌∷◌, Str, codes, str_eq, drop,
  length, has_char, ℤ, pos, minus_one, ◌+ℤ◌, ltb_ℤ, eq_ℤ, ltb, ◌==◌, ◌&&◌, if◌then◌else◌,
}
use ebftpd.Acl.Rules.{valid_flags}
use ebftpd.Cmd.Change.Values.{Server, Request, str_to_number, parse_size, allow_site_cmd}

pub data FlagAction : Type 0 where
  add_them delete_them set_them : FlagAction

-- The functions that the checks return, with what they hold.
pub data Change : Type 0 where
  ratio_to : ℤ → Change
  section_ratio_to : Str → ℤ → Change
  weekly_allotment_to : Str → ℤ → Change
  home_dir_to : Str → Change
  start_up_dir_to : Str → Change
  flags_by : FlagAction → Str → Change
  idle_time_to : ℤ → Change
  expires_to : Option ℕ → Change
  num_logins_to : ℤ → Change
  tagline_to : Str → Change
  comment_to : Str → Change
  max_up_speed_to : ℤ → Change
  max_down_speed_to : ℤ → Change
  max_sim_up_to : ℤ → Change
  max_sim_down_to : ℤ → Change

-- How a check ends: with a change, which comes with the member `gadmin`; with one of the exceptions
-- of commands; with std::out_of_range; or with an access past the end of the arguments.
pub data Checked : Type 0 where
  checked : Bool → Change → Checked
  syntax_error refused permission_error out_of_range undefined : Checked

unfoldable pub as_gadmin : Server → Bool
as_gadmin w = not (allow_site_cmd w (codes "change")) && allow_site_cmd w (codes "changegadmin")

unfoldable pub check_ratio : Server → Request → Checked
unfolding as_gadmin
check_ratio w r = elim (str_to_number w.stoi r.value) [
  | none ↦ syntax_error
  | some ratio ↦
      if ltb_ℤ ratio minus_one
      then syntax_error
      else if ltb_ℤ w.maximum_ratio ratio
      then refused
      else if eq_ℤ ratio minus_one
      then elim w.default_ratio [ none ↦ refused | some d ↦ checked (as_gadmin w) (ratio_to d) ]
      else if as_gadmin w && ltb_ℤ (pos 0) ratio
      then refused
      else checked (as_gadmin w) (ratio_to ratio)
]

-- The test of the number of arguments lets a request without a ratio pass.
unfoldable pub check_section_ratio : Server → Request → Checked
check_section_ratio w r =
    let section = w.to_upper r.value in
    if not (w.is_section section) then refused else elim r.more [
      | [] ↦ undefined
      | value ∷ _ ↦ elim (str_to_number w.stoi value) [
        | none ↦ syntax_error
        | some ratio ↦
            if ltb_ℤ ratio (pos 0)
            then syntax_error
            else if ltb_ℤ w.maximum_ratio ratio
            then refused
            else checked false (section_ratio_to section ratio)
      ]
    ]

-- The fifth argument, where `args.size() == 5`.
abbrev pub the_only : List Str → Option Str
the_only [] = none
the_only (a ∷ []) = some a
the_only (a ∷ b ∷ rest) = none

abbrev pub check_allotment : Server → Str → Str → Checked
check_allotment w section value = elim (parse_size w value) [
  | none ↦ syntax_error
  | some allotment ↦ checked (as_gadmin w) (weekly_allotment_to section allotment)
]

unfoldable pub check_weekly_allotment : Server → Request → Checked
check_weekly_allotment w r = elim (the_only r.more) [
  | none ↦ check_allotment w [] r.value
  | some a ↦
      let section = w.to_upper a in
      if not (w.is_section section) then refused else check_allotment w section r.value
]

-- `argStr.substr(args[1].length() + args[2].length() + 2)`
unfoldable pub rest_of_line : Request → Option Str
rest_of_line r =
    let n = length r.user_mask + length r.setting + 2 in
    if ltb (length r.arg_str) n then none else some (drop n r.arg_str)

abbrev pub with_rest : (Str → Checked) → Request → Checked
with_rest check r = elim (rest_of_line r) [ none ↦ out_of_range | some s ↦ check s ]

unfoldable pub check_home_dir : Server → Request → Checked
check_home_dir w r = with_rest (λ s. checked false (home_dir_to (w.path_from_user s))) r

unfoldable pub check_start_up_dir : Server → Request → Checked
check_start_up_dir w r = with_rest (λ s. checked false (start_up_dir_to (w.path_from_user s))) r

abbrev pub flags_action : ℕ → Str → Checked
flags_action action flags =
    if action == b'+'
    then checked false (flags_by add_them flags)
    else if action == b'-'
    then checked false (flags_by delete_them flags)
    else if action == b'='
    then checked false (flags_by set_them flags)
    else syntax_error

abbrev pub is_nil : Str → Bool
is_nil [] = true
is_nil (c ∷ s) = false

unfoldable pub check_flags : Server → Request → Checked
check_flags w r = elim r.value [
  | [] ↦ out_of_range
  | action ∷ text ↦
      let flags = w.to_upper text in
      if is_nil flags
      then syntax_error
      else if not (valid_flags flags)
      then refused
      else if has_char deleted_flag flags
      then refused
      else if has_char gadmin_flag flags
      then refused
      else flags_action action flags
]

-- The checks of a number that may be -1.
abbrev pub check_count : (ℤ → Change) → Server → Request → Checked
check_count change w r = elim (str_to_number w.stoi r.value) [
  | none ↦ syntax_error
  | some n ↦ if ltb_ℤ n minus_one then syntax_error else checked false (change n)
]

unfoldable pub check_expires : Server → Request → Checked
check_expires w r =
    let value = w.to_lower r.value in
    if str_eq value (codes "never")
    then checked false (expires_to none)
    else elim (w.from_simple_string (w.replace_slashes value)) [
      | none ↦ refused
      | some date ↦ checked false (expires_to (some date))
    ]

unfoldable pub check_tagline : Server → Request → Checked
check_tagline w r =
    with_rest (λ s. if not (w.valid_tagline s) then refused else checked false (tagline_to s)) r

unfoldable pub check_comment : Server → Request → Checked
check_comment w r = with_rest (λ s. checked false (comment_to s)) r

abbrev pub check_speed : (ℤ → Change) → Server → Request → Checked
check_speed change w r = elim (parse_size w r.value) [
  | none ↦ syntax_error
  | some speed ↦ checked false (change speed)
]

-- A row of `settings`.
pub record SettingDef : Type 0 where
  pub name : Str
  pub maximum_args : ℤ
  pub acl_keyword : Str
  pub check : Server → Request → Checked

abbrev pub row : Str → ℤ → Str → (Server → Request → Checked) → SettingDef
row name maximum keyword check = record {
  name = name;
  maximum_args = maximum;
  acl_keyword = keyword;
  check = check;
}

abbrev pub settings : List SettingDef
settings =
    row (codes "ratio") (pos 1) (codes "change|changegadmin") check_ratio
    ∷ row (codes "sratio") (pos 2) (codes "change") check_section_ratio
    ∷ row (codes "wkly_allotment") (pos 2) (codes "change|changegadmin") check_weekly_allotment
    ∷ row (codes "homedir") (pos 1) (codes "changehomedir") check_home_dir
    ∷ row (codes "startupdir") (pos 1) (codes "changestartupdir") check_start_up_dir
    ∷ row (codes "flags") (pos 1) (codes "changeflags") check_flags
    ∷ row (codes "idle_time") (pos 1) (codes "change") (check_count idle_time_to)
    ∷ row (codes "expires") (pos 1) (codes "change") check_expires
    ∷ row (codes "num_logins") (pos 1) (codes "change") (check_count num_logins_to)
    ∷ row (codes "tagline") minus_one (codes "change") check_tagline
    ∷ row (codes "comment") minus_one (codes "change") check_comment
    ∷ row (codes "max_up_speed") (pos 1) (codes "change") (check_speed max_up_speed_to)
    ∷ row (codes "max_down_speed") (pos 1) (codes "change") (check_speed max_down_speed_to)
    ∷ row (codes "max_sim_up") (pos 1) (codes "change") (check_count max_sim_up_to)
    ∷ row (codes "max_sim_down") (pos 1) (codes "change") (check_count max_sim_down_to)
    ∷ []

unfoldable pub find_setting : Str → List SettingDef → Option SettingDef
find_setting name [] = none
find_setting name (def ∷ defs) = if str_eq def.name name then some def else find_setting name defs

unfoldable pub check : Server → Request → Checked
unfolding find_setting
check w r = elim (find_setting (w.to_lower r.setting) settings) [
  | none ↦ syntax_error
  | some def ↦
      if not (allow_site_cmd w def.acl_keyword)
      then permission_error
      else if not (eq_ℤ def.maximum_args minus_one)
          && ltb_ℤ (def.maximum_args +ℤ pos 3) (pos (4 + length r.more))
      then syntax_error
      else def.check w (record r { setting = w.to_lower r.setting })
]
