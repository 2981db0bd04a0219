-- ===== src/Cmd/Change/Apply.antt =====
-- The functions that the checks of src/cmd/site/change.cpp return, and Execute, which calls one for
-- every account that the mask names.
use ebftpd.Prelude.{
  minus_one, ℕ, ◌+◌, Bool, true, false, not, Option, none, some, List, [], ◌∷◌, Str, ℤ, pos, ◌+ℤ◌,
  ◌-ℤ◌, leb_ℤ, ltb_ℤ, eq_ℤ, ◌&&◌, if◌then◌else◌,
}
use ebftpd.Acl.User.Data.{
  UserData, Outcome, returned, unsaved, aborted, set_home_dir, set_start_up_dir, set_idle_time,
  set_expires, set_num_logins, set_tagline, set_comment, set_max_up_speed, set_max_down_speed,
  set_max_sim_up, set_max_sim_down, set_section_ratio, set_section_weekly_allotment,
  section_weekly_allotment,
}
use ebftpd.Acl.User.Flags.{
  siteop_flag, template_flag, has_flag, add_flags, del_flags, set_flags, has_gadmin_gid,
}
use ebftpd.Cmd.Change.Values.{Accounts, Server, Request}
use ebftpd.Cmd.Change.Checks.{
  FlagAction, add_them, delete_them, set_them, Change, ratio_to, section_ratio_to,
  weekly_allotment_to, home_dir_to, start_up_dir_to, flags_by, idle_time_to, expires_to,
  num_logins_to, tagline_to, comment_to, max_up_speed_to, max_down_speed_to, max_sim_up_to,
  max_sim_down_to, Checked, checked, syntax_error, refused, permission_error, out_of_range,
  undefined, check,
}

-- `none` where the function returns false.
abbrev pub Applied : Type 0
Applied = Option (Outcome UserData)

unfoldable pub has_leech_slot : Server → Accounts → UserData → Bool
has_leech_slot w accounts u = elim (w.load_group accounts u.primary_gid) [
  | none ↦ false
  | some g ↦ not (leb_ℤ g.leech_slots g.num_leeches)
]

unfoldable pub apply_ratio : Server → Bool → ℤ → Accounts → UserData → Applied
unfolding has_leech_slot
apply_ratio w gadmin ratio accounts u =
    if gadmin && eq_ℤ ratio (pos 0) && not (has_leech_slot w accounts u)
    then none
    else some (set_section_ratio (w.saves u.id).0 u [] ratio)

unfoldable pub has_allotment_slot : Server → ℤ → Accounts → UserData → Bool
has_allotment_slot w allotment accounts u = elim (w.load_group accounts u.primary_gid) [
  | none ↦ false
  | some g ↦
      let own = section_weekly_allotment u [] in
      not (eq_ℤ own (pos 0) && leb_ℤ g.allotment_slots g.num_allotments)
      && not (ltb_ℤ g.max_allotment_size (g.total_allotment_size -ℤ own +ℤ allotment))
]

unfoldable pub apply_weekly_allotment : Server → Bool → Str → ℤ → Accounts → UserData → Applied
unfolding has_allotment_slot
apply_weekly_allotment w gadmin section allotment accounts u =
    if gadmin && ltb_ℤ (pos 0) allotment && not (has_allotment_slot w allotment accounts u)
    then none
    else some (set_section_weekly_allotment (w.saves u.id).0 u section allotment)

-- The template flag is put back on the user whose identity is 1.
unfoldable pub keep_template : Bool → Outcome UserData → Outcome UserData
keep_template saved (returned u) =
    if eq_ℤ u.id (pos 1) then add_flags saved u (template_flag ∷ []) else returned u
keep_template saved (unsaved u) =
    if eq_ℤ u.id (pos 1) then add_flags saved u (template_flag ∷ []) else unsaved u
keep_template saved aborted = aborted

unfoldable pub change_flags : Bool × Bool → FlagAction → Str → UserData → Outcome UserData
unfolding keep_template
change_flags saves add_them flags u = add_flags saves.0 u flags
change_flags saves delete_them flags u = keep_template saves.1 (del_flags saves.0 u flags)
change_flags saves set_them flags u = keep_template saves.1 (set_flags saves.0 u flags)

unfoldable pub apply_flags : Server → FlagAction → Str → UserData → Applied
unfolding change_flags has_flag
apply_flags w action flags u =
    if has_flag u siteop_flag && not w.is_master
    then none
    else some (change_flags (w.saves u.id) action flags u)

unfoldable pub apply_change : Server → Bool → Change → Accounts → UserData → Applied
unfolding apply_ratio apply_weekly_allotment apply_flags
apply_change w gadmin (ratio_to ratio) accounts u = apply_ratio w gadmin ratio accounts u
apply_change w gadmin (section_ratio_to section ratio) accounts u =
    some (set_section_ratio (w.saves u.id).0 u section ratio)
apply_change w gadmin (weekly_allotment_to section allotment) accounts u =
    apply_weekly_allotment w gadmin section allotment accounts u
apply_change w gadmin (home_dir_to path) accounts u = some (set_home_dir (w.saves u.id).0 u path)
apply_change w gadmin (start_up_dir_to path) accounts u =
    some (set_start_up_dir (w.saves u.id).0 u path)
apply_change w gadmin (flags_by action flags) accounts u = apply_flags w action flags u
apply_change w gadmin (idle_time_to seconds) accounts u =
    some (set_idle_time (w.saves u.id).0 u seconds)
apply_change w gadmin (expires_to date) accounts u = some (set_expires (w.saves u.id).0 u date)
apply_change w gadmin (num_logins_to n) accounts u = some (set_num_logins (w.saves u.id).0 u n)
apply_change w gadmin (tagline_to text) accounts u = some (set_tagline (w.saves u.id).0 u text)
apply_change w gadmin (comment_to text) accounts u = some (set_comment (w.saves u.id).0 u text)
apply_change w gadmin (max_up_speed_to speed) accounts u =
    some (set_max_up_speed (w.saves u.id).0 u speed)
apply_change w gadmin (max_down_speed_to speed) accounts u =
    some (set_max_down_speed (w.saves u.id).0 u speed)
apply_change w gadmin (max_sim_up_to n) accounts u = some (set_max_sim_up (w.saves u.id).0 u n)
apply_change w gadmin (max_sim_down_to n) accounts u = some (set_max_sim_down (w.saves u.id).0 u n)

-- The database after a write for one user.
unfoldable pub store : Accounts → ℤ → UserData → Accounts
store accounts uid u x = if eq_ℤ uid x then some u else accounts x

-- How Execute ends: with the number of users changed, with an exception of the check, or with
-- an assertion of a setter that fails. The database stands beside it.
pub data Ending : Type 0 where
  changed : ℕ → Ending
  no_such_user no_permission stopped failed assertion : Ending

-- The loop over the users. What a setter leaves in the object is what the database has then, unless
-- the write was lost.
unfoldable pub change_all : Server → Bool → Change → List ℤ → ℕ → Accounts → Ending × Accounts
unfolding apply_change store
change_all w gadmin change [] n accounts = (changed n, accounts)
change_all w gadmin change (uid ∷ uids) n accounts = elim (accounts uid) [
  | none ↦ change_all w gadmin change uids n accounts
  | some u ↦ elim (apply_change w gadmin change accounts u) [
    | none ↦ (changed n, accounts)
    | some (returned v) ↦ change_all w gadmin change uids (n + 1) (store accounts uid v)
    | some (unsaved v) ↦ change_all w gadmin change uids (n + 1) accounts
    | some aborted ↦ (assertion, accounts)
  ]
]

-- `UIDToPrimaryGID`, which is -1 for an unknown user.
unfoldable pub primary_gid_of : Accounts → ℤ → ℤ
primary_gid_of accounts uid = elim (accounts uid) [ none ↦ minus_one | some u ↦ u.primary_gid ]

unfoldable pub all_administered : Server → Accounts → List ℤ → Bool
unfolding primary_gid_of has_gadmin_gid
all_administered w accounts [] = true
all_administered w accounts (uid ∷ uids) =
    has_gadmin_gid w.client_user (primary_gid_of accounts uid) && all_administered w accounts uids

-- Execute after the call of Check, whose reads past the arguments are undefined in C++ and fail
-- here. The assertion that the text of the reply is not empty is left out.
unfoldable pub execute_checked : Server → Request → Accounts → Checked → Ending × Accounts
unfolding change_all all_administered
execute_checked w r accounts syntax_error = (stopped, accounts)
execute_checked w r accounts refused = (stopped, accounts)
execute_checked w r accounts permission_error = (no_permission, accounts)
execute_checked w r accounts out_of_range = (failed, accounts)
execute_checked w r accounts undefined = (failed, accounts)
execute_checked w r accounts (checked gadmin change) = elim (w.get_uids r.user_mask) [
  | [] ↦ (no_such_user, accounts)
  | uid ∷ uids ↦
      if gadmin && not (all_administered w accounts (uid ∷ uids))
      then (no_permission, accounts)
      else change_all w gadmin change (uid ∷ uids) 0 accounts
]

unfoldable pub execute : Server → Request → Accounts → Ending × Accounts
unfolding execute_checked check
execute w r accounts = execute_checked w r accounts (check w r)
