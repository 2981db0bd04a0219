-- ===== src/Acl/User/Data.antt =====
-- src/acl/userdata.hpp, util/util/scopeguard.hpp and the setters of src/acl/user.cpp.
-- Dates and times are numbers of days and of microseconds; an unordered map or set is a list, whose
-- order no operation reads. Integers do not wrap.
use ebftpd.Prelude.{
  ℕ, Bool, true, false, Option, none, some, List, [], ◌∷◌, Str, codes, str_eq, ℤ, pos, minus_one,
  ◌+ℤ◌, if◌then◌else◌,
}

pub record UserData : Type 0 where
  pub id : ℤ
  pub name : Str
  pub ip_masks : List Str
  pub password : Str
  pub salt : Str
  pub flags : Str
  pub primary_gid : ℤ
  pub secondary_gids : List ℤ
  pub gadmin_gids : List ℤ
  pub creator : ℤ
  pub created : ℕ
  pub weekly_allotment : List (Str × ℤ)
  pub home_dir : Str
  pub start_up_dir : Str
  pub idle_time : ℤ
  pub expires : Option ℕ
  pub num_logins : ℤ
  pub comment : Str
  pub tagline : Str
  pub max_down_speed : ℤ
  pub max_up_speed : ℤ
  pub max_sim_down : ℤ
  pub max_sim_up : ℤ
  pub logged_in : ℤ
  pub last_login : Option ℕ
  pub ratio : List (Str × ℤ)
  pub credits : List (Str × ℤ)

-- `UserData()`, on the day `today`.
abbrev pub new_user_data : ℕ → UserData
new_user_data today = record {
  id = minus_one;
  name = [];
  ip_masks = [];
  password = [];
  salt = [];
  flags = [];
  primary_gid = minus_one;
  secondary_gids = [];
  gadmin_gids = [];
  creator = minus_one;
  created = today;
  weekly_allotment = [];
  home_dir = codes "/";
  start_up_dir = codes "/";
  idle_time = minus_one;
  expires = none;
  num_logins = pos 1;
  comment = [];
  tagline = [];
  max_down_speed = pos 0;
  max_up_speed = pos 0;
  max_sim_down = minus_one;
  max_sim_up = minus_one;
  logged_in = pos 0;
  last_login = none;
  ratio = ([], pos 3) ∷ [];
  credits = [];
}

-- How a call ends, with the object as the caller finds it: it returns, it returns though a write
-- was lost, or an assertion stops the program.
pub data Outcome (A : Type 0) : Type 0 where
  returned : A → Outcome A
  unsaved : A → Outcome A
  aborted : Outcome A

-- A body under `util::Transaction` guards: `new` is the object after the assignments, and `saved`
-- says whether the write that ends the body reaches the database. The writes of
-- src/db/user/user.cpp stand over a NoErrorConnection, which logs a failure and does not throw it:
-- the guards put nothing back, and the object keeps what was assigned.
unfoldable pub commit : Bool → UserData → Outcome UserData
commit saved new = if saved then returned new else unsaved new

unfoldable pub set_home_dir : Bool → UserData → Str → Outcome UserData
set_home_dir saved u value = commit saved (record u { home_dir = value })

unfoldable pub set_start_up_dir : Bool → UserData → Str → Outcome UserData
set_start_up_dir saved u value = commit saved (record u { start_up_dir = value })

unfoldable pub set_idle_time : Bool → UserData → ℤ → Outcome UserData
set_idle_time saved u value = commit saved (record u { idle_time = value })

unfoldable pub set_expires : Bool → UserData → Option ℕ → Outcome UserData
set_expires saved u value = commit saved (record u { expires = value })

unfoldable pub set_num_logins : Bool → UserData → ℤ → Outcome UserData
set_num_logins saved u value = commit saved (record u { num_logins = value })

unfoldable pub set_comment : Bool → UserData → Str → Outcome UserData
set_comment saved u value = commit saved (record u { comment = value })

unfoldable pub set_tagline : Bool → UserData → Str → Outcome UserData
set_tagline saved u value = commit saved (record u { tagline = value })

unfoldable pub set_max_down_speed : Bool → UserData → ℤ → Outcome UserData
set_max_down_speed saved u value = commit saved (record u { max_down_speed = value })

unfoldable pub set_max_up_speed : Bool → UserData → ℤ → Outcome UserData
set_max_up_speed saved u value = commit saved (record u { max_up_speed = value })

unfoldable pub set_max_sim_down : Bool → UserData → ℤ → Outcome UserData
set_max_sim_down saved u value = commit saved (record u { max_sim_down = value })

unfoldable pub set_max_sim_up : Bool → UserData → ℤ → Outcome UserData
set_max_sim_up saved u value = commit saved (record u { max_sim_up = value })

-- `now` is the local time at the call.
unfoldable pub set_logged_in : Bool → ℕ → UserData → Outcome UserData
set_logged_in saved now u =
    commit saved (record u { logged_in = u.logged_in +ℤ pos 1; last_login = some now })

-- `map[key]`, for reading by `find` and for assignment.
unfoldable pub find_entry : Str → List (Str × ℤ) → Option ℤ
find_entry key [] = none
find_entry key ((k, v) ∷ rest) = if str_eq k key then some v else find_entry key rest

unfoldable pub assign_entry : Str → ℤ → List (Str × ℤ) → List (Str × ℤ)
assign_entry key value [] = (key, value) ∷ []
assign_entry key value ((k, v) ∷ rest) =
    if str_eq k key then (key, value) ∷ rest else (k, v) ∷ assign_entry key value rest

abbrev pub or_default : Option ℤ → ℤ → ℤ
or_default (some v) d = v
or_default none d = d

unfoldable pub section_ratio : UserData → Str → ℤ
section_ratio u section = or_default (find_entry section u.ratio) minus_one

unfoldable pub set_section_ratio : Bool → UserData → Str → ℤ → Outcome UserData
set_section_ratio saved u section ratio =
    commit saved (record u { ratio = assign_entry section ratio u.ratio })

unfoldable pub section_credits : UserData → Str → ℤ
section_credits u section = or_default (find_entry section u.credits) (pos 0)

unfoldable pub section_weekly_allotment : UserData → Str → ℤ
section_weekly_allotment u section = or_default (find_entry section u.weekly_allotment) (pos 0)

unfoldable pub set_section_weekly_allotment : Bool → UserData → Str → ℤ → Outcome UserData
set_section_weekly_allotment saved u section allotment =
    commit saved (record u { weekly_allotment = assign_entry section allotment u.weekly_allotment })

-- `Rename`: `saved` is the result of `SaveName`, which does not throw; the name is put back by
-- hand.
unfoldable pub rename : Bool → UserData → Str → Bool × UserData
rename saved u name = if saved then (true, record u { name = name }) else (false, u)
