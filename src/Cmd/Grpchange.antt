-- ===== src/Cmd/Grpchange.antt =====
-- src/cmd/site/grpchange.cpp: SITE GRPCHANGE, which sets one field of the groups that a mask names,
-- through the setters of src/acl/group.cpp.
pub mod Bounds
pub mod Laws
pub mod Tests
use ebftpd.Prelude.{
  ℕ, ◌+◌, Bool, true, false, not, Option, none, some, List, [], ◌∷◌, Str, codes, str_eq, length, ℤ,
  pos, negsuc, minus_one, ◌+ℤ◌, ltb_ℤ, eq_ℤ, ◌&&◌, ◌||◌, if◌then◌else◌,
}
use ebftpd.Acl.Group.{
  GroupData, GroupObject, set_description, set_comment, set_slots, set_leech_slots,
  set_allotment_slots, set_max_allotment_size, set_max_logins,
}
use ebftpd.Cmd.Change.Values.{Server, Request, str_to_number, allow_site_cmd}
use ebftpd.Cmd.Change.Checks.{rest_of_line}

-- The functions that the checks return, with what they hold.
pub data GroupChange : Type 0 where
  slots_to : ℤ → GroupChange
  leech_slots_to : ℤ → GroupChange
  allotment_slots_to : ℤ → GroupChange
  max_allotment_size_to : ℤ → GroupChange
  max_logins_to : ℤ → GroupChange
  description_to : Str → GroupChange
  comment_to : Str → GroupChange

-- How a check ends; `none` where an exception ends it.
abbrev pub GroupCheck : Type 0
GroupCheck = Server → Request → Option GroupChange

-- The checks of a number with a least value.
abbrev pub check_number : (Server → Str → Option (ℤ × ℕ)) → ℤ → (ℤ → GroupChange) → GroupCheck
check_number read least change w r = elim (str_to_number (read w) r.value) [
  | none ↦ none
  | some n ↦ if ltb_ℤ n least then none else some (change n)
]

unfoldable pub check_description : GroupCheck
check_description w r = elim (rest_of_line r) [
  | none ↦ none
  | some s ↦ if not (w.valid_tagline s) then none else some (description_to s)
]

unfoldable pub check_group_comment : GroupCheck
check_group_comment w r = elim (rest_of_line r) [ none ↦ none | some s ↦ some (comment_to s) ]

pub record GroupSetting : Type 0 where
  pub name : Str
  pub maximum_args : ℤ
  pub check : GroupCheck

abbrev pub setting : Str → ℤ → GroupCheck → GroupSetting
setting name maximum check = record { name = name; maximum_args = maximum; check = check }

-- The keyword of every row is `grpchange`.
abbrev pub group_settings : List GroupSetting
group_settings =
    setting (codes "slots") (pos 1) (check_number (λ w. w.stoi) minus_one slots_to)
    ∷ setting (codes "leech_slots") (pos 1) (check_number (λ w. w.stoi) (negsuc 1) leech_slots_to)
    ∷ setting (codes "allot_slots") (pos 1)
        (check_number (λ w. w.stoi) (negsuc 1) allotment_slots_to)
    ∷ setting (codes "max_allot_size") (pos 1)
        (check_number (λ w. w.stoll) (pos 0) max_allotment_size_to)
    ∷ setting (codes "max_logins") (pos 1) (check_number (λ w. w.stoi) minus_one max_logins_to)
    ∷ setting (codes "description") minus_one check_description
    ∷ setting (codes "comment") minus_one check_group_comment
    ∷ []

unfoldable pub find_group_setting : Str → List GroupSetting → Option GroupSetting
find_group_setting name [] = none
find_group_setting name (s ∷ rest) =
    if str_eq s.name name then some s else find_group_setting name rest

unfoldable pub check_group : GroupCheck
unfolding find_group_setting
check_group w r = elim (find_group_setting (w.to_lower r.setting) group_settings) [
  | none ↦ none
  | some s ↦
      if not (allow_site_cmd w (codes "grpchange"))
      then none
      else if not (eq_ℤ s.maximum_args minus_one)
          && ltb_ℤ (s.maximum_args +ℤ pos 3) (pos (4 + length r.more))
      then none
      else s.check w (record r { setting = w.to_lower r.setting })
]

unfoldable pub apply_group_change : Bool → GroupChange → GroupObject → GroupObject
apply_group_change saved (slots_to n) g = set_slots saved g n
apply_group_change saved (leech_slots_to n) g = set_leech_slots saved g n
apply_group_change saved (allotment_slots_to n) g = set_allotment_slots saved g n
apply_group_change saved (max_allotment_size_to n) g = set_max_allotment_size saved g n
apply_group_change saved (max_logins_to n) g = set_max_logins saved g n
apply_group_change saved (description_to s) g = set_description saved g s
apply_group_change saved (comment_to s) g = set_comment saved g s

-- The groups of the database.
abbrev pub Groups : Type 0
Groups = ℤ → Option GroupData

unfoldable pub store_group : Groups → ℤ → GroupData → Groups
store_group groups gid g x = if eq_ℤ gid x then some g else groups x

-- A group as it is loaded.
abbrev pub loaded : GroupData → GroupObject
loaded g = record { memory = g; stored = g }

-- The loop of Execute; `saves` says whether the write of a group reaches the database. Where it
-- does not, the loop goes on.
unfoldable pub change_groups : (ℤ → Bool) → GroupChange → List ℤ → Groups → Groups
unfolding apply_group_change store_group
change_groups saves change [] groups = groups
change_groups saves change (gid ∷ gids) groups = elim (groups gid) [
  | none ↦ change_groups saves change gids groups
  | some g ↦
      let now = apply_group_change (saves gid) change (loaded g) in
      change_groups saves change gids (store_group groups gid now.stored)
]

unfoldable pub execute_group : Server → (ℤ → Bool) → List ℤ → Request → Groups → Groups
unfolding change_groups check_group
execute_group w saves gids r groups = elim (check_group w r) [
  | none ↦ groups
  | some change ↦ change_groups saves change gids groups
]
