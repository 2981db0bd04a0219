-- ===== src/Acl/User/Groups.antt =====
-- The group operations of src/acl/user.cpp. Each is a change of the object in memory, followed by
-- `commit`, the write to the database.
pub mod Membership
pub mod Shape
pub mod Validity
pub mod Calls
use ebftpd.Prelude.{
  Bool, true, false, not, List, [], ◌∷◌, ◌++◌, ℤ, eq_ℤ, minus_one, ◌||◌, if◌then◌else◌,
}
use ebftpd.Acl.User.Data.{UserData, Outcome, returned, commit}
use ebftpd.Acl.User.GidList.{contains, erase_first, keep, outside}

unfoldable pub has_secondary_gid : UserData → ℤ → Bool
has_secondary_gid u gid = contains gid u.secondary_gids

unfoldable pub has_gid : UserData → ℤ → Bool
unfolding has_secondary_gid
has_gid u gid = eq_ℤ u.primary_gid gid || has_secondary_gid u gid

-- The secondary groups once the primary one has been put in front of them.
unfoldable pub demoted : UserData → List ℤ
demoted u =
    if eq_ℤ u.primary_gid minus_one then u.secondary_gids else u.primary_gid ∷ u.secondary_gids

unfoldable pub with_primary : UserData → ℤ → UserData
unfolding demoted
with_primary u gid = record u { primary_gid = gid; secondary_gids = erase_first gid (demoted u) }

unfoldable pub set_primary_gid : Bool → UserData → ℤ → Outcome UserData
unfolding with_primary
set_primary_gid saved u gid =
    if eq_ℤ u.primary_gid gid then returned u else commit saved (with_primary u gid)

-- The `std::copy_if` of `AddGIDs`, whose test reads the list that it appends to.
abbrev pub grown : ℤ → List ℤ → ℤ → List ℤ
grown primary secondary g =
    if contains g secondary || eq_ℤ g primary then secondary else secondary ++ g ∷ []

unfoldable pub append_new : ℤ → List ℤ → List ℤ → List ℤ
append_new primary secondary [] = secondary
append_new primary secondary (g ∷ gs) = append_new primary (grown primary secondary g) gs

unfoldable pub with_added : UserData → ℤ → List ℤ → UserData
with_added u front rest =
    if eq_ℤ u.primary_gid minus_one
    then record u { primary_gid = front; secondary_gids = append_new front u.secondary_gids rest }
    else record u { secondary_gids = append_new u.primary_gid u.secondary_gids (front ∷ rest) }

unfoldable pub add_gids : Bool → UserData → List ℤ → Outcome UserData
unfolding with_added
add_gids saved u [] = returned u
add_gids saved u (front ∷ rest) = commit saved (with_added u front rest)

unfoldable pub clean_gadmin_gids : UserData → UserData
unfolding has_gid
clean_gadmin_gids u = record u { gadmin_gids = keep (has_gid u) u.gadmin_gids }

-- The first of a list becomes the primary group and the others the secondary ones.
unfoldable pub with_groups : UserData → List ℤ → UserData
with_groups u [] = record u { primary_gid = minus_one; secondary_gids = [] }
with_groups u (front ∷ rest) = record u { primary_gid = front; secondary_gids = rest }

unfoldable pub remaining : UserData → List ℤ → UserData
unfolding with_groups
remaining u gids =
    let secondary = keep (outside gids) u.secondary_gids in
    if contains u.primary_gid gids
    then with_groups u secondary
    else record u { secondary_gids = secondary }

unfoldable pub with_deleted : UserData → List ℤ → UserData
unfolding remaining clean_gadmin_gids
with_deleted u gids = clean_gadmin_gids (remaining u gids)

unfoldable pub del_gids : Bool → UserData → List ℤ → Outcome UserData
unfolding with_deleted
del_gids saved u gids = commit saved (with_deleted u gids)

unfoldable pub with_set : UserData → List ℤ → UserData
unfolding with_groups clean_gadmin_gids
with_set u gids = clean_gadmin_gids (with_groups u gids)

unfoldable pub set_gids : Bool → UserData → List ℤ → Outcome UserData
unfolding with_set
set_gids saved u gids = commit saved (with_set u gids)

-- The groups on one side only.
unfoldable pub diff_gids : UserData → List ℤ → List ℤ
unfolding demoted
diff_gids u gids = keep (outside gids) (demoted u) ++ keep (outside (demoted u)) gids

unfoldable pub with_toggled : UserData → List ℤ → UserData
unfolding with_groups clean_gadmin_gids diff_gids
with_toggled u gids = clean_gadmin_gids (with_groups u (diff_gids u gids))

unfoldable pub toggle_gids : Bool → UserData → List ℤ → Outcome UserData
unfolding with_toggled
toggle_gids saved u gids = commit saved (with_toggled u gids)
