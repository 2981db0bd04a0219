-- ===== src/Acl/User/Flags.antt =====
-- The flag operations of src/acl/user.cpp, and the group administrators, which they serve.
-- `std::sort` is insertion, and an unordered set of groups is a list without repetition.
pub mod Laws
pub mod Admins
use ebftpd.Prelude.{
  ℕ, ◌≡◌, Bool, true, false, not, List, [], ◌∷◌, ◌++◌, Str, ℤ, eq_ℤ, has_char, has_any, codes, ltb,
  ◌==◌, if◌then◌else◌,
}
use ebftpd.Acl.Rules.{valid_flags}
use ebftpd.Acl.User.Data.{UserData, Outcome, returned, unsaved, aborted, commit}
use ebftpd.Acl.User.GidList.{contains, keep}

-- `HasFlags`: is one of the flags set?
unfoldable pub has_flags : UserData → Str → Bool
has_flags u flags = has_any u.flags flags

unfoldable pub has_flag : UserData → ℕ → Bool
has_flag u flag = has_char flag u.flags

unfoldable pub set_flags : Bool → UserData → Str → Outcome UserData
set_flags saved u flags =
    if valid_flags flags then commit saved (record u { flags = flags }) else aborted

-- The loop of `AddFlags`.
unfoldable pub append_missing : Str → Str → Str
append_missing own [] = own
append_missing own (c ∷ cs) = append_missing (if has_char c own then own else own ++ c ∷ []) cs

unfoldable pub insert_sorted : ℕ → Str → Str
insert_sorted c [] = c ∷ []
insert_sorted c (x ∷ xs) = if ltb x c then x ∷ insert_sorted c xs else c ∷ x ∷ xs

unfoldable pub sort : Str → Str
unfolding insert_sorted
sort [] = []
sort (x ∷ xs) = insert_sorted x (sort xs)

unfoldable pub added_flags : Str → Str → Str
unfolding append_missing sort
added_flags own flags = sort (append_missing own flags)

unfoldable pub add_flags : Bool → UserData → Str → Outcome UserData
add_flags saved u flags =
    if valid_flags flags
    then commit saved (record u { flags = added_flags u.flags flags })
    else aborted

-- `erase(find(c), 1)`
unfoldable pub erase_char : ℕ → Str → Str
erase_char c [] = []
erase_char c (x ∷ xs) = if x == c then xs else x ∷ erase_char c xs

-- The loop of `DelFlags`.
unfoldable pub deleted_flags : Str → Str → Str
unfolding erase_char
deleted_flags own [] = own
deleted_flags own (c ∷ cs) = deleted_flags (erase_char c own) cs

unfoldable pub del_flags : Bool → UserData → Str → Outcome UserData
del_flags saved u flags = commit saved (record u { flags = deleted_flags u.flags flags })

abbrev pub siteop_flag : ℕ
siteop_flag = b'1'

abbrev pub gadmin_flag : ℕ
gadmin_flag = b'2'

abbrev pub template_flag : ℕ
template_flag = b'3'

abbrev pub exempt_flag : ℕ
exempt_flag = b'4'

abbrev pub deleted_flag : ℕ
deleted_flag = b'6'

unfoldable pub has_gadmin_gid : UserData → ℤ → Bool
has_gadmin_gid u gid = contains gid u.gadmin_gids

abbrev pub insert_gid : ℤ → List ℤ → List ℤ
insert_gid gid gids = if contains gid gids then gids else gid ∷ gids

-- A call after a write that was lost, in the same body.
unfoldable pub after_lost : Outcome UserData → Outcome UserData
after_lost (returned v) = unsaved v
after_lost (unsaved v) = unsaved v
after_lost aborted = aborted

abbrev pub after_write : Bool → Outcome UserData → Outcome UserData
after_write saved o = if saved then o else after_lost o

-- `saved` tells of the write of the groups, `saved_flags` of that of the flags.
unfoldable pub add_gadmin_gid : Bool → Bool → UserData → ℤ → Outcome UserData
unfolding after_lost has_flag
add_gadmin_gid saved saved_flags u gid =
    let new : UserData = record u { gadmin_gids = insert_gid gid u.gadmin_gids } in
    after_write saved (
      if has_flag new gadmin_flag
      then returned new
      else add_flags saved_flags new (gadmin_flag ∷ []))

abbrev pub is_empty : List ℤ → Bool
is_empty [] = true
is_empty (x ∷ xs) = false

unfoldable pub del_gadmin_gid : Bool → Bool → UserData → ℤ → Outcome UserData
unfolding after_lost
del_gadmin_gid saved saved_flags u gid =
    let new : UserData = record u { gadmin_gids = keep (λ g. not (eq_ℤ g gid)) u.gadmin_gids } in
    after_write saved (
      if is_empty new.gadmin_gids
      then del_flags saved_flags new (gadmin_flag ∷ [])
      else returned new)

-- The first part is what `ToggleGadminGID` returns.
unfoldable pub toggle_gadmin_gid : Bool → Bool → UserData → ℤ → Bool × Outcome UserData
unfolding has_gadmin_gid
toggle_gadmin_gid saved saved_flags u gid =
    if has_gadmin_gid u gid
    then (false, del_gadmin_gid saved saved_flags u gid)
    else (true, add_gadmin_gid saved saved_flags u gid)
