-- ===== src/Acl/User/Groups/Calls.antt =====
-- The calls of `User` that change groups, with the database write that ends them.
use ebftpd.Prelude.{
  ◌≡◌, ◌≢◌, inl, inr, Bool, true, false, List, [], ◌∷◌, ℤ, eq_ℤ, minus_one, Bool-cases,
}
use ebftpd.Acl.User.Data.{UserData, Outcome, returned, unsaved, aborted, commit}
use ebftpd.Acl.User.GidList.{contains}
use ebftpd.Acl.User.Groups.{with_added, set_primary_gid, add_gids, del_gids, set_gids, toggle_gids}
use ebftpd.Acl.User.Groups.Shape.{IsGroupList, IsValid}
use ebftpd.Acl.User.Groups.Validity.{
  with_primary-IsValid, with_added-IsValid, with_deleted-IsValid, with_set-IsValid,
  with_toggled-IsValid,
}

-- The calls of `User` that change groups.
pub data GroupCall : Type 0 where
  primary : ℤ → GroupCall
  add delete assign toggle : List ℤ → GroupCall

-- A primary group other than -1, no -1 among added groups, and a list without -1 and without
-- repetition where it is taken over as it is. SITE CHGRP does not remove the repetitions of its
-- arguments.
abbrev pub IsProper : GroupCall → Type 0
IsProper (primary gid) = gid ≢ minus_one
IsProper (add gids) = contains minus_one gids ≡ false
IsProper (delete gids) = Unit
IsProper (assign gids) = IsGroupList gids
IsProper (toggle gids) = IsGroupList gids

unfoldable pub group_call : Bool → UserData → GroupCall → Outcome UserData
group_call saved u (primary gid) = set_primary_gid saved u gid
group_call saved u (add gids) = add_gids saved u gids
group_call saved u (delete gids) = del_gids saved u gids
group_call saved u (assign gids) = set_gids saved u gids
group_call saved u (toggle gids) = toggle_gids saved u gids

-- The object that a call leaves behind, whichever way it ended.
abbrev pub Leaves : (UserData → Type 0) → Outcome UserData → Type 0
Leaves P (returned u) = P u
Leaves P (unsaved u) = P u
Leaves P aborted = ⊥

commit-Leaves :
    (P : UserData → Type 0) (saved : Bool) (new : UserData) → P new → Leaves P (commit saved new)
unfolding commit
commit-Leaves P true new h = h
commit-Leaves P false new h = h

-- Every group call keeps a user valid, whether its write reaches the database or is lost: the
-- secondary groups stay distinct and apart from the primary group and -1, a user without a primary
-- group has none, and only groups of the user are administered. The call is passed a group other
-- than -1, or a list without -1, and without repetition where the list is assigned or toggled,
-- which SITE CHGRP does not see to.
pub group_call-IsValid :
    (saved : Bool) (u : UserData) (c : GroupCall)
    → IsProper c
    → IsValid u
    → Leaves IsValid (group_call saved u c)
unfolding group_call set_primary_gid add_gids del_gids set_gids toggle_gids
group_call-IsValid saved u (primary gid) h v = elim (Bool-cases (eq_ℤ u.primary_gid gid)) [
  | inl e ↦ rw (e, set_primary_gid) v
  | inr e ↦ rw (e, set_primary_gid) (commit-Leaves IsValid saved _ (with_primary-IsValid u gid h v))
]
group_call-IsValid saved u (add []) h v = v
group_call-IsValid saved u (add (x ∷ xs)) h v =
    commit-Leaves IsValid saved (with_added u x xs) (with_added-IsValid u x xs h v)
group_call-IsValid saved u (delete gids) h v =
    commit-Leaves IsValid saved _ (with_deleted-IsValid u gids v)
group_call-IsValid saved u (assign gids) h v =
    commit-Leaves IsValid saved _ (with_set-IsValid u gids h v)
group_call-IsValid saved u (toggle gids) h v =
    commit-Leaves IsValid saved _ (with_toggled-IsValid u gids h v)
