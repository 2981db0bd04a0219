-- ===== src/Acl/User/Groups/Validity.antt =====
-- The group operations of src/acl/user.cpp keep a user valid: the changes in memory.
use ebftpd.Prelude.{◌≡◌, ◌≢◌, refl, ap, subst, true, false, List, ◌∷◌, ℤ, minus_one, arith}
use ebftpd.Acl.User.Data.{UserData}
use ebftpd.Acl.User.GidList.{
  contains, contains-erase_first_self, contains-erase_first_le, erase_first-Distinct,
}
use ebftpd.Acl.User.Groups.{
  has_gid, demoted, with_primary, with_added, with_groups, remaining, with_deleted, with_set,
  diff_gids, with_toggled,
}
use ebftpd.Acl.User.Groups.Membership.{has_gid-with_primary, has_gid-with_added}
use ebftpd.Acl.User.Groups.Shape.{
  IsGroupList, IsValid, IsGrouped-of, demoted-IsGroupList, with_groups-IsGrouped, clean-IsValid,
  remaining-IsGrouped, diff_gids-IsGroupList, with_added-IsGrouped, gadmin-with_added,
  gadmin-with_groups, gadmin-remaining,
}

-- The groups that a user administers remain his where none is taken away.
admins_of_more :
    (u new : UserData)
    → IsValid u
    → new.gadmin_gids ≡ u.gadmin_gids
    → ((g : ℤ) → g ≢ minus_one → has_gid u g ≡ true → has_gid new g ≡ true)
    → (g : ℤ) → contains g new.gadmin_gids ≡ true
    → has_gid new g ≡ true
admins_of_more u new v e more g h = more g ne (v.admins g mine)
  where
    mine : contains g u.gadmin_gids ≡ true
    mine = subst (λ l. contains g l ≡ true) e h

    ne : g ≢ minus_one
    ne f = cc (v.real, mine, ap (λ y. contains y u.gadmin_gids) f)

pub with_primary-IsValid :
    (u : UserData) (gid : ℤ) → gid ≢ minus_one → IsValid u → IsValid (with_primary u gid)
unfolding with_primary
with_primary-IsValid u gid h v =
    let mine = demoted-IsGroupList u (IsGrouped-of v) in
    record {
      secondary = (
        erase_first-Distinct gid (demoted u) mine.0,
        contains-erase_first_le minus_one gid (demoted u) mine.1,
      );
      apart = contains-erase_first_self gid (demoted u) mine.0;
      rooted = λ e. absurd (h e);
      real = v.real;
      admins =
          admins_of_more u (with_primary u gid) v refl
            (λ g ne k. ground (arith, has_gid-with_primary u gid g ne));
    }

pub with_added-IsValid :
    (u : UserData) (front : ℤ) (rest : List ℤ)
    → contains minus_one (front ∷ rest) ≡ false
    → IsValid u
    → IsValid (with_added u front rest)
with_added-IsValid u front rest h v =
    let w = with_added-IsGrouped u front rest h (IsGrouped-of v) in
    let same = gadmin-with_added u front rest in
    record {
      secondary = w.secondary;
      apart = w.apart;
      rooted = w.rooted;
      real = rw same v.real;
      admins =
          admins_of_more u (with_added u front rest) v same
            (λ g ne k. ground (arith, has_gid-with_added u front rest g ne));
    }

pub with_deleted-IsValid :
    (u : UserData) (gids : List ℤ) → IsValid u → IsValid (with_deleted u gids)
unfolding with_deleted
with_deleted-IsValid u gids v =
    clean-IsValid (remaining u gids) (remaining-IsGrouped u gids (IsGrouped-of v))
      (rw (gadmin-remaining u gids) v.real)

pub with_set-IsValid :
    (u : UserData) (gids : List ℤ) → IsGroupList gids → IsValid u → IsValid (with_set u gids)
unfolding with_set
with_set-IsValid u gids w v =
    clean-IsValid (with_groups u gids) (with_groups-IsGrouped u gids w)
      (rw (gadmin-with_groups u gids) v.real)

pub with_toggled-IsValid :
    (u : UserData) (gids : List ℤ) → IsGroupList gids → IsValid u → IsValid (with_toggled u gids)
unfolding with_toggled
with_toggled-IsValid u gids w v =
    clean-IsValid (with_groups u (diff_gids u gids))
      (with_groups-IsGrouped u (diff_gids u gids) (diff_gids-IsGroupList u gids (IsGrouped-of v) w))
      (rw (gadmin-with_groups u (diff_gids u gids)) v.real)
