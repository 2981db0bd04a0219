-- ===== src/Acl/User/Tests.antt =====
-- A user at concrete inputs.
use ebftpd.Prelude.{
  ℕ, ◌≡◌, ◌↔◌, refl, Bool, true, not, [], ◌∷◌, Str, codes, pos, eq_ℤ, str_eq, length, ◌%◌, ◌&&◌,
  ◌||◌, if◌then◌else◌, arith,
}
use ebftpd.Util.Passwd.{hex_encode, hex_decode, read_hex}
use ebftpd.Util.Passwd.Laws.{IsBytes}
use ebftpd.Util.Wildcard.{wildcard_match}
use ebftpd.Acl.User.Data.{UserData, new_user_data, returned}
use ebftpd.Acl.User.GidList.{contains}
use ebftpd.Acl.User.Groups.{
  clean_gadmin_gids, with_groups, has_gid, with_primary, with_added, with_deleted, with_set,
  with_toggled,
}
use ebftpd.Acl.User.Groups.Membership.{has_gid-operations}
use ebftpd.Acl.User.Groups.Shape.{IsValid}
use ebftpd.Acl.User.Groups.Calls.{add, group_call, Leaves, group_call-IsValid}
use ebftpd.Acl.User.Flags.Laws.{Ascends}
use ebftpd.Acl.User.Masks.{add_ip_mask, is_covered}
use ebftpd.Acl.User.Masks.Laws.{Reduced, add_ip_mask-Reduced, del_ip_mask-Reduced}
use ebftpd.Acl.User.Masks.Laws
use ebftpd.Acl.User.Password.{verify_password, set_password}
use ebftpd.Acl.User.Password.Laws.{set_password-verify_password_iff}

-- In group 5 first and 7 second, and administrator of 7.
abbrev member : UserData
member = record (new_user_data 0) {
  flags = codes "24";
  primary_gid = pos 5;
  secondary_gids = pos 7 ∷ [];
  gadmin_gids = pos 7 ∷ [];
}

member-IsValid : IsValid member
unfolding contains eq_ℤ has_gid
member-IsValid = record {
  secondary = ((refl, tt), refl);
  apart = refl;
  rooted = λ e. cc;
  real = refl;
  admins = λ g h. ground arith;
}

group_call-IsValid_example : Leaves IsValid (group_call true member (add (pos 5 ∷ pos 9 ∷ [])))
group_call-IsValid_example =
    group_call-IsValid true member (add (pos 5 ∷ pos 9 ∷ [])) (unfold contains eq_ℤ in refl)
      member-IsValid

has_gid-operations_example :
    (has_gid (with_primary member (pos 9)) (pos 7)
      ≡ (eq_ℤ (pos 9) (pos 7) || has_gid member (pos 7)))
    × (has_gid (with_added member (pos 9) []) (pos 7)
        ≡ (has_gid member (pos 7) || contains (pos 7) (pos 9 ∷ [])))
    × (has_gid (with_deleted member (pos 9 ∷ [])) (pos 7)
        ≡ (has_gid member (pos 7) && not (contains (pos 7) (pos 9 ∷ []))))
    × (has_gid (with_set member (pos 9 ∷ [])) (pos 7) ≡ contains (pos 7) (pos 9 ∷ []))
    × (has_gid (with_toggled member (pos 9 ∷ [])) (pos 7) ≡ (
        (has_gid member (pos 7) && not (contains (pos 7) (pos 9 ∷ [])))
        || (contains (pos 7) (pos 9 ∷ []) && not (has_gid member (pos 7)))))
has_gid-operations_example = has_gid-operations member (pos 9) [] (pos 7) (λ e. cc)

member-Ascends : Ascends member.flags
member-Ascends = omega arith

-- A match is the equality of the texts.
abbrev equal_match : Str → Str → Bool → ℕ
equal_match pattern s fold = if str_eq pattern s then 0 else 1

abbrev masked : UserData
masked = record member { ip_masks = codes "a@b" ∷ codes "c@d" ∷ [] }

masked-Reduced : Reduced equal_match masked.ip_masks
unfolding wildcard_match str_eq
masked-Reduced = (((refl, refl), tt), (tt, tt))

add_ip_mask-Reduced_example :
    Laws.Leaves
      (λ v. Reduced equal_match v.ip_masks)
      (add_ip_mask equal_match true masked (codes "e@f")).2
    × ((add_ip_mask equal_match true masked (codes "e@f")).0
        ≡ not (is_covered equal_match masked.ip_masks (codes "e@f")))
add_ip_mask-Reduced_example =
    add_ip_mask-Reduced equal_match true masked (codes "e@f") masked-Reduced

-- A stand-in for the hash: the lengths of the password and the salt.
abbrev toy_hash : Str → Str → Str
toy_hash password salt = (length password % 256) ∷ (length salt % 256) ∷ []

toy_hash-IsBytes : (password salt : Str) → IsBytes (toy_hash password salt)
toy_hash-IsBytes password salt = omega arith

set_password-verify_password_iff_example :
    (v : UserData) × (set_password toy_hash true member (1 ∷ []) (codes "pw") ≡ returned v)
    × ((verify_password toy_hash v (codes "qw") ≡ true)
        ↔ (toy_hash (codes "qw") (1 ∷ []) ≡ toy_hash (codes "pw") (1 ∷ [])))
set_password-verify_password_iff_example =
    set_password-verify_password_iff toy_hash toy_hash-IsBytes member (codes "pw") (codes "qw")
      (1 ∷ []) (omega arith)

abbrev secured : UserData
secured = record member { password = codes "0202"; salt = codes "AABB" }

secured-verifies : verify_password toy_hash secured (codes "pw") ≡ true
unfolding verify_password str_eq hex_encode hex_decode read_hex
secured-verifies = refl

-- A group that is assigned twice is both the primary and a secondary one.
repeated_groups :
    ((with_set member (pos 5 ∷ pos 5 ∷ [])).primary_gid ≡ pos 5)
    × ((with_set member (pos 5 ∷ pos 5 ∷ [])).secondary_gids ≡ pos 5 ∷ [])
unfolding with_set with_groups clean_gadmin_gids
repeated_groups = (refl, refl)
