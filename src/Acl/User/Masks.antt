-- ===== src/Acl/User/Masks.antt =====
-- The address masks of a user, src/acl/user.cpp.
pub mod Laws
use ebftpd.Prelude.{
  ℕ, zero, suc, ◌≡◌, Bool, true, false, Option, none, some, List, [], ◌∷◌, ◌++◌, Str, str_eq,
  length, ltb, get_or, ◌||◌, if◌then◌else◌,
}
use ebftpd.Util.Wildcard.{Fnmatch, wildcard_match}
use ebftpd.Acl.User.Data.{UserData, Outcome, returned, unsaved, aborted}

-- The write; where it is lost, the object keeps what was assigned.
unfoldable pub save_ip_masks : Bool → UserData → Outcome UserData
save_ip_masks saved new = if saved then returned new else unsaved new

module _ (fnmatch : Fnmatch) where
  unfoldable pub is_covered : List Str → Str → Bool
  is_covered [] ip_mask = false
  is_covered (m ∷ ms) ip_mask = wildcard_match fnmatch m ip_mask true || is_covered ms ip_mask

  -- The loop that takes out the masks which the new one covers: what stays and what is deleted.
  unfoldable pub sweep : Str → List Str → List Str × List Str
  sweep ip_mask [] = ([], [])
  sweep ip_mask (m ∷ ms) =
      let rest = sweep ip_mask ms in
      if wildcard_match fnmatch ip_mask m true then (rest.0, m ∷ rest.1) else (m ∷ rest.0, rest.1)

  -- Whether the mask was added, and the deleted masks.
  unfoldable pub add_ip_mask : Bool → UserData → Str → Bool × List Str × Outcome UserData
  unfolding save_ip_masks
  add_ip_mask saved u ip_mask = if is_covered u.ip_masks ip_mask then (false, [], returned u) else (
    true,
    (sweep ip_mask u.ip_masks).1,
    save_ip_masks saved (record u { ip_masks = (sweep ip_mask u.ip_masks).0 ++ ip_mask ∷ [] }),
  )

unfoldable pub erase_mask : Str → List Str → List Str
erase_mask m [] = []
erase_mask m (x ∷ xs) = if str_eq x m then xs else x ∷ erase_mask m xs

unfoldable pub has_mask : Str → List Str → Bool
has_mask m [] = false
has_mask m (x ∷ xs) = str_eq x m || has_mask m xs

unfoldable pub del_ip_mask : Bool → UserData → Str → Outcome UserData
unfolding save_ip_masks
del_ip_mask saved u ip_mask =
    if has_mask ip_mask u.ip_masks
    then save_ip_masks saved (record u { ip_masks = erase_mask ip_mask u.ip_masks })
    else returned u

unfoldable pub erase_at : ℕ → List Str → List Str
erase_at i [] = []
erase_at zero (x ∷ xs) = xs
erase_at (suc i) (x ∷ xs) = x ∷ erase_at i xs

-- `verify` stops the program on an index out of range; the first part is the mask returned.
unfoldable pub del_ip_mask_at : Bool → UserData → ℕ → Str × Outcome UserData
unfolding save_ip_masks
del_ip_mask_at saved u index =
    if ltb index (length u.ip_masks)
    then (
      get_or u.ip_masks index [],
      save_ip_masks saved (record u { ip_masks = erase_at index u.ip_masks }),
    )
    else ([], aborted)

unfoldable pub clear_ip_masks : Bool → UserData → Outcome UserData
unfolding save_ip_masks
clear_ip_masks saved u = save_ip_masks saved (record u { ip_masks = [] })
