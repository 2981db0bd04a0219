-- ===== src/Acl/Group/Laws.antt =====
-- The object in memory and the record in the database after the setters of src/acl/group.cpp.
use ebftpd.Prelude.{◌≡◌, ◌↔◌, refl, ap, Bool, true, false, Str, ℤ}
use ebftpd.Acl.Group.{
  GroupData, GroupObject, set_description, set_slots, set_leech_slots, set_allotment_slots,
  set_max_allotment_size, set_max_logins, set_comment,
}

-- The calls that set one field of a group, the comment apart.
pub data Setting : Type 0 where
  description : Str → Setting
  slots leech_slots allotment_slots max_allotment_size max_logins : ℤ → Setting

unfoldable pub apply : Bool → GroupObject → Setting → GroupObject
apply saved g (description s) = set_description saved g s
apply saved g (slots n) = set_slots saved g n
apply saved g (leech_slots n) = set_leech_slots saved g n
apply saved g (allotment_slots n) = set_allotment_slots saved g n
apply saved g (max_allotment_size n) = set_max_allotment_size saved g n
apply saved g (max_logins n) = set_max_logins saved g n

-- The field that a call sets, as a change of the data.
abbrev pub assigned : GroupData → Setting → GroupData
assigned d (description s) = record d { description = s }
assigned d (slots n) = record d { slots = n }
assigned d (leech_slots n) = record d { leech_slots = n }
assigned d (allotment_slots n) = record d { allotment_slots = n }
assigned d (max_allotment_size n) = record d { max_allotment_size = n }
assigned d (max_logins n) = record d { max_logins = n }

-- What is in memory is what is stored.
abbrev pub IsCoherent : GroupObject → Type 0
IsCoherent g = g.memory ≡ g.stored

-- Each setter but that of the comment, on an object that agrees with its record, changes its one
-- field in both when the write succeeds, and only in memory when it is lost.
pub setters_lem :
    (d : GroupData) (c : Setting)
    → let g : GroupObject = record { memory = d; stored = d } in
      (apply true g c ≡ record { memory = assigned d c; stored = assigned d c })
      × (apply false g c ≡ record { memory = assigned d c; stored = d })
unfolding apply set_description set_slots set_leech_slots set_allotment_slots set_max_allotment_size
    set_max_logins
setters_lem d (description s) = (refl, refl)
setters_lem d (slots n) = (refl, refl)
setters_lem d (leech_slots n) = (refl, refl)
setters_lem d (allotment_slots n) = (refl, refl)
setters_lem d (max_allotment_size n) = (refl, refl)
setters_lem d (max_logins n) = (refl, refl)

-- Setting the comment of an object that agrees with its record returns when the write succeeds, and
-- leaves the comment as it was, in memory and in the database; the object agrees with its record
-- afterwards exactly when the comment given is the group's description.
set_comment_lem :
    (d : GroupData) (value : Str)
    → (g : GroupObject) × (set_comment true (record { memory = d; stored = d }) value ≡ g)
      × (g.memory.comment ≡ d.comment)
      × (g.stored ≡ d)
      × (IsCoherent g ↔ (value ≡ d.description))
unfolding set_comment
set_comment_lem d value = (
  record { memory = record d { description = value }; stored = d },
  refl,
  refl,
  refl,
  ((λ e. ap (λ x. x.description) e), (λ e. rw e)),
)
