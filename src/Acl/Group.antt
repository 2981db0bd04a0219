-- ===== src/Acl/Group.antt =====
-- src/acl/group.cpp and groupdata.hpp over the writes of src/db/group/group.cpp: a group in memory
-- and its record in the database. The database calls are MongoDB's: `saved` says whether one
-- succeeds, and a write that succeeds stores the named field of the object in memory. One that
-- fails is lost.
pub mod Laws
pub mod Tests
use ebftpd.Prelude.{
  ◌≡◌, Bool, true, false, List, [], ◌∷◌, Str, ℤ, pos, negsuc, minus_one, if◌then◌else◌,
}

pub record GroupData : Type 0 where
  pub id : ℤ
  pub name : Str
  pub description : Str
  pub comment : Str
  pub slots : ℤ
  pub leech_slots : ℤ
  pub allotment_slots : ℤ
  pub max_allotment_size : ℤ
  pub max_logins : ℤ

-- `GroupData()`
abbrev pub new_group_data : GroupData
new_group_data = record {
  id = minus_one;
  name = [];
  description = [];
  comment = [];
  slots = pos 0;
  leech_slots = negsuc 1;
  allotment_slots = negsuc 1;
  max_allotment_size = pos 0;
  max_logins = minus_one;
}

pub record GroupObject : Type 0 where
  pub memory : GroupData
  pub stored : GroupData

-- The writes of db::Group, of the object as the caller has changed it. They stand over a
-- NoErrorConnection, which logs a failure and does not throw it: the guards of the setters put
-- nothing back, and the record stays as it was.
save_description : Bool → GroupObject → GroupObject
save_description saved g =
    if saved
    then record g { stored = record g.stored { description = g.memory.description } }
    else g

save_slots : Bool → GroupObject → GroupObject
save_slots saved g =
    if saved then record g { stored = record g.stored { slots = g.memory.slots } } else g

save_leech_slots : Bool → GroupObject → GroupObject
save_leech_slots saved g =
    if saved
    then record g { stored = record g.stored { leech_slots = g.memory.leech_slots } }
    else g

save_allotment_slots : Bool → GroupObject → GroupObject
save_allotment_slots saved g =
    if saved
    then record g { stored = record g.stored { allotment_slots = g.memory.allotment_slots } }
    else g

save_max_allotment_size : Bool → GroupObject → GroupObject
save_max_allotment_size saved g =
    if saved
    then record g { stored = record g.stored { max_allotment_size = g.memory.max_allotment_size } }
    else g

save_max_logins : Bool → GroupObject → GroupObject
save_max_logins saved g =
    if saved then record g { stored = record g.stored { max_logins = g.memory.max_logins } } else g

save_comment : Bool → GroupObject → GroupObject
save_comment saved g =
    if saved then record g { stored = record g.stored { comment = g.memory.comment } } else g

unfoldable pub set_description : Bool → GroupObject → Str → GroupObject
unfolding save_description
set_description saved g value =
    save_description saved (record g { memory = record g.memory { description = value } })

unfoldable pub set_slots : Bool → GroupObject → ℤ → GroupObject
unfolding save_slots
set_slots saved g value = save_slots saved (record g { memory = record g.memory { slots = value } })

unfoldable pub set_leech_slots : Bool → GroupObject → ℤ → GroupObject
unfolding save_leech_slots
set_leech_slots saved g value =
    save_leech_slots saved (record g { memory = record g.memory { leech_slots = value } })

unfoldable pub set_allotment_slots : Bool → GroupObject → ℤ → GroupObject
unfolding save_allotment_slots
set_allotment_slots saved g value =
    save_allotment_slots saved (record g { memory = record g.memory { allotment_slots = value } })

unfoldable pub set_max_allotment_size : Bool → GroupObject → ℤ → GroupObject
unfolding save_max_allotment_size
set_max_allotment_size saved g value =
    save_max_allotment_size saved
      (record g { memory = record g.memory { max_allotment_size = value } })

unfoldable pub set_max_logins : Bool → GroupObject → ℤ → GroupObject
unfolding save_max_logins
set_max_logins saved g value =
    save_max_logins saved (record g { memory = record g.memory { max_logins = value } })

-- The guard of `SetComment` assigns the description.
unfoldable pub set_comment : Bool → GroupObject → Str → GroupObject
unfolding save_comment
set_comment saved g value =
    save_comment saved (record g { memory = record g.memory { description = value } })

-- `SaveName` reports a name that is taken by false, and `Rename` puts the old one back.
unfoldable pub rename : Bool → GroupObject → Str → Bool × GroupObject
rename saved g name =
    if saved
    then (
      true,
      record { memory = record g.memory { name = name }; stored = record g.stored { name = name } },
    )
    else (false, g)
