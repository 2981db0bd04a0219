-- ===== src/Db/Names.antt =====
-- The two maps that src/db/user/usercache.cpp and src/db/group/groupcache.cpp both keep, from
-- identities to names and back, and what Replicate does to them.
pub mod Laws
use ebftpd.Prelude.{[], Option, none, some, ℤ, Str}
use ebftpd.Util.Map.{Map, find, erase, assign, id_key, name_key}

pub record Names : Type 0 where
  pub names : Map ℤ Str
  pub ids : Map Str ℤ

abbrev pub no_names : Names
no_names = record { names = []; ids = [] }

-- The entry is found in the database.
unfoldable pub learn : ℤ → Str → Names → Names
learn id name c = record { names = assign id name c.names; ids = assign name id c.ids }

-- It is not found, and was deleted.
unfoldable pub forget : ℤ → Names → Names
forget id c = elim (find id c.names) [
  | none ↦ c
  | some name ↦ record { names = erase id c.names; ids = erase name c.ids }
]
