-- ===== src/Acl/Misc/Tests.antt =====
-- The lookups at concrete inputs.
use ebftpd.Prelude.{ℕ, Bool, false, List, [], ◌∷◌, Str, codes, str_eq, pos, if◌then◌else◌}
use ebftpd.Acl.Rules.{AclInfo, Permission, flag_permission}
use ebftpd.Acl.Strength.{PasswdStrength}
use ebftpd.Acl.Misc.{SpeedLimit}

abbrev everyone : List Permission
everyone = flag_permission (codes "*") false ∷ []

abbrev bob : AclInfo
bob = record { username = codes "bob"; groupname = codes "team"; flags = codes "3" }

abbrev strict : PasswdStrength
strict = record { upper_case = 1; lower_case = 2; length = 5; digits = 1; others = 0 }

abbrev rules : List (List Permission × PasswdStrength)
rules = (everyone, strict) ∷ []

abbrev same_text : Str → Str → Bool → ℕ
same_text pattern s fold = if str_eq pattern s then 0 else 1

abbrev slow : SpeedLimit
slow = record { path = codes "/site"; downloads = pos 100; uploads = pos 5 }
