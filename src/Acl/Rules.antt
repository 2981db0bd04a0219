-- ===== src/Acl/Rules.antt =====
-- src/acl/acl.cpp, acl.hpp, permission.cpp, permission.hpp and flags.cpp: rules such as
-- `1A -bob =team !*`, and their evaluation for a user.
-- A `boost::tribool` is an `Option Bool`, with `none` for indeterminate. `boost::split`, behind
-- `util::Split`, is the parameter `split` of `from_string`.
pub mod Laws
pub mod Tests
use ebftpd.Prelude.{
  ℕ, suc, ◌+◌, Bool, true, false, not, Option, none, some, List, [], ◌∷◌, map, Str, codes, str_eq,
  has_char, has_any, get_or, drop, ◌==◌, ◌&&◌, if◌then◌else◌,
}

-- The negation stands last; the class is the constructor.
pub data Permission : Type 0 where
  flag_permission : Str → Bool → Permission
  user_permission : Str → Bool → Permission
  group_permission : Str → Bool → Permission

pub record AclInfo : Type 0 where
  pub username : Str
  pub groupname : Str
  pub flags : Str

-- `final_result` is the mutable cache of `ACL`.
pub record Acl : Type 0 where
  pub perms : List Permission
  pub final_result : Option Bool

-- `if (info.flags has a character of flags)`, in the order of the source.
unfoldable pub flag_evaluate : Str → Bool → AclInfo → Option Bool
flag_evaluate flags negate info =
    if has_char b'*' flags
    then some (not negate)
    else if has_any flags info.flags
    then some (not negate)
    else none

unfoldable pub user_evaluate : Str → Bool → AclInfo → Option Bool
user_evaluate username negate info =
    if str_eq info.username username then some (not negate) else none

unfoldable pub group_evaluate : Str → Bool → AclInfo → Option Bool
group_evaluate groupname negate info =
    if str_eq info.groupname groupname then some (not negate) else none

unfoldable pub permission_evaluate : Permission → AclInfo → Option Bool
unfolding flag_evaluate user_evaluate group_evaluate
permission_evaluate (flag_permission flags negate) info = flag_evaluate flags negate info
permission_evaluate (user_permission name negate) info = user_evaluate name negate info
permission_evaluate (group_permission name negate) info = group_evaluate name negate info

-- The loop of `ACL::Evaluate`: the first determinate permission decides, and nobody is admitted by
-- none.
unfoldable pub first_result : List Permission → AclInfo → Bool
first_result [] info = false
first_result (p ∷ ps) info = elim (permission_evaluate p info) [
  | some b ↦ b
  | none ↦ first_result ps info
]

unfoldable pub evaluate : Acl → AclInfo → Bool × Acl
evaluate acl info = elim acl.final_result [
  | some b ↦ (b, acl)
  | none ↦ (
    first_result acl.perms info,
    record acl { final_result = some (first_result acl.perms info) },
  )
]

-- `ACL::FromStringArg`; reading `arg[arg.size()]` gives the character 0.
unfoldable pub from_string_arg : Str → Permission
from_string_arg arg =
    let negate = get_or arg 0 0 == b'!' in
    let n : ℕ = if negate then 1 else 0 in
    if get_or arg n 0 == b'-'
    then user_permission (drop (1 + n) arg) negate
    else if get_or arg n 0 == b'='
    then group_permission (drop (1 + n) arg) negate
    else flag_permission (drop n arg) negate

unfoldable pub fresh : List Permission → Acl
fresh ps = record { perms = ps; final_result = none }

unfoldable pub from_string : (Str → Str → Bool → List Str) → Str → Acl
unfolding fresh
from_string split str = fresh (map from_string_arg (split str (codes " ") true))

-- flags.cpp
abbrev pub valid_flag_chars : Str
valid_flag_chars = codes "12345678ABCDEFGHIJKLMN"

unfoldable pub valid_flags : Str → Bool
valid_flags [] = true
valid_flags (c ∷ cs) = has_char c valid_flag_chars && valid_flags cs
