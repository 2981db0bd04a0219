-- ===== src/Acl/Rules/Tests.antt =====
-- Rules at concrete inputs.
use ebftpd.Prelude.{◌≡◌, ◌↔◌, refl, true, false, List, [], ◌∷◌, codes, str_eq, has_char, has_any}
use ebftpd.Acl.Rules.{
  Permission, flag_permission, user_permission, AclInfo, evaluate, fresh, from_string_arg,
  first_result, permission_evaluate,
}
use ebftpd.Acl.Rules.Laws.{
  Decides, evaluate-fresh_iff, from_string_arg-permission_text, permission_text,
}

abbrev bob : AclInfo
bob = record { username = codes "bob"; groupname = codes "team"; flags = codes "3A" }

abbrev eve : AclInfo
eve = record { username = codes "eve"; groupname = codes "out"; flags = [] }

abbrev rules : List Permission
rules = user_permission (codes "eve") true ∷ flag_permission (codes "1A") false ∷ []

evaluate-fresh_iff_example : ((evaluate (fresh rules) bob).0 ≡ true) ↔ Decides bob rules true
evaluate-fresh_iff_example = evaluate-fresh_iff rules bob true

-- Bob has the flag A; Eve is refused by name, unless Bob was judged before.
bob_enters : (evaluate (fresh rules) bob).0 ≡ true
unfolding evaluate fresh first_result permission_evaluate str_eq has_char has_any
bob_enters = refl

eve_stays_out : (evaluate (fresh rules) eve).0 ≡ false
unfolding evaluate fresh first_result permission_evaluate str_eq
eve_stays_out = refl

from_string_arg-permission_text_example :
    from_string_arg (permission_text (user_permission (codes "eve") true))
    ≡ user_permission (codes "eve") true
from_string_arg-permission_text_example =
    from_string_arg-permission_text (user_permission (codes "eve") true) tt
