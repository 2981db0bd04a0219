-- ===== src/Acl/Strength/Tests.antt =====
-- Strengths at concrete inputs.
use ebftpd.Prelude.{◌≡◌, refl, true, false, codes, has_any, has_char}
use ebftpd.Acl.Strength.{
  PasswdStrength, passwd_strength, passwd_allowed, ip_strength, few_octets, ip_allowed,
}
use ebftpd.Acl.Strength.Laws.{IsNumeric, octets}

abbrev minimum : PasswdStrength
minimum = record { upper_case = 1; lower_case = 2; length = 5; digits = 1; others = 0 }

strong : passwd_allowed minimum (passwd_strength (codes "Abc.7")) ≡ true
unfolding passwd_allowed passwd_strength
strong = refl

numeric : IsNumeric (codes "10.0.")
numeric = (refl, (refl, (refl, (refl, (refl, tt)))))

too_few : ip_allowed (octets 3 false true) (ip_strength (codes "me@10.0.*")) ≡ few_octets
unfolding ip_allowed ip_strength has_any has_char
too_few = refl
