-- ===== src/Acl/User/Password.antt =====
-- The password of a user, src/acl/user.cpp over util/util/passwd.cpp. The parameter `hash_password`
-- is HashPassword, and `raw_salt` what GenerateSalt returned, both of which come from OpenSSL.
pub mod Laws
use ebftpd.Prelude.{Bool, Str, str_eq}
use ebftpd.Util.Passwd.{hex_encode, hex_decode}
use ebftpd.Acl.User.Data.{UserData, Outcome, commit}

module _ (hash_password : Str → Str → Str) where
  unfoldable pub verify_password : UserData → Str → Bool
  verify_password u password =
      str_eq (hex_encode (hash_password password (hex_decode u.salt))) u.password

  unfoldable pub set_password_no_save : UserData → Str → Str → UserData
  set_password_no_save u raw_salt password = record u {
    password = hex_encode (hash_password password raw_salt);
    salt = hex_encode raw_salt;
  }

  unfoldable pub set_password : Bool → UserData → Str → Str → Outcome UserData
  unfolding set_password_no_save
  set_password saved u raw_salt password =
      let new = set_password_no_save u raw_salt password in commit saved new
