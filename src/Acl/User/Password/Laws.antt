-- ===== src/Acl/User/Password/Laws.antt =====
-- Which passwords a user is let in with, after one was set and after that failed.
use ebftpd.Prelude.{◌≡◌, ◌↔◌, refl, true, Str, str_eq_refl, str_eq_sound}
use ebftpd.Util.Passwd.Laws.{IsBytes, hex_decode-hex_encode, hex_encode-injective}
use ebftpd.Acl.User.Data.{UserData, returned, commit}
use ebftpd.Acl.User.Password.{verify_password, set_password_no_save, set_password}

-- HashPassword returns bytes.
module _ (hash_password : Str → Str → Str)
    (bytes : (password salt : Str) → IsBytes (hash_password password salt)) where
  verify_password_iff :
      (u : UserData) (p q raw_salt : Str)
      → IsBytes raw_salt
      → (verify_password hash_password (set_password_no_save hash_password u raw_salt p) q ≡ true)
        ↔ (hash_password q raw_salt ≡ hash_password p raw_salt)
  unfolding verify_password set_password_no_save
  verify_password_iff u p q raw_salt b = (
    (λ h.
        hex_encode-injective _ _ (bytes q raw_salt) (bytes p raw_salt)
          (str_eq_sound _ _ (rw (hex_decode-hex_encode raw_salt b) at h))),
    (λ e. rw (hex_decode-hex_encode raw_salt b, e) (str_eq_refl _)),
  )

  -- When a password is set with a fresh salt and the write succeeds, a password verifies exactly
  -- when it has the hash of the new one under that salt, provided that HashPassword and the salt
  -- consist of bytes.
  pub set_password-verify_password_iff :
      (u : UserData) (p q raw_salt : Str)
      → IsBytes raw_salt
      → (v : UserData) × (set_password hash_password true u raw_salt p ≡ returned v)
        × ((verify_password hash_password v q ≡ true)
            ↔ (hash_password q raw_salt ≡ hash_password p raw_salt))
  unfolding set_password commit
  set_password-verify_password_iff u p q raw_salt b =
      (set_password_no_save hash_password u raw_salt p, refl, verify_password_iff u p q raw_salt b)
