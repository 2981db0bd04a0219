-- ===== src/Acl/Access/Laws.antt =====
-- What an answer of success means in src/acl/path.cpp.
use ebftpd.Prelude.{
  ◌≡◌, refl, subst, inl, inr, Bool, true, false, [], ◌∷◌, ◌++◌, Str, eq_ℤ, Bool-cases,
  if◌then◌else◌, ◌==◌, arith,
}
use ebftpd.Util.FilePath.{basename, back, is_nil, slash}
use ebftpd.Acl.User.Data.{UserData}
use ebftpd.Acl.Config.{Config, RightKind, downloadown}
use ebftpd.Acl.Access.{
  Site, Access, Answer, success, eacces, enoent, einval, or_else, any_matches, private_path,
  inside_home_dir, inner_allowed, file_allowed, dir_allowed, allowed, trait_allowed, plain_allowed,
  owned_allowed, download_allowed, permitted, retrieved, evaluate_rights, check_noretrieve,
}

-- The path that is judged: a directory's has a slash at its end.
abbrev pub judged : Site → Str → Str
judged site path =
    if site.is_directory path
    then (if back path == slash then path else path ++ slash ∷ [])
    else path

-- What success says of a path as it is judged.
abbrev pub Passed : Site → Access → Config → UserData → Str → Type 0
Passed site type config user path =
    (inside_home_dir user path ≡ true)
    × ((private_path site config user path).0 ≡ false)
    × ((trait_allowed site type (private_path site config user path).1 user path).0 ≡ success)

inner_allowed-Passed :
    (site : Site) (type : Access) (config : Config) (user : UserData) (path : Str)
    → (inner_allowed site type config user path).0 ≡ success
    → Passed site type config user path
unfolding inner_allowed
inner_allowed-Passed site type config user path h = elim (Bool-cases (inside_home_dir user path)) [
  | inl e ↦ elim (Bool-cases (private_path site config user path).0) [
    | inl f ↦ absurd (clash (rw (e, f, inner_allowed) at h))
    | inr f ↦ (e, f, rw (e, f, inner_allowed) at h)
  ]
  | inr e ↦ absurd (refused (rw (e, inner_allowed) at h))
]
  where
    clash : enoent ≡ success → ⊥
    clash e = cc

    refused : eacces ≡ success → ⊥
    refused e = cc

-- Success on a path, whether it is a directory or not, is success on the path as it is judged: it
-- lies in the user's home directory, no private path keeps the user out, and the rights of the
-- kind of access, or for viewing the hidden files, allow it.
pub allowed-Passed :
    (site : Site) (type : Access) (config : Config) (user : UserData) (path : Str)
    → (allowed site type config user path).0 ≡ success
    → Passed site type config user (judged site path)
unfolding allowed dir_allowed file_allowed
allowed-Passed site type config user path h = elim (Bool-cases (site.is_directory path)) [
  | inl d ↦ rw d (directory (rw (d, allowed) at h))
  | inr f ↦ rw f (inner_allowed-Passed site type config user path (rw (f, allowed) at h))
]
  where
    refused : einval ≡ success → ⊥
    refused e = cc

    directory :
        (dir_allowed site type config user path).0 ≡ success
        → Passed site type config user (if back path == slash then path else path ++ slash ∷ [])
    directory h = elim (Bool-cases (is_nil path)) [
      | inl e ↦ absurd (refused (rw (e, dir_allowed) at h))
      | inr e ↦ elim (Bool-cases (back path == slash)) [
        | inl b ↦
            rw b (inner_allowed-Passed site type config user path (rw (e, b, dir_allowed) at h))
        | inr b ↦ rw b (
            inner_allowed-Passed site type config user (path ++ slash ∷ [])
              (rw (e, b, dir_allowed) at h))
      ]
    ]

module _ (site : Site) (user : UserData) (path : Str) where
  abbrev Retrievable : Config → Type 0
  Retrievable config = any_matches site config.noretrieve (basename path) ≡ false

  check_noretrieve_lem :
      (config : Config) → check_noretrieve site config path ≡ success → Retrievable config
  unfolding check_noretrieve
  check_noretrieve_lem config h = ground arith

  -- The check of the masks behind a right, and the masks that it leaves.
  retrieved_lem :
      (config : Config) (r : Bool × Config)
      → r.1.noretrieve ≡ config.noretrieve
      → (retrieved site path (permitted r)).0 ≡ success
      → Retrievable config
  retrieved_lem config (true, c) same h =
      subst (λ masks. any_matches site masks (basename path) ≡ false) same
        (check_noretrieve_lem c h)
  retrieved_lem config (false, c) same h = absurd (refused h)
    where
      refused : eacces ≡ success → ⊥
      refused e = cc

  noretrieve-retrieved :
      (r : Bool × Config) → (retrieved site path (permitted r)).1.noretrieve ≡ r.1.noretrieve
  noretrieve-retrieved (true, c) = refl
  noretrieve-retrieved (false, c) = refl

  download_attempt :
      (kind : RightKind) (config : Config)
      → (download_allowed site kind config user path).0 ≡ success
      → Retrievable config
  unfolding download_allowed plain_allowed evaluate_rights
  download_attempt kind config h =
      retrieved_lem config (evaluate_rights site config kind user path) refl h

  noretrieve-download_allowed :
      (kind : RightKind) (config : Config)
      → (download_allowed site kind config user path).1.noretrieve ≡ config.noretrieve
  unfolding download_allowed plain_allowed evaluate_rights
  noretrieve-download_allowed kind config =
      noretrieve-retrieved (evaluate_rights site config kind user path)

  second_attempt :
      (config : Config) (first : Answer × Config)
      → (first.0 ≡ success → Retrievable config)
      → first.1.noretrieve ≡ config.noretrieve
      → (or_else first (λ c. download_allowed site RightKind.download c user path)).0 ≡ success
      → Retrievable config
  second_attempt config (success, c) own same h = own refl
  second_attempt config (eacces, c) own same h =
      subst (λ masks. any_matches site masks (basename path) ≡ false) same
        (download_attempt RightKind.download c h)
  second_attempt config (enoent, c) own same h =
      subst (λ masks. any_matches site masks (basename path) ≡ false) same
        (download_attempt RightKind.download c h)
  second_attempt config (einval, c) own same h =
      subst (λ masks. any_matches site masks (basename path) ≡ false) same
        (download_attempt RightKind.download c h)

  download_trait :
      (config : Config)
      → (trait_allowed site Access.download config user path).0 ≡ success
      → Retrievable config
  unfolding trait_allowed owned_allowed
  download_trait config h = elim (Bool-cases (eq_ℤ (site.owner_uid path) user.id)) [
    | inl e ↦
        second_attempt config (download_allowed site downloadown config user path)
          (download_attempt downloadown config) (noretrieve-download_allowed downloadown config)
          (rw (e, owned_allowed) at h)
    | inr e ↦ download_attempt RightKind.download config (rw (e, owned_allowed) at h)
  ]

-- A file is downloaded only if its base name matches none of the masks of the configuration that
-- are not to be retrieved, whether the user owns it or not.
pub download_allowed_lem :
    (site : Site) (config : Config) (user : UserData) (path : Str)
    → (file_allowed site Access.download config user path).0 ≡ success
    → any_matches site config.noretrieve (basename path) ≡ false
unfolding file_allowed private_path
download_allowed_lem site config user path h =
    download_trait site user path (private_path site config user path).1
      (inner_allowed-Passed site Access.download config user path h).2
