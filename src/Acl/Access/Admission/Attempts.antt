-- ===== src/Acl/Access/Admission/Attempts.antt =====
-- What success of the traits of src/acl/path.cpp, and of Allowed, says.
use ebftpd.Prelude.{
  subst, ◌≡◌, ◌⊎◌, refl, ap, ◌∙◌, inl, inr, Bool, true, false, List, Str, eq_ℤ, eq_ℤ-iff,
  Bool-cases, arith,
}
use ebftpd.Util.FilePath.{dirname, basename}
use ebftpd.Acl.User.Data.{UserData}
use ebftpd.Acl.Config.{Privpath, RightKind, Config, same_kind, kind_code}
use ebftpd.Acl.Access.{
  Site, Access, Answer, success, enoent, or_else, permitted, with_slash, hidden_file,
  evaluate_rights, plain_allowed, owned_allowed, check_noretrieve, retrieved, download_allowed,
  view_allowed, trait_allowed, private_loop, private_path, allowed,
}
use ebftpd.Acl.Access.Laws.{judged, allowed-Passed}
use ebftpd.Acl.Access.Rights.{Governs, evaluate_loop_iff}
use ebftpd.Acl.Access.Admission.{
  AtHome, Open, Grants, OwnOr, NoneMatch, NoneHides, Permits, inside_home_dir-AtHome,
  private_loop-Open, any_matches-NoneMatch, hidden_loop-NoneHides,
}

module _ (site : Site) (user : UserData) (path : Str) where
  permitted-true : (r : Bool × Config) → (permitted r).0 ≡ success → r.0 ≡ true
  permitted-true (true, c) h = refl
  permitted-true (false, c) h = cc h

  permitted_config : (r : Bool × Config) → (permitted r).1 ≡ r.1
  permitted_config (true, c) = refl
  permitted_config (false, c) = refl

  plain_allowed-Grants :
      (kind : RightKind) (config : Config)
      → (plain_allowed site kind config user path).0 ≡ success
      → Grants site user path config kind
  unfolding plain_allowed evaluate_rights
  plain_allowed-Grants kind config h =
      (evaluate_loop_iff site user path (config.rights kind) true).0
        (permitted-true (evaluate_rights site config kind user path) h)

  -- An attempt leaves the other rights and the masks as they were.
  abbrev Leaves : (Config → UserData → Str → Answer × Config) → RightKind → Type 0
  Leaves f other =
      (c : Config)
      → ((f c user path).1.rights other ≡ c.rights other)
        × ((f c user path).1.noretrieve ≡ c.noretrieve)

  plain_allowed-Leaves :
      (own other : RightKind) → same_kind own other ≡ false → Leaves (plain_allowed site own) other
  unfolding plain_allowed evaluate_rights
  plain_allowed-Leaves own other d c =
      let r = evaluate_rights site c own user path in
      let now = permitted_config r in
      (ap (λ (x : Config). x.rights other) now ∙ rw (d) refl, ap (λ (x : Config). x.noretrieve) now)

  check_noretrieve-NoneMatch :
      (c : Config)
      → check_noretrieve site c path ≡ success
      → NoneMatch site user path c.noretrieve (basename path)
  unfolding check_noretrieve
  check_noretrieve-NoneMatch c h =
      any_matches-NoneMatch site user path c.noretrieve (basename path) (ground (arith, h))

  retrieved_success :
      (r : Answer × Config)
      → (retrieved site path r).0 ≡ success
      → (r.0 ≡ success) × (check_noretrieve site r.1 path ≡ success)
  retrieved_success (success, c) h = (refl, h)
  retrieved_success (Answer.eacces, c) h = cc h
  retrieved_success (Answer.enoent, c) h = cc h
  retrieved_success (Answer.einval, c) h = cc h

  retrieved_config : (r : Answer × Config) → (retrieved site path r).1 ≡ r.1
  retrieved_config (success, c) = refl
  retrieved_config (Answer.eacces, c) = refl
  retrieved_config (Answer.enoent, c) = refl
  retrieved_config (Answer.einval, c) = refl

  or_else_success :
      (r : Answer × Config) (f : Config → Answer × Config)
      → (or_else r f).0 ≡ success
      → (r.0 ≡ success) ⊎ ((f r.1).0 ≡ success)
  or_else_success (success, c) f h = inl refl
  or_else_success (Answer.eacces, c) f h = inr h
  or_else_success (Answer.enoent, c) f h = inr h
  or_else_success (Answer.einval, c) f h = inr h

  -- A trait that tries the right of an owner first, with a test that both attempts make.
  abbrev Asks :
      (Config → UserData → Str → Answer × Config) → RightKind → (List Str → Type 0) → Type 0
  Asks f kind Test =
      (c : Config) → (f c user path).0 ≡ success → Grants site user path c kind × Test c.noretrieve

  owned_allowed-OwnOr :
      (f g : Config → UserData → Str → Answer × Config) (own other : RightKind)
      (Test : List Str → Type 0)
      → Asks f own Test
      → Asks g other Test
      → Leaves f other
      → (c : Config) → (owned_allowed site f g c user path).0 ≡ success
      → OwnOr site user path c own other × Test c.noretrieve
  unfolding owned_allowed
  owned_allowed-OwnOr f g own other Test asks asks_other leaves c h =
      elim (Bool-cases (eq_ℤ (site.owner_uid path) user.id)) [
        | inr e ↦ let (k, t) = asks_other c (rw (e, owned_allowed) at h) in (inr k, t)
        | inl e ↦
            elim (or_else_success (f c user path) (λ d. g d user path)
              (rw (e, owned_allowed) at h)) [
                | inl k ↦
                    let (a, t) = asks c k in
                    (inl ((eq_ℤ-iff (site.owner_uid path) user.id).0 e, a), t)
                | inr k ↦
                    let (a, t) = asks_other (f c user path).1 k in
                    let (same, masks) = leaves c in
                    (inr (subst (λ rs. Governs site user path rs true) same a), subst Test masks t)
              ]
      ]

  owned_plain :
      (own other : RightKind)
      → same_kind own other ≡ false
      → (c : Config)
      → (owned_allowed site (plain_allowed site own) (plain_allowed site other) c user path).0
        ≡ success
      → OwnOr site user path c own other
  owned_plain own other d c h =
      (owned_allowed-OwnOr (plain_allowed site own) (plain_allowed site other) own other
        (λ masks. Unit) (λ x k. (plain_allowed-Grants own x k, tt))
        (λ x k. (plain_allowed-Grants other x k, tt)) (plain_allowed-Leaves own other d) c h).0

  download_allowed-Asks :
      (kind : RightKind)
      → Asks
          (download_allowed site kind)
          kind
          (λ masks. NoneMatch site user path masks (basename path))
  unfolding download_allowed
  download_allowed-Asks kind c h =
      let (k, t) = retrieved_success (plain_allowed site kind c user path) h in
      let same : (plain_allowed site kind c user path).1.noretrieve ≡ c.noretrieve =
        unfold plain_allowed evaluate_rights in
        ap (λ (x : Config). x.noretrieve)
          (permitted_config (evaluate_rights site c kind user path)) in
      (
        plain_allowed-Grants kind c k,
        subst (λ masks. NoneMatch site user path masks (basename path)) same
            (check_noretrieve-NoneMatch (plain_allowed site kind c user path).1 t),
      )

  download_allowed-Leaves :
      (own other : RightKind)
      → same_kind own other ≡ false
      → Leaves (download_allowed site own) other
  unfolding download_allowed
  download_allowed-Leaves own other d c =
      let now = retrieved_config (plain_allowed site own c user path) in
      let (rights, masks) = plain_allowed-Leaves own other d c in
      (
        ap (λ (x : Config). x.rights other) now ∙ rights,
        ap (λ (x : Config). x.noretrieve) now ∙ masks,
      )

  view_allowed-NoneHides :
      (c : Config)
      → (view_allowed site c path).0 ≡ success
      → NoneHides site user path c.hidden_files (with_slash (dirname path)) (basename path)
  unfolding view_allowed hidden_file
  view_allowed-NoneHides c h = elim (Bool-cases (hidden_file site c path)) [
    | inl e ↦ let bad : enoent ≡ success = rw (e, view_allowed) at h in cc bad
    | inr e ↦
        hidden_loop-NoneHides site user path c.hidden_files (with_slash (dirname path))
          (basename path) e
  ]

  -- The private paths have no part in it.
  trait_allowed-Permits :
      (type : Access) (c : Config) (pps : List Privpath)
      → (trait_allowed site type (record c { privpath = pps }) user path).0 ≡ success
      → Permits site user path type c
  unfolding trait_allowed kind_code
  trait_allowed-Permits Access.upload c pps h =
      plain_allowed-Grants RightKind.upload (record c { privpath = pps }) h
  trait_allowed-Permits Access.resume c pps h =
      owned_plain RightKind.resumeown RightKind.resume refl (record c { privpath = pps }) h
  trait_allowed-Permits Access.overwrite c pps h =
      owned_plain RightKind.overwriteown RightKind.overwrite refl (record c { privpath = pps }) h
  trait_allowed-Permits Access.makedir c pps h =
      plain_allowed-Grants RightKind.makedir (record c { privpath = pps }) h
  trait_allowed-Permits Access.download c pps h =
      owned_allowed-OwnOr (download_allowed site RightKind.downloadown)
        (download_allowed site RightKind.download) RightKind.downloadown RightKind.download
        (λ masks. NoneMatch site user path masks (basename path))
        (download_allowed-Asks RightKind.downloadown) (download_allowed-Asks RightKind.download)
        (download_allowed-Leaves RightKind.downloadown RightKind.download refl)
        (record c { privpath = pps }) h
  trait_allowed-Permits Access.rename c pps h =
      owned_plain RightKind.renameown RightKind.rename refl (record c { privpath = pps }) h
  trait_allowed-Permits Access.move c pps h =
      owned_plain RightKind.moveown RightKind.move refl (record c { privpath = pps }) h
  trait_allowed-Permits Access.nuke c pps h =
      plain_allowed-Grants RightKind.nuke (record c { privpath = pps }) h
  trait_allowed-Permits Access.delete c pps h =
      owned_plain RightKind.deleteown RightKind.delete refl (record c { privpath = pps }) h
  trait_allowed-Permits Access.view c pps h = view_allowed-NoneHides (record c { privpath = pps }) h
  trait_allowed-Permits Access.hideinwho c pps h =
      plain_allowed-Grants RightKind.hideinwho (record c { privpath = pps }) h
  trait_allowed-Permits Access.freefile c pps h =
      plain_allowed-Grants RightKind.freefile (record c { privpath = pps }) h
  trait_allowed-Permits Access.nostats c pps h =
      plain_allowed-Grants RightKind.nostats (record c { privpath = pps }) h
  trait_allowed-Permits Access.hideowner c pps h =
      plain_allowed-Grants RightKind.hideowner (record c { privpath = pps }) h
  trait_allowed-Permits Access.modify c pps h =
      owned_plain RightKind.modifyown RightKind.modify refl (record c { privpath = pps }) h

  -- What lets a user at a path.
  abbrev pub Admitted : Access → Config → Type 0
  Admitted type config =
      AtHome site user path
      × Open site user path config.privpath
      × Permits site user path type config

-- Success of a kind of access to a path says of the path, which for a directory has a slash at its
-- end: it goes on after the user's home directory; the first private path that it begins with, if
-- there is one, has rules that admit the user; and the first right of the kind whose pattern
-- matches it, or where he owns it the first such right of owners, has rules that do. For a download
-- no mask of files that are not to be retrieved matches its name, and viewing asks in place of a
-- right that no mask of the hidden files of its directory does. Rules that were evaluated before
-- admit as they did then.
pub allowed-Admitted :
    (site : Site) (type : Access) (config : Config) (user : UserData) (path : Str)
    → (allowed site type config user path).0 ≡ success
    → Admitted site user (judged site path) type config
unfolding private_path
allowed-Admitted site type config user path h =
    let at = judged site path in
    let (home, hidden, trait) = allowed-Passed site type config user path h in
    (
      inside_home_dir-AtHome site user at home,
      private_loop-Open site user at config.privpath hidden,
      trait_allowed-Permits site user at type config (private_loop site config.privpath user at).1
          trait,
    )
