-- ===== src/Acl/Access/Admission.antt =====
-- Who is let through by src/acl/path.cpp, said without its loops.
pub mod Attempts
use ebftpd.Prelude.{
  subst, ◌≡◌, ◌≢◌, ◌⊎◌, refl, sym, ap, ◌∙◌, inl, inr, Bool, true, false, not, List, [], ◌∷◌, ◌++◌,
  Str, starts_with, eq_ℤ, eq_ℤ-iff, ◌==◌, ==_iff, ◌&&◌, if◌then◌else◌, Bool-cases, arith,
}
use ebftpd.Util.FilePath.{dirname, basename, back, is_nil, slash}
use ebftpd.Acl.Rules.{evaluate}
use ebftpd.Acl.User.Data.{UserData}
use ebftpd.Acl.Config.{Right, HiddenFiles, Privpath, RightKind, Config, same_kind, kind_code}
use ebftpd.Acl.Access.{
  Site, Access, Answer, success, eacces, enoent, or_else, permitted, matches, any_matches, acl_info,
  with_slash, inside_home_dir, hidden_loop, hidden_file, evaluate_loop, evaluate_rights,
  plain_allowed, owned_allowed, check_noretrieve, retrieved, download_allowed, view_allowed,
  trait_allowed, private_loop, private_path, allowed,
}
use ebftpd.Acl.Access.Laws.{judged, allowed-Passed}
use ebftpd.Acl.Access.Rights.{Governs, evaluate_loop_iff}

-- The text goes on after a prefix.
abbrev pub Extends : Str → Str → Type 0
Extends s prefix = (rest : Str) × (s ≡ prefix ++ rest)

starts_with-Extends : (s prefix : Str) → starts_with s prefix ≡ true → Extends s prefix
unfolding starts_with
starts_with-Extends s [] h = (s, refl)
starts_with-Extends [] (p ∷ ps) h = cc h
starts_with-Extends (x ∷ xs) (p ∷ ps) h =
    let (rest, e) = starts_with-Extends xs ps (ground (arith, h)) in
    let same : x ≡ p = (==_iff x p).0 (ground (arith, h)) in
    (rest, ap (λ y. y ∷ xs) same ∙ ap (λ t. p ∷ t) e)

module _ (site : Site) (user : UserData) (path : Str) where
  -- The path lies in the user's home directory, which is set.
  abbrev pub AtHome : Type 0
  AtHome = (is_nil user.home_dir ≡ false) × Extends path (with_slash user.home_dir)

  pub inside_home_dir-AtHome : inside_home_dir user path ≡ true → AtHome
  unfolding inside_home_dir
  inside_home_dir-AtHome h = elim (Bool-cases (is_nil user.home_dir)) [
    | inl e ↦ cc (rw (e, inside_home_dir) at h)
    | inr e ↦
        (e, starts_with-Extends path (with_slash user.home_dir) (rw (e, inside_home_dir) at h))
  ]

  -- The first private path that the path begins with, if there is one, has rules that admit the
  -- user.
  pub data Open : List Privpath → Type 0 where
    no_private_path : Open []
    members :
        (pp : Privpath) (pps : List Privpath)
        → Extends path pp.path
        → (evaluate pp.acl (acl_info site user)).0 ≡ true
        → Open (pp ∷ pps)
    elsewhere :
        (pp : Privpath) (pps : List Privpath)
        → starts_with path pp.path ≡ false
        → Open pps
        → Open (pp ∷ pps)

  pub private_loop-Open :
      (pps : List Privpath) → (private_loop site pps user path).0 ≡ false → Open pps
  unfolding private_loop
  private_loop-Open [] h = no_private_path
  private_loop-Open (pp ∷ pps) h = elim (Bool-cases (starts_with path pp.path)) [
    | inl e ↦
        members pp pps (starts_with-Extends path pp.path e)
          (ground (arith, rw (e, private_loop) at h))
    | inr e ↦ elsewhere pp pps e (private_loop-Open pps (rw (e, private_loop) at h))
  ]

  -- The first right of the kind whose pattern matches the path has rules that admit the user.
  abbrev pub Grants : Config → RightKind → Type 0
  Grants config kind = Governs site user path (config.rights kind) true

  -- The owner of the path has his right to it, or the user has the one to all paths.
  abbrev pub OwnOr : Config → RightKind → RightKind → Type 0
  OwnOr config own other =
      ((site.owner_uid path ≡ user.id) × Grants config own) ⊎ Grants config other

  -- No mask matches.
  abbrev pub NoneMatch : List Str → Str → Type 0
  NoneMatch [] s = Unit
  NoneMatch (m ∷ ms) s = (matches site m s ≡ false) × NoneMatch ms s

  -- No entry for the directory has a mask for the name.
  abbrev pub NoneHides : List HiddenFiles → Str → Str → Type 0
  NoneHides [] dir base = Unit
  NoneHides (h ∷ hs) dir base =
      ((matches site h.path dir ≡ false) ⊎ NoneMatch h.masks base) × NoneHides hs dir base

  pub any_matches-NoneMatch :
      (ms : List Str) (s : Str) → any_matches site ms s ≡ false → NoneMatch ms s
  unfolding any_matches
  any_matches-NoneMatch [] s h = tt
  any_matches-NoneMatch (m ∷ ms) s h = elim (Bool-cases (matches site m s)) [
    | inl e ↦ cc (rw (e, any_matches) at h)
    | inr e ↦ (e, any_matches-NoneMatch ms s (rw (e, any_matches) at h))
  ]

  pub hidden_loop-NoneHides :
      (hs : List HiddenFiles) (dir base : Str)
      → hidden_loop site hs dir base ≡ false
      → NoneHides hs dir base
  unfolding hidden_loop
  hidden_loop-NoneHides [] dir base h = tt
  hidden_loop-NoneHides (x ∷ hs) dir base h = elim (Bool-cases (matches site x.path dir)) [
    | inr e ↦ (inl e, hidden_loop-NoneHides hs dir base (rw (e, hidden_loop) at h))
    | inl e ↦ elim (Bool-cases (any_matches site x.masks base)) [
      | inl f ↦ cc (rw (e, f, hidden_loop) at h)
      | inr f ↦ (
        inr (any_matches-NoneMatch x.masks base f),
        hidden_loop-NoneHides hs dir base (rw (e, f, hidden_loop) at h),
      )
    ]
  ]

  -- What each kind of access asks for.
  abbrev pub Permits : Access → Config → Type 0
  Permits Access.upload config = Grants config RightKind.upload
  Permits Access.resume config = OwnOr config RightKind.resumeown RightKind.resume
  Permits Access.overwrite config = OwnOr config RightKind.overwriteown RightKind.overwrite
  Permits Access.makedir config = Grants config RightKind.makedir
  Permits Access.download config =
      OwnOr config RightKind.downloadown RightKind.download
      × NoneMatch config.noretrieve (basename path)
  Permits Access.rename config = OwnOr config RightKind.renameown RightKind.rename
  Permits Access.move config = OwnOr config RightKind.moveown RightKind.move
  Permits Access.nuke config = Grants config RightKind.nuke
  Permits Access.delete config = OwnOr config RightKind.deleteown RightKind.delete
  Permits Access.view config =
      NoneHides config.hidden_files (with_slash (dirname path)) (basename path)
  Permits Access.hideinwho config = Grants config RightKind.hideinwho
  Permits Access.freefile config = Grants config RightKind.freefile
  Permits Access.nostats config = Grants config RightKind.nostats
  Permits Access.hideowner config = Grants config RightKind.hideowner
  Permits Access.modify config = OwnOr config RightKind.modifyown RightKind.modify
