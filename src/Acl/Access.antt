-- ===== src/Acl/Access.antt =====
-- src/acl/path.cpp and path.hpp: what a user may do with a path. A rule list caches its verdict
-- when it is evaluated, so each function returns the configuration too, as the evaluation leaves
-- it. The record Site holds what the functions ask of the file system, the database and the
-- libraries.
pub mod Laws
pub mod Rights
pub mod Admission
pub mod Tests
use ebftpd.Prelude.{
  ℕ, Bool, true, false, not, Option, none, some, List, [], ◌∷◌, ◌++◌, Str, codes, starts_with, ℤ,
  eq_ℤ, minus_one, ◌==◌, ◌&&◌, if◌then◌else◌,
}
use ebftpd.Util.Wildcard.{Fnmatch, wildcard_match}
use ebftpd.Util.FilePath.{dirname, basename, back, is_nil, slash}
use ebftpd.Acl.Rules.{Acl, AclInfo, evaluate}
use ebftpd.Acl.User.Data.{UserData}
use ebftpd.Acl.Config.{Right, HiddenFiles, Privpath, PathFilter, RightKind, same_kind, Config}

-- `Type` of path.hpp.
pub data Access : Type 0 where
  upload resume overwrite makedir download rename move nuke delete view hideinwho : Access
  freefile nostats hideowner modify : Access

-- fnmatch; boost::replace_all of a text, a pattern and its replacement; boost::regex_match of a
-- text and a pattern; GIDToName; the owner of the real path of a virtual one; and whether that is a
-- directory.
pub record Site : Type 0 where
  pub fnmatch : Fnmatch
  pub replace_all : Str → Str → Str → Str
  pub regex_match : Str → Str → Bool
  pub gid_to_name : ℤ → Str
  pub owner_uid : Str → ℤ
  pub is_directory : Str → Bool

-- util::Error
pub data Answer : Type 0 where
  success eacces enoent einval : Answer

abbrev pub is_success : Answer → Bool
is_success success = true
is_success _ = false

abbrev pub permitted : Bool × Config → Answer × Config
permitted (true, config) = (success, config)
permitted (false, config) = (eacces, config)

-- A second attempt, in the configuration that the first one left.
abbrev pub or_else : Answer × Config → (Config → Answer × Config) → Answer × Config
or_else (success, config) other = (success, config)
or_else (_, config) other = other config

abbrev pub with_slash : Str → Str
with_slash s = if back s == slash then s else s ++ slash ∷ []

unfoldable pub inside_home_dir : UserData → Str → Bool
inside_home_dir user path =
    if is_nil user.home_dir then false else starts_with path (with_slash user.home_dir)

unfoldable pub inside_start_up_dir : UserData → Str → Bool
inside_start_up_dir user path =
    if is_nil user.start_up_dir then false else starts_with path (with_slash user.start_up_dir)

module _ (site : Site) where
  unfoldable pub acl_info : UserData → AclInfo
  acl_info user = record {
    username = user.name;
    groupname = site.gid_to_name user.primary_gid;
    flags = user.flags;
  }

  abbrev pub matches : Str → Str → Bool
  matches pattern s = wildcard_match site.fnmatch pattern s false

  unfoldable pub any_matches : List Str → Str → Bool
  any_matches [] s = false
  any_matches (m ∷ ms) s = if matches m s then true else any_matches ms s

  unfoldable pub hidden_loop : List HiddenFiles → Str → Str → Bool
  unfolding any_matches
  hidden_loop [] dir base = false
  hidden_loop (h ∷ hs) dir base =
      if (if matches h.path dir then any_matches h.masks base else false)
      then true
      else hidden_loop hs dir base

  unfoldable pub hidden_file : Config → Str → Bool
  unfolding hidden_loop
  hidden_file config path =
      let dir = dirname path in
      hidden_loop config.hidden_files (if back dir == slash then dir else dir ++ slash ∷ [])
        (basename path)

  -- The group that `[:groupname:]` stands for, read at the first right with a special variable.
  abbrev pub group_of : Bool → Str → UserData → Str
  group_of first_special group user =
      if first_special
      then if eq_ℤ user.primary_gid minus_one then group else site.gid_to_name user.primary_gid
      else group

  unfoldable pub special_path : Right → UserData → Str → Str
  special_path right user group =
      let named = site.replace_all right.path (codes "[:username:]") user.name in
      if is_nil group then named else site.replace_all named (codes "[:groupname:]") group

  -- The loop of `Evaluate`: the first right whose path matches decides.
  unfoldable pub evaluate_loop : Bool → Str → List Right → UserData → Str → Bool × List Right
  unfolding acl_info special_path
  evaluate_loop first_special group [] user path = (false, [])
  evaluate_loop first_special group (r ∷ rs) user path =
      let group' = if r.special_var then group_of first_special group user else group in
      let pattern = if r.special_var then special_path r user group' else r.path in
      let verdict = evaluate r.acl (acl_info user) in
      let rest =
        evaluate_loop (if r.special_var then false else first_special) group' rs user path in
      if matches pattern path
      then (verdict.0, record r { acl = verdict.1 } ∷ rs)
      else (rest.0, r ∷ rest.1)

  -- `Evaluate` on one kind of right. The other kinds are as they were.
  unfoldable pub evaluate_rights : Config → RightKind → UserData → Str → Bool × Config
  evaluate_rights config kind user path =
      let r = evaluate_loop true [] (config.rights kind) user path in
      (r.0, record config { rights = λ k. if same_kind kind k then r.1 else config.rights k })

  -- The traits that evaluate one kind of right.
  unfoldable pub plain_allowed : RightKind → Config → UserData → Str → Answer × Config
  plain_allowed kind config user path = permitted (evaluate_rights config kind user path)

  -- The traits that try the right of an owner first.
  unfoldable pub owned_allowed :
      (Config → UserData → Str → Answer × Config)
      → (Config → UserData → Str → Answer × Config)
      → Config
      → UserData
      → Str
      → Answer × Config
  owned_allowed own other config user path =
      if eq_ℤ (site.owner_uid path) user.id
      then or_else (own config user path) (λ c. other c user path)
      else other config user path

  unfoldable pub check_noretrieve : Config → Str → Answer
  check_noretrieve config path =
      if any_matches config.noretrieve (basename path) then eacces else success

  abbrev pub retrieved : Str → Answer × Config → Answer × Config
  retrieved path (success, config) = (check_noretrieve config path, config)
  retrieved path (e, config) = (e, config)

  unfoldable pub download_allowed : RightKind → Config → UserData → Str → Answer × Config
  download_allowed kind config user path = retrieved path (plain_allowed kind config user path)

  unfoldable pub view_allowed : Config → Str → Answer × Config
  view_allowed config path = if hidden_file config path then (enoent, config) else (success, config)

  -- `Traits<type>::Allowed`
  unfoldable pub trait_allowed : Access → Config → UserData → Str → Answer × Config
  trait_allowed Access.upload = plain_allowed RightKind.upload
  trait_allowed Access.resume =
      owned_allowed (plain_allowed RightKind.resumeown) (plain_allowed RightKind.resume)
  trait_allowed Access.overwrite =
      owned_allowed (plain_allowed RightKind.overwriteown) (plain_allowed RightKind.overwrite)
  trait_allowed Access.makedir = plain_allowed RightKind.makedir
  trait_allowed Access.download =
      owned_allowed (download_allowed RightKind.downloadown) (download_allowed RightKind.download)
  trait_allowed Access.rename =
      owned_allowed (plain_allowed RightKind.renameown) (plain_allowed RightKind.rename)
  trait_allowed Access.move =
      owned_allowed (plain_allowed RightKind.moveown) (plain_allowed RightKind.move)
  trait_allowed Access.nuke = plain_allowed RightKind.nuke
  trait_allowed Access.delete =
      owned_allowed (plain_allowed RightKind.deleteown) (plain_allowed RightKind.delete)
  trait_allowed Access.view = λ config user path. view_allowed config path
  trait_allowed Access.hideinwho = plain_allowed RightKind.hideinwho
  trait_allowed Access.freefile = plain_allowed RightKind.freefile
  trait_allowed Access.nostats = plain_allowed RightKind.nostats
  trait_allowed Access.hideowner = plain_allowed RightKind.hideowner
  trait_allowed Access.modify =
      owned_allowed (plain_allowed RightKind.modifyown) (plain_allowed RightKind.modify)

  -- The loop of `PrivatePath`: the first private path that the path begins with decides.
  unfoldable pub private_loop : List Privpath → UserData → Str → Bool × List Privpath
  unfolding acl_info
  private_loop [] user path = (false, [])
  private_loop (pp ∷ pps) user path =
      let verdict = evaluate pp.acl (acl_info user) in
      let rest = private_loop pps user path in
      if starts_with path pp.path
      then (not verdict.0, record pp { acl = verdict.1 } ∷ pps)
      else (rest.0, pp ∷ rest.1)

  unfoldable pub private_path : Config → UserData → Str → Bool × Config
  unfolding private_loop
  private_path config user path =
      let r = private_loop config.privpath user path in (r.0, record config { privpath = r.1 })

  -- `InnerAllowed`. It tests the home directory twice; the start-up directory is not asked.
  unfoldable pub inner_allowed : Access → Config → UserData → Str → Answer × Config
  inner_allowed type config user path =
      if not (inside_home_dir user path)
      then (eacces, config)
      else if not (inside_home_dir user path)
      then (enoent, config)
      else let hidden = private_path config user path in
        if hidden.0 then (enoent, hidden.1) else trait_allowed type hidden.1 user path

  unfoldable pub file_allowed : Access → Config → UserData → Str → Answer × Config
  file_allowed type config user path = inner_allowed type config user path

  unfoldable pub dir_allowed : Access → Config → UserData → Str → Answer × Config
  dir_allowed type config user path =
      if is_nil path
      then (einval, config)
      else if not (back path == slash)
      then inner_allowed type config user (path ++ slash ∷ [])
      else inner_allowed type config user path

  unfoldable pub allowed : Access → Config → UserData → Str → Answer × Config
  allowed type config user path =
      if site.is_directory path
      then dir_allowed type config user path
      else file_allowed type config user path

  -- The loop of `Filter`: only the first filter whose rules admit the user is applied.
  unfoldable pub filter_loop : List PathFilter → UserData → Str → Answer × List PathFilter
  unfolding acl_info
  filter_loop [] user base = (success, [])
  filter_loop (f ∷ fs) user base =
      let verdict = evaluate f.acl (acl_info user) in
      let rest = filter_loop fs user base in
      let used : PathFilter = record f { acl = verdict.1 } in
      if verdict.0
      then (if site.regex_match base f.regex then success else eacces, used ∷ fs)
      else (rest.0, used ∷ rest.1)

  unfoldable pub filter : Config → UserData → Str → Answer × Config
  unfolding filter_loop
  filter config user base =
      let r = filter_loop config.path_filter user base in (r.0, record config { path_filter = r.1 })
