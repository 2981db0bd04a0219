-- ===== src/Acl/Config.antt =====
-- What access control reads of the configuration, src/cfg/setting.hpp and the settings of
-- src/cfg/config.hpp.
use ebftpd.Prelude.{ℕ, Bool, List, Str, ◌==◌}
use ebftpd.Acl.Rules.{Acl}

-- cfg::Right, cfg::HiddenFiles, cfg::Privpath and cfg::PathFilter, of src/cfg/setting.hpp.
pub record Right : Type 0 where
  pub path : Str
  pub acl : Acl
  pub special_var : Bool

pub record HiddenFiles : Type 0 where
  pub path : Str
  pub masks : List Str

pub record Privpath : Type 0 where
  pub path : Str
  pub acl : Acl

pub record PathFilter : Type 0 where
  pub regex : Str
  pub acl : Acl

-- The rights of the configuration that the functions read.
pub data RightKind : Type 0 where
  upload resume resumeown overwrite overwriteown makedir download downloadown : RightKind
  rename renameown move moveown modify modifyown nuke delete deleteown : RightKind
  hideinwho freefile nostats hideowner : RightKind

unfoldable pub kind_code : RightKind → ℕ
kind_code upload = 0
kind_code resume = 1
kind_code resumeown = 2
kind_code overwrite = 3
kind_code overwriteown = 4
kind_code makedir = 5
kind_code download = 6
kind_code downloadown = 7
kind_code rename = 8
kind_code renameown = 9
kind_code move = 10
kind_code moveown = 11
kind_code modify = 12
kind_code modifyown = 13
kind_code nuke = 14
kind_code delete = 15
kind_code deleteown = 16
kind_code hideinwho = 17
kind_code freefile = 18
kind_code nostats = 19
kind_code hideowner = 20

abbrev pub same_kind : RightKind → RightKind → Bool
same_kind a b = kind_code a == kind_code b

pub record Config : Type 0 where
  pub rights : RightKind → List Right
  pub hidden_files : List HiddenFiles
  pub noretrieve : List Str
  pub privpath : List Privpath
  pub path_filter : List PathFilter
