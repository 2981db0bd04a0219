-- ===== src/Cmd/Rfc/Tests.antt =====
-- The table of commands at concrete names.
use ebftpd.Prelude.{◌≡◌, refl, true, codes, str_eq, none, pos}
use ebftpd.Ftp.Enums.{logged_in}
use ebftpd.Cmd.Rfc.{CommandDef, entry, find_def, lookup}
use ebftpd.Cmd.Rfc.Laws.{is_guarded, lookup-is_guarded}

abbrev cdup_def : CommandDef
cdup_def = entry (pos 0) (pos 0) logged_in true

lookup-is_guarded_example : is_guarded (codes "CDUP") cdup_def ≡ true
lookup-is_guarded_example =
    lookup-is_guarded (codes "CDUP") cdup_def (unfold lookup find_def str_eq in refl)

lookup_unknown : lookup (codes "XYZ") ≡ none
unfolding lookup find_def str_eq
lookup_unknown = refl
