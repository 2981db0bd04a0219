-- ===== src/Cmd/Rfc.antt =====
-- src/cmd/rfc/factory.cpp and factory.hpp: the table of FTP commands. Of a definition, the texts
-- for people and the function that makes the command are left out; whether there is one is kept.
pub mod Laws
pub mod Tests
use ebftpd.Prelude.{
  ℕ, Bool, true, false, Option, none, some, List, [], ◌∷◌, Str, codes, str_eq, ℤ, pos, minus_one,
  leb_ℤ, eq_ℤ, ◌&&◌, ◌||◌, if◌then◌else◌,
}
use ebftpd.Ftp.Enums.{ClientState, logged_out, waiting_password, logged_in, any_state}

pub record CommandDef : Type 0 where
  pub minimum_args : ℤ
  pub maximum_args : ℤ
  pub required_state : ClientState
  pub is_implemented : Bool

-- The size of the arguments does not count the command.
unfoldable pub check_args : CommandDef → ℕ → Bool
check_args def args_size =
    leb_ℤ def.minimum_args (pos args_size)
    && (eq_ℤ def.maximum_args minus_one || leb_ℤ (pos args_size) def.maximum_args)

abbrev pub entry : ℤ → ℤ → ClientState → Bool → CommandDef
entry minimum maximum state implemented = record {
  minimum_args = minimum;
  maximum_args = maximum;
  required_state = state;
  is_implemented = implemented;
}

abbrev pub defs : List (Str × CommandDef)
defs =
    (codes "ABOR", entry (pos 0) (pos 0) any_state true)
    ∷ (codes "ACCT", entry (pos 0) minus_one any_state false)
    ∷ (codes "ADAT", entry (pos 0) minus_one any_state false)
    ∷ (codes "ALLO", entry (pos 0) minus_one any_state false)
    ∷ (codes "APPE", entry (pos 0) minus_one any_state false)
    ∷ (codes "AUTH", entry (pos 1) (pos 1) logged_out true)
    ∷ (codes "CCC", entry (pos 0) minus_one any_state false)
    ∷ (codes "CDUP", entry (pos 0) (pos 0) logged_in true)
    ∷ (codes "CPSV", entry (pos 0) (pos 0) logged_in true)
    ∷ (codes "CWD", entry (pos 1) minus_one logged_in true)
    ∷ (codes "DELE", entry (pos 1) minus_one logged_in true)
    ∷ (codes "ENC", entry (pos 0) minus_one any_state false)
    ∷ (codes "EPRT", entry (pos 1) (pos 1) logged_in true)
    ∷ (codes "EPSV", entry (pos 0) (pos 1) logged_in true)
    ∷ (codes "FEAT", entry (pos 0) (pos 0) any_state true)
    ∷ (codes "HELP", entry (pos 0) (pos 1) any_state true)
    ∷ (codes "LANG", entry (pos 0) minus_one any_state false)
    ∷ (codes "LIST", entry (pos 0) minus_one logged_in true)
    ∷ (codes "LPRT", entry (pos 1) (pos 1) logged_in true)
    ∷ (codes "LPSV", entry (pos 0) (pos 0) logged_in true)
    ∷ (codes "MDTM", entry (pos 1) minus_one logged_in true)
    ∷ (codes "MFF", entry (pos 1) minus_one logged_in false)
    ∷ (codes "MFCT", entry (pos 2) (pos 2) logged_in false)
    ∷ (codes "MFMT", entry (pos 2) (pos 2) logged_in true)
    ∷ (codes "MIC", entry (pos 0) minus_one any_state false)
    ∷ (codes "MKD", entry (pos 1) minus_one logged_in true)
    ∷ (codes "MLSD", entry (pos 0) minus_one any_state false)
    ∷ (codes "MLST", entry (pos 0) minus_one any_state false)
    ∷ (codes "MODE", entry (pos 1) (pos 1) logged_in true)
    ∷ (codes "NLST", entry (pos 0) minus_one logged_in true)
    ∷ (codes "NOOP", entry (pos 0) (pos 0) any_state true)
    ∷ (codes "OPTS", entry (pos 0) minus_one any_state false)
    ∷ (codes "PASS", entry (pos 0) minus_one waiting_password true)
    ∷ (codes "PASV", entry (pos 0) (pos 0) logged_in true)
    ∷ (codes "PORT", entry (pos 1) (pos 1) logged_in true)
    ∷ (codes "PBSZ", entry (pos 1) (pos 1) any_state true)
    ∷ (codes "PROT", entry (pos 1) (pos 1) any_state true)
    ∷ (codes "PWD", entry (pos 0) (pos 0) logged_in true)
    ∷ (codes "QUIT", entry (pos 0) (pos 0) any_state true)
    ∷ (codes "REIN", entry (pos 0) minus_one any_state false)
    ∷ (codes "REST", entry (pos 1) (pos 1) any_state true)
    ∷ (codes "RETR", entry (pos 1) minus_one logged_in true)
    ∷ (codes "RMD", entry (pos 1) minus_one logged_in true)
    ∷ (codes "RNFR", entry (pos 1) minus_one logged_in true)
    ∷ (codes "RNTO", entry (pos 1) minus_one logged_in true)
    ∷ (codes "SITE", entry (pos 1) minus_one logged_in true)
    ∷ (codes "SIZE", entry (pos 1) minus_one logged_in true)
    ∷ (codes "SMNT", entry (pos 0) minus_one any_state false)
    ∷ (codes "SSCN", entry (pos 0) (pos 1) logged_in true)
    ∷ (codes "STAT", entry (pos 0) minus_one logged_in true)
    ∷ (codes "STOR", entry (pos 1) minus_one logged_in true)
    ∷ (codes "STOU", entry (pos 0) (pos 0) logged_in true)
    ∷ (codes "STRU", entry (pos 0) minus_one any_state false)
    ∷ (codes "SYST", entry (pos 0) (pos 0) logged_in true)
    ∷ (codes "TYPE", entry (pos 1) (pos 1) logged_in true)
    ∷ (codes "USER", entry (pos 1) minus_one logged_out true)
    ∷ []

unfoldable pub find_def : Str → List (Str × CommandDef) → Option CommandDef
find_def name [] = none
find_def name ((k, def) ∷ rest) = if str_eq k name then some def else find_def name rest

-- `Factory::Lookup`
unfoldable pub lookup : Str → Option CommandDef
unfolding find_def
lookup name = find_def name defs
