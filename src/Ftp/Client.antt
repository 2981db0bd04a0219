-- ===== src/Ftp/Client.antt =====
-- The state of one client: src/ftp/clientimpl.cpp, with the login counter that all clients share. A
-- function returns the client, the counter and the code of the last reply; `none` is an assertion
-- that fails. Between two commands of a client the other threads may act, at the state that a
-- command left.
pub mod Admission
pub mod Alike
pub mod Commands
pub mod Execute
pub mod Laws
pub mod Safety
pub mod Seats
pub mod Server
pub mod Tests
pub mod Total
use ebftpd.Prelude.{
  ℕ, suc, ◌+◌, Bool, true, false, not, Option, none, some, List, [], ◌∷◌, Str, codes, str_eq, drop,
  ℤ, leb, ◌==◌, ◌&&◌, ◌||◌, if◌then◌else◌,
}
use ebftpd.Acl.Rules.{Acl, AclInfo, evaluate}
use ebftpd.Acl.User.Data.{UserData}
use ebftpd.Acl.User.Flags.{deleted_flag, siteop_flag, exempt_flag, template_flag, has_flag}
use ebftpd.Acl.User.Password.{verify_password}
use ebftpd.Cmd.Rfc.{CommandDef, lookup, check_args}
use ebftpd.Ftp.Counters.{
  CounterResult, okay, personal_fail, global_fail, Counter, start_login, stop,
}
use ebftpd.Ftp.Enums.{
  ClientState, logged_out, waiting_password, logged_in, finished, not_before_auth, any_state,
  state_code, same_state,
}

-- `is_guarded` is `loggedIn` of the LoginGuard.
pub record Client : Type 0 where
  pub state : ClientState
  pub user : Option UserData
  pub password_attempts : ℕ
  pub kick_login : Bool
  pub is_guarded : Bool
  pub is_tls : Bool
  pub single_line_replies : Bool

unfoldable pub new_client : Client
new_client = record {
  state = logged_out;
  user = none;
  password_attempts = 0;
  kick_login = false;
  is_guarded = false;
  is_tls = false;
  single_line_replies = false;
}

-- What a command finds around it: the hash, the accounts, the configuration and the clock, and how
-- the calls of the operating system, the database and the scripts end.
pub record Site : Type 0 where
  pub hash_password : Str → Str → Str
  pub load : Str → Option UserData
  pub gid_to_name : ℤ → Str
  pub tls_control : Acl
  pub has_tls : Bool
  pub users : ℤ
  pub exempt_users : ℤ
  pub today : ℕ
  pub siteop_only : Bool
  pub address_allowed : Bool
  pub start_up_dir_opens : Bool
  pub home_dir_opens : Bool
  pub kicked : Bool
  pub pre_script : Bool

-- A command as it is read: its name in capitals, the rest of the line trimmed, and that split.
pub record Line : Type 0 where
  pub name : Str
  pub arg_str : Str
  pub args : List Str

-- src/ftp/replycodes.hpp; `no_reply` where a function leaves the reply to others.
abbrev pub no_reply : ℕ
no_reply = 0

abbrev pub Result : Type 0
Result = Option (Client × Counter × ℕ)

unfoldable pub logout : Client → Counter → Result
logout c n = elim c.user [
  | none ↦ none
  | some u ↦
      if c.is_guarded
      then elim (stop n u.id) [
        | none ↦ none
        | some n' ↦ some (record c { is_guarded = false }, n', no_reply)
      ]
      else none
]

unfoldable pub set_state : ClientState → Client → Counter → Result
unfolding logout state_code
set_state s c n =
    if same_state s logged_in || same_state s waiting_password
    then none
    else if same_state s finished && same_state c.state logged_in
    then logout (record c { state = s }) n
    else some (record c { state = s }, n, no_reply)

-- `SetState`, and then a reply. The order of the two is not observed here.
abbrev pub leave : ClientState → ℕ → Client → Counter → Result
leave s code c n = elim (set_state s c n) [ none ↦ none | some (c', n', _) ↦ some (c', n', code) ]

abbrev pub set_waiting_password : UserData → Bool → Client → Client
set_waiting_password u kick_login c = record c {
  state = waiting_password;
  user = some u;
  kick_login = kick_login;
}

-- What `SetLoggedIn` does with the answer of the counter; the first part is false where it throws.
abbrev pub on_login : Client → CounterResult × Counter → Bool × Client × Counter
on_login c (personal_fail, n) = (false, c, n)
on_login c (global_fail, n) = (false, c, n)
on_login c (okay, n) = (true, record c { is_guarded = true; state = logged_in }, n)

-- `SetLoggedIn` over `LoginGuard::Login`
unfoldable pub set_logged_in : Site → UserData → Client → Counter → Bool × Client × Counter
set_logged_in site u c n = on_login c (
    start_login site.users site.exempt_users n u.id u.num_logins site.kicked
      (has_flag u exempt_flag))

-- A refusal ends in an assertion that the client is not finished.
abbrev pub refuse : Client → ℕ → Option (Bool × ℕ)
refuse c code = if same_state c.state finished then none else some (false, code)

abbrev pub permit : Option (Bool × ℕ)
permit = some (true, no_reply)

-- Whether the command may run, and the reply where not.
unfoldable pub check_state : ClientState → Client → Option (Bool × ℕ)
unfolding state_code
check_state required c =
    if same_state c.state required || same_state required any_state
    then permit
    else if same_state c.state logged_in
    then refuse c 530
    else if same_state c.state waiting_password
    then refuse c 503
    else if same_state c.state logged_out && same_state required waiting_password
    then refuse c 503
    else if same_state required not_before_auth
    then if not c.is_tls then refuse c 503 else permit
    else if same_state c.state logged_out
    then refuse c 530
    else refuse c no_reply
