-- ===== src/Ftp/Client/Execute.antt =====
-- The commands of a session: PASS of src/cmd/rfc/pass.cpp, USER, AUTH and QUIT of
-- src/cmd/rfc/commands.cpp, and ExecuteCommand and ReloadUser of src/ftp/clientimpl.cpp. A command
-- that is not one of these four leaves the session as it is: the QUIT that src/ftp/data.cpp reads
-- during a transfer is left out. Whether KickLogin made room for PASS is a Boolean of the site.
use ebftpd.Prelude.{
  ℕ, suc, ◌+◌, Bool, true, false, not, Option, none, some, List, [], ◌∷◌, Str, codes, str_eq, leb,
  ◌==◌, ◌&&◌, ◌||◌, if◌then◌else◌,
}
use ebftpd.Acl.Rules.{AclInfo, evaluate}
use ebftpd.Acl.User.Data.{UserData}
use ebftpd.Acl.User.Flags.{deleted_flag, siteop_flag, template_flag, has_flag}
use ebftpd.Acl.User.Password.{verify_password}
use ebftpd.Cmd.Rfc.{lookup, check_args}
use ebftpd.Ftp.Counters.{Counter}
use ebftpd.Ftp.Enums.{logged_out, logged_in, finished, state_code, same_state}
use ebftpd.Ftp.Client.{
  Client, Line, Result, Site, check_state, leave, no_reply, set_logged_in, set_waiting_password,
}

abbrev pub max_password_attempts : ℕ
max_password_attempts = 3

unfoldable pub expired : ℕ → UserData → Bool
expired today u = elim u.expires [ none ↦ false | some day ↦ leb day today ]

-- The part of PASS after the password was found right.
unfoldable pub admit : Site → UserData → Client → Counter → Result
unfolding expired has_flag
admit site u c n =
    let (entered, c', n') = set_logged_in site u c n in
    if not site.address_allowed
    then leave finished 421 c n
    else if has_flag u deleted_flag
    then leave finished 421 c n
    else if site.siteop_only && not (has_flag u siteop_flag)
    then some (c, n, 421)
    else if not site.start_up_dir_opens && not site.home_dir_opens
    then leave finished 421 c n
    else if expired site.today u
    then leave finished 421 c n
    else if entered
    then some (c', n', 230)
    else leave finished 421 c' n'

-- The argument begins with a dash where the client wants replies of one line.
abbrev pub strip_dash : Str → Bool × Str
strip_dash [] = (false, [])
strip_dash (c ∷ s) = if c == b'-' then (true, s) else (false, c ∷ s)

abbrev pub is_nil : Str → Bool
is_nil [] = true
is_nil (c ∷ s) = false

unfoldable pub pass : Site → Str → Client → Counter → Result
unfolding admit state_code
pass site arg_str c n =
    let (dash, password) = strip_dash arg_str in
    let c0 : Client = if dash then record c { single_line_replies = true } else c in
    let c1 : Client = record c0 { password_attempts = c0.password_attempts + 1 } in
    if is_nil password then some (c0, n, 501) else elim c.user [
      | none ↦ none
      | some u ↦
          if verify_password site.hash_password u password
          then admit site u c1 n
          else if leb max_password_attempts c1.password_attempts
          then leave finished 530 c1 n
          else leave logged_out 530 c1 n
    ]

abbrev pub strip_bang : Str → Bool × Str
strip_bang [] = (false, [])
strip_bang (c ∷ s) = if c == b'!' then (true, s) else (false, c ∷ s)

unfoldable pub user_command : Site → Str → Client → Counter → Result
unfolding has_flag
user_command site arg_str c n =
    let (kick_login, name) = strip_bang arg_str in
    elim (site.load name) [
      | none ↦ some (c, n, 530)
      | some u ↦
          let info : AclInfo = record {
            username = u.name;
            groupname = site.gid_to_name u.primary_gid;
            flags = u.flags;
          } in
          if has_flag u template_flag
          then some (c, n, 530)
          else if (evaluate site.tls_control info).0 && not c.is_tls
          then some (c, n, 530)
          else some (set_waiting_password u kick_login c, n, 331)
    ]

-- AUTH, where the handshake succeeds.
unfoldable pub auth : Site → List Str → Client → Counter → Result
auth site args c n = if not site.has_tls then some (c, n, 504) else elim args [
  | [] ↦ some (c, n, 504)
  | a ∷ _ ↦
      if str_eq a (codes "SSL") || str_eq a (codes "TLS")
      then some (record c { is_tls = true }, n, 234)
      else some (c, n, 504)
]

-- The commands that change the session; the others leave it as it is.
unfoldable pub execute : Site → Line → Client → Counter → Result
unfolding pass user_command auth
execute site line c n =
    if str_eq line.name (codes "PASS")
    then pass site line.arg_str c n
    else if str_eq line.name (codes "USER")
    then user_command site line.arg_str c n
    else if str_eq line.name (codes "QUIT")
    then leave finished 221 c n
    else if str_eq line.name (codes "AUTH")
    then auth site line.args c n
    else some (c, n, no_reply)

abbrev pub args_size : List Str → ℕ
args_size [] = 0
args_size (x ∷ xs) = suc (args_size xs)

unfoldable pub execute_command : Site → Line → Client → Counter → Result
unfolding execute state_code
execute_command site line c n = elim (lookup line.name) [
  | none ↦ some (c, n, 500)
  | some def ↦
      if not (check_args def (args_size line.args))
      then some (c, n, 501)
      else elim (check_state def.required_state c) [
        | none ↦ none
        | some (allowed, code) ↦
            if not allowed
            then some (c, n, code)
            else if same_state c.state logged_in && not site.pre_script
            then some (c, n, no_reply)
            else if not def.is_implemented
            then some (c, n, 502)
            else execute site line c n
      ]
]

-- `ReloadUser`, with the profile that the caches hold now.
unfoldable pub reloaded : Option UserData → Client → Counter → Result
reloaded none c n = leave finished no_reply c n
reloaded (some u) c n =
    if has_flag u deleted_flag
    then leave finished no_reply c n
    else some (record c { user = some u }, n, no_reply)

-- The user's id is read first.
unfoldable pub reload_user : Option UserData → Client → Counter → Result
unfolding reloaded
reload_user loaded c n = elim c.user [ none ↦ none | some _ ↦ reloaded loaded c n ]
