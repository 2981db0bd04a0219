-- ===== src/Ftp/Client/Tests.antt =====
-- One session at concrete inputs.
use ebftpd.Prelude.{
  ◌≡◌, refl, true, false, none, some, [], ◌∷◌, codes, str_eq, pos, eq_ℤ, has_char, ◌-ℤ◌,
}
use ebftpd.Util.Passwd.{hex_encode}
use ebftpd.Acl.User.Data.{UserData, new_user_data}
use ebftpd.Acl.User.Password.{verify_password}
use ebftpd.Cmd.Rfc.{lookup, check_args}
use ebftpd.Ftp.Counters.{new_counter, enter, start_login}
use ebftpd.Ftp.Enums.{waiting_password, logged_in}
use ebftpd.Ftp.Client.{
  Client, Site, Line, new_client, set_waiting_password, set_logged_in, check_state,
}
use ebftpd.Ftp.Client.Execute.{execute_command}
use ebftpd.Ftp.Client.Safety.{execute_command-Proven}
use ebftpd.Ftp.Client.Admission.{Proven}
use ebftpd.Ftp.Client.Seats.{Counts}
use ebftpd.Ftp.Client.Server.{Runs, AllCoherent, Runs-Sound}

abbrev bob : UserData
bob = record (new_user_data 0) { id = pos 4; name = codes "bob"; password = codes "61" }

abbrev site : Site
site = record {
  hash_password = λ password salt. password;
  load = λ name. some bob;
  gid_to_name = λ gid. [];
  tls_control = record { perms = []; final_result = none };
  has_tls = true;
  users = pos 9;
  exempt_users = pos 0;
  today = 5;
  siteop_only = false;
  address_allowed = true;
  start_up_dir_opens = true;
  home_dir_opens = true;
  kicked = false;
  pre_script = true;
}

abbrev user_line : Line
user_line = record { name = codes "USER"; arg_str = codes "bob"; args = codes "bob" ∷ [] }

abbrev pass_line : Line
pass_line = record { name = codes "PASS"; arg_str = codes "-a"; args = codes "-a" ∷ [] }

abbrev waiting : Client
waiting = set_waiting_password bob false new_client

abbrev entered : Client
entered = record waiting {
  state = logged_in;
  password_attempts = 1;
  is_guarded = true;
  single_line_replies = true;
}

pass_runs :
    execute_command site pass_line waiting new_counter
    ≡ some (entered, enter new_counter (pos 4), 230)
unfolding execute_command lookup str_eq check_args eq_ℤ check_state verify_password hex_encode
    has_char set_logged_in start_login ◌-ℤ◌ new_counter new_client
pass_runs = refl

execute_command-Proven_example :
    (str_eq pass_line.name (codes "PASS") ≡ true)
    × (waiting.state ≡ waiting_password)
    × Proven site pass_line.arg_str waiting new_counter
execute_command-Proven_example =
    execute_command-Proven site pass_line waiting entered new_counter (enter new_counter (pos 4))
      230 (λ e. cc e) pass_runs refl

one_session : Runs new_counter (new_client ∷ [])
one_session = Runs.connect Runs.start

Runs-Sound_example : Counts new_counter (new_client ∷ []) × AllCoherent (new_client ∷ [])
Runs-Sound_example = Runs-Sound one_session
