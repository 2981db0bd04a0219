-- ===== src/Ftp/Enums.antt =====
-- src/ftp/enums.hpp: the states of a client.
use ebftpd.Prelude.{ℕ, Bool, ◌==◌}

-- The last two only say which state a command requires.
pub data ClientState : Type 0 where
  logged_out waiting_password logged_in finished not_before_auth any_state : ClientState

unfoldable pub state_code : ClientState → ℕ
state_code logged_out = 0
state_code waiting_password = 1
state_code logged_in = 2
state_code finished = 3
state_code not_before_auth = 4
state_code any_state = 5

abbrev pub same_state : ClientState → ClientState → Bool
same_state a b = state_code a == state_code b
