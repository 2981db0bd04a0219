-- ===== src/Ftp/Counters.antt =====
-- src/ftp/logincounter.cpp, transfercounter.cpp and counter.hpp: how many logins and transfers run.
-- A call holds the counter's mutex from start to end, so each is one step. `personal[uid]`, an
-- unordered map whose absent entries read as 0, is a function. An assertion that fails is `none`.
pub mod Laws
pub mod Sessions
pub mod Tests
use ebftpd.Prelude.{
  ℕ, ◌+◌, ◌-◌, Bool, true, false, not, Option, none, some, ℤ, pos, minus_one, ◌-ℤ◌, ◌+ℤ◌, eq_ℤ,
  leb_ℤ, ltb_ℤ, ltb, ◌&&◌, ◌||◌, if◌then◌else◌,
}

pub data CounterResult : Type 0 where
  personal_fail global_fail okay : CounterResult

-- The state of both classes.
pub record Counter : Type 0 where
  pub global : ℕ
  pub personal : ℤ → ℕ

unfoldable pub new_counter : Counter
new_counter = record { global = 0; personal = λ uid. 0 }

unfoldable pub update : (ℤ → ℕ) → ℤ → ℕ → ℤ → ℕ
update f uid n x = if eq_ℤ uid x then n else f x

-- `++count; ++global;`
unfoldable pub enter : Counter → ℤ → Counter
unfolding update
enter c uid = record {
  global = c.global + 1;
  personal = update c.personal uid (c.personal uid + 1);
}

abbrev pub bit : Bool → ℤ
bit true = pos 1
bit false = pos 0

-- `LoginCounter::Start`. The body of the test on the global count is commented out in the source.
unfoldable pub start_login : ℤ → ℤ → Counter → ℤ → ℤ → Bool → Bool → CounterResult × Counter
unfolding enter
start_login users exempt_users c uid limit kick_login exempt =
    if not (eq_ℤ limit minus_one) && leb_ℤ limit (pos (c.personal uid) -ℤ bit kick_login)
    then (personal_fail, c)
    else let max_users = if exempt then users +ℤ exempt_users else users in
      if ltb_ℤ max_users (pos c.global -ℤ bit kick_login)
      then (okay, enter c uid)
      else (okay, enter c uid)

unfoldable pub logins_used : Counter → ℤ → ℤ → Bool
logins_used c uid limit = not (eq_ℤ limit minus_one) && leb_ℤ limit (pos (c.personal uid))

-- `Stop` of both classes.
unfoldable pub stop : Counter → ℤ → Option Counter
unfolding update
stop c uid =
    if ltb 0 (c.personal uid) && ltb 0 c.global
    then some
        (record { global = c.global - 1; personal = update c.personal uid (c.personal uid - 1) })
    else none

-- `TransferCounter::Start`; `max_global` is what `getMaxGlobal()` returned.
unfoldable pub start_transfer : ℤ → Counter → ℤ → ℤ → Bool → CounterResult × Counter
unfolding enter
start_transfer max_global c uid limit exempt =
    if leb_ℤ limit (pos (c.personal uid)) && not (eq_ℤ limit minus_one)
    then (personal_fail, c)
    else if not exempt && not (eq_ℤ max_global minus_one) && leb_ℤ max_global (pos c.global)
    then (global_fail, c)
    else (okay, enter c uid)
