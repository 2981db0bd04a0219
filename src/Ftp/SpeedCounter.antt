-- ===== src/Ftp/SpeedCounter.antt =====
-- src/ftp/speedcounter.cpp and speedcounter.hpp: the speeds of the transfers under the limits of
-- the configuration, with SpeedLimitSleep of src/stats/util.cpp. Durations are in microseconds. The
-- source's are signed, since they are differences of the local time, which may be set back; here
-- they are not negative, as are sizes. A call holds the mutex. An assertion that fails, and a
-- division by zero, is `none`.
pub mod Laws
pub mod Runs
pub mod Totals
pub mod Tests
use ebftpd.Prelude.{
  ℕ, suc, ◌+◌, ◌-◌, ◌*◌, ◌/◌, Bool, true, false, Option, none, some, List, [], ◌∷◌, Str, leb, ltb,
  ◌==◌, ◌&&◌, if◌then◌else◌,
}
use ebftpd.Util.Map.{Map, find, erase, assign, name_key}

pub record SpeedInfo : Type 0 where
  pub xfertime : ℕ
  pub bytes : ℕ

unfoldable pub add_info : SpeedInfo → SpeedInfo → SpeedInfo
add_info a b = record { xfertime = a.xfertime + b.xfertime; bytes = a.bytes + b.bytes }

-- `operator-=`, which asserts that the differences are not negative.
unfoldable pub sub_info : SpeedInfo → SpeedInfo → Option SpeedInfo
sub_info a b =
    if leb b.xfertime a.xfertime && leb b.bytes a.bytes
    then some (record { xfertime = a.xfertime - b.xfertime; bytes = a.bytes - b.bytes })
    else none

-- How many transfers run under a limit, and what they have transferred.
pub record Entry : Type 0 where
  pub transfers : ℕ
  pub info : SpeedInfo

abbrev pub Speeds : Type 0
Speeds = Map Str Entry

-- A limit of the configuration: its path, and the speed that `getSpeedLimit` reads of it.
pub record Limit : Type 0 where
  pub path : Str
  pub speed : ℕ

-- The entry after an update, with the last and the current state of the transfer.
unfoldable pub updated_entry : Option SpeedInfo → SpeedInfo → Option Entry → Option Entry
unfolding add_info sub_info
updated_entry last current none = some (record { transfers = 1; info = current })
updated_entry none current (some e) =
    some (record { transfers = e.transfers + 1; info = add_info e.info current })
updated_entry (some l) current (some e) = elim (sub_info e.info l) [
  | none ↦ none
  | some i ↦ some (record e { info = add_info i current })
]

abbrev pub min : ℕ → ℕ → ℕ
min a b = if ltb b a then b else a

abbrev pub max : ℕ → ℕ → ℕ
max a b = if ltb a b then b else a

-- `SpeedLimitSleep`. The least time for the bytes under the limit, a floating point number that is
-- cut to microseconds, is what `least_time` gives.
unfoldable pub speed_limit_sleep : (ℕ → ℕ → ℕ) → ℕ → ℕ → ℕ → ℕ
speed_limit_sleep least_time xfertime bytes limit =
    let least = least_time bytes limit in
    if ltb least xfertime then 0 else min 100000 (least - xfertime)

-- The division of the time by the number of transfers.
unfoldable pub entry_sleep : (ℕ → ℕ → ℕ) → Entry → ℕ → Option ℕ
unfolding speed_limit_sleep
entry_sleep least_time e speed =
    if e.transfers == 0
    then none
    else some
        (speed_limit_sleep least_time (e.info.xfertime / e.transfers) e.info.bytes (speed * 1024))

-- The loop of `Update`, with the sleep so far.
unfoldable pub update_loop :
    (ℕ → ℕ → ℕ) → Option SpeedInfo → SpeedInfo → List Limit → ℕ → Speeds → Option (ℕ × Speeds)
unfolding updated_entry entry_sleep
update_loop least_time last current [] sleep speeds = some (sleep, speeds)
update_loop least_time last current (limit ∷ limits) sleep speeds =
    elim (updated_entry last current (find limit.path speeds)) [
      | none ↦ none
      | some e ↦ elim (entry_sleep least_time e limit.speed) [
        | none ↦ none
        | some s ↦
            update_loop least_time last current limits (max sleep s) (assign limit.path e speeds)
      ]
    ]

unfoldable pub update :
    (ℕ → ℕ → ℕ) → Option SpeedInfo → SpeedInfo → List Limit → Speeds → Option (ℕ × Speeds)
unfolding update_loop
update least_time last current limits speeds = update_loop least_time last current limits 0 speeds

-- `Clear`: the entry of the last transfer under a limit goes, and of another the transfer's share.
unfoldable pub clear_one : SpeedInfo → Str → Speeds → Option Speeds
unfolding sub_info
clear_one last path speeds = elim (find path speeds) [
  | none ↦ some speeds
  | some e ↦ if leb e.transfers 1 then some (erase path speeds) else elim (sub_info e.info last) [
    | none ↦ none
    | some i ↦ some (assign path (record { transfers = e.transfers - 1; info = i }) speeds)
  ]
]

unfoldable pub clear_loop : SpeedInfo → List Limit → Speeds → Option Speeds
unfolding clear_one
clear_loop last [] speeds = some speeds
clear_loop last (limit ∷ limits) speeds = elim (clear_one last limit.path speeds) [
  | none ↦ none
  | some speeds' ↦ clear_loop last limits speeds'
]

unfoldable pub clear : Option SpeedInfo → List Limit → Speeds → Option Speeds
unfolding clear_loop
clear none limits speeds = some speeds
clear (some last) limits speeds = clear_loop last limits speeds
