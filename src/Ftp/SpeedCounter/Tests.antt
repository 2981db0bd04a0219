-- ===== src/Ftp/SpeedCounter/Tests.antt =====
-- A speed counter at concrete transfers.
use ebftpd.Prelude.{◌≡◌, refl, ℕ, ◌*◌, ◌/◌, ◌≤◌, none, some, [], ◌∷◌, codes, str_eq}
use ebftpd.Util.Map.{find, assign, erase, name_key}
use ebftpd.Ftp.SpeedCounter.{SpeedInfo, Speeds, Limit, add_info, update, clear}
use ebftpd.Ftp.SpeedCounter.Laws.{Represents}
use ebftpd.Ftp.SpeedCounter.Runs.{Transfer, all_shares, Run, idle, begin}
use ebftpd.Ftp.SpeedCounter.Totals.{Run-Represents, Run-succeeds}

abbrev site : Limit
site = record { path = codes "/site"; speed = 2 }

abbrev first : SpeedInfo
first = record { xfertime = 1000; bytes = 4096 }

abbrev second : SpeedInfo
second = record { xfertime = 500; bytes = 1024 }

-- Microseconds for the bytes at a limit in bytes a second.
least : ℕ → ℕ → ℕ
least bytes limit = bytes * 1000000 / limit

abbrev one_entry : Speeds
one_entry = (codes "/site", record { transfers = 1; info = first }) ∷ []

abbrev two_entries : Speeds
two_entries =
    (codes "/site", record { transfers = 2; info = record { xfertime = 1500; bytes = 5120 } }) ∷ []

begun : update least none first (site ∷ []) [] ≡ some (100000, one_entry)
unfolding update find assign erase str_eq least
begun = refl

begun_twice : update least none second (site ∷ []) one_entry ≡ some (100000, two_entries)
unfolding update find assign erase str_eq least add_info
begun_twice = refl

abbrev first_transfer : Transfer
first_transfer = record { limits = site ∷ []; last = first }

abbrev second_transfer : Transfer
second_transfer = record { limits = site ∷ []; last = second }

run : Run least two_entries (second_transfer ∷ first_transfer ∷ [])
run = begin 100000 (site ∷ []) second (begin 100000 (site ∷ []) first idle begun) begun_twice

Run-Represents_example : Represents two_entries (all_shares (second_transfer ∷ first_transfer ∷ []))
Run-Represents_example = Run-Represents run

Run-succeeds_example :
    ((n : ℕ) × (s : Speeds) × (update least (some first) second (site ∷ []) two_entries
        ≡ some (n, s))
      × (n ≤ 100000))
    × ((s : Speeds) × (clear (some first) (site ∷ []) two_entries ≡ some s))
    × ((n : ℕ) × (s : Speeds) × (update least none second (site ∷ []) two_entries ≡ some (n, s))
        × (n ≤ 100000))
Run-succeeds_example = Run-succeeds (second_transfer ∷ []) [] first_transfer (site ∷ []) second run
