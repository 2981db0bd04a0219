-- ===== src/Ftp/Counters/Tests.antt =====
-- The counters at concrete inputs.
use ebftpd.Prelude.{refl, Bool, false, [], ◌∷◌, ℤ, pos, eq_ℤ}
use ebftpd.Ftp.Counters.{Counter, new_counter, enter, update, start_transfer}
use ebftpd.Ftp.Counters.Sessions.{Represents, Run, Within, Run_lem}

abbrev two_each : ℤ → ℤ
two_each uid = pos 2

abbrev nobody : ℤ → Bool
nobody uid = false

one_open : Run two_each nobody (pos 9) (enter new_counter (pos 4)) (pos 4 ∷ [])
unfolding start_transfer enter new_counter update eq_ℤ
one_open = Run.begin (pos 4) Run.idle refl

Run_lem_example :
    Represents (enter new_counter (pos 4)) (pos 4 ∷ [])
    × Within two_each nobody (pos 9) (pos 4 ∷ [])
Run_lem_example = Run_lem two_each nobody (pos 9) one_open

-- Ninety-nine are online where one may be.
abbrev crowded : Counter
crowded = record { global = 99; personal = λ uid. 0 }
