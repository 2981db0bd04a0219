-- ===== src/Ftp/Xdupe/Tests.antt =====
-- X-DUPE replies at concrete inputs.
use ebftpd.Prelude.{◌≤◌, ◌≡◌, refl, List, [], ◌∷◌, Str, codes, length}
use ebftpd.Ftp.Xdupe.{message_one, message_four}
use ebftpd.Ftp.Xdupe.Laws.{Fits, message_one-Fits}
use ebftpd.Ftp.Xdupe.Empty.{message_four_bounds}

abbrev names : List Str
names = codes "one.rar" ∷ codes "two.rar" ∷ []

message_one-Fits_example : Fits 76 0 (message_one names)
message_one-Fits_example = message_one-Fits names

message_four_bounds_example : (10 ≤ length (message_four [])) × (length (message_four []) ≤ 1018)
message_four_bounds_example = message_four_bounds []

-- No names: a prefix and an end of line.
message_four_nothing : message_four [] ≡ codes " X-DUPE: \n"
unfolding message_four
message_four_nothing = refl
