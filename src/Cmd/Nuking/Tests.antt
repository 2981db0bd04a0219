-- ===== src/Cmd/Nuking/Tests.antt =====
-- Nukes at concrete inputs.
use ebftpd.Prelude.{
  ◌≡◌, refl, true, false, none, some, List, [], ◌∷◌, codes, str_eq, pos, ◌-ℤ◌, ◌+ℤ◌, eq_ℤ,
  if◌then◌else◌,
}
use ebftpd.Cmd.Nuking.{
  Nukees, Credits, Uploads, Setup, FileEntry, nuke_files, nuke_credits, restore_credits,
  decr_credits, times, take_stats, restore_stats,
}
use ebftpd.Cmd.Nuking.Credits.{is_hit, owed, restore_credits-nuke_credits, restore_credits-gain}
use ebftpd.Cmd.Nuking.Uploads.{restore_stats-take_stats}

-- Two megabytes of user 4 and one of user 5.
abbrev files : List FileEntry
files =
    record { owner = pos 5; size = 1048576; is_hidden = false; is_regular = true }
    ∷ record { owner = pos 4; size = 2097152; is_hidden = false; is_regular = true }
    ∷ []

-- A nuke by three, of uploads with the ratio 3.
abbrev by_three : Setup
by_three = record {
  multiplier = pos 3;
  is_percent = false;
  empty_kbytes = pos 10;
  empty_penalty = pos 100;
  directory_owner = pos 4;
  credit_section = [];
  is_user = λ uid. true;
  percent_of = λ m k. k;
  upload_ratio = λ uid. pos 3;
}

-- User 4 has credits, user 5 has no entry.
abbrev credits_before : Credits
credits_before x y = if eq_ℤ x (pos 4) then some (pos 50000) else none

abbrev nukees : Nukees
nukees =
    (pos 4, record { kbytes = 2048; files = 1; credits = pos 10240 })
    ∷ (pos 5, record { kbytes = 1024; files = 1; credits = pos 5120 })
    ∷ []

abbrev credits_after : Credits
credits_after =
    decr_credits (decr_credits credits_before (pos 4) [] (pos 10240)) (pos 5) [] (pos 5120)

nuke_runs : nuke_credits by_three files credits_before ≡ some (nukees, credits_after)
unfolding nuke_credits eq_ℤ ◌+ℤ◌ times ◌-ℤ◌
nuke_runs = refl

restore_credits-nuke_credits_example :
    restore_credits by_three nukees credits_after (pos 4) [] ≡ some (pos 50000)
restore_credits-nuke_credits_example =
    restore_credits-nuke_credits by_three files nukees credits_before credits_after (pos 4) []
      (pos 50000) nuke_runs (unfold eq_ℤ in refl)

restore_credits-gain_example :
    (credits_after (pos 5) [] ≡ none)
    × (restore_credits by_three nukees credits_after (pos 5) []
        ≡ some (owed by_three (pos 5) [] nukees))
restore_credits-gain_example =
    restore_credits-gain by_three files nukees credits_before credits_after (pos 5) [] nuke_runs
      (unfold eq_ℤ in refl) (unfold is_hit eq_ℤ str_eq in refl)

abbrev no_uploads : Uploads
no_uploads x y = (pos 0, pos 0)

restore_stats-take_stats_example :
    (restore_stats
      (codes "MP3")
      2
      nukees
      (take_stats (codes "MP3") nukees no_uploads)
      (pos 4)
      (codes "MP3")).0
    ≡ (no_uploads (pos 4) (codes "MP3")).0
restore_stats-take_stats_example =
    restore_stats-take_stats (codes "MP3") 2 nukees no_uploads (pos 4) (codes "MP3")

-- The files of user 4: one before the nuke, two after the unnuke.
abbrev one_upload : Uploads
one_upload x y = if eq_ℤ x (pos 4) then (pos 2048, pos 1) else (pos 1024, pos 1)

files_gained :
    restore_stats
      (codes "MP3")
      (nuke_files nukees)
      nukees
      (take_stats (codes "MP3") nukees one_upload)
      (pos 4)
      (codes "MP3")
    ≡ (pos 2048, pos 2)
unfolding restore_stats eq_ℤ str_eq ◌+ℤ◌ take_stats ◌-ℤ◌ nuke_files
files_gained = refl
