-- ===== src/Cmd/Nuking.antt =====
-- src/cmd/site/nuking.cpp: what a nuke takes from the uploaders of a directory and what an unnuke
-- gives back, over the tables of src/db/user/user.cpp and src/db/stats/stats.cpp. The files and
-- directories, the templates and the records of past nukes are left out, and so are transfer times.
-- `none` is a null pointer that is dereferenced.
pub mod Credits
pub mod Entries
pub mod Sums
pub mod Tests
pub mod Totals
pub mod Uploads
use ebftpd.Prelude.{
  ℕ, ◌+◌, ◌-◌, ◌*◌, ◌/◌, Bool, true, false, not, Option, none, some, List, [], ◌∷◌, Str, str_eq, ℤ,
  pos, ◌+ℤ◌, ◌-ℤ◌, eq_ℤ, ltb_ℤ, leb_ℤ, ltb, ◌==◌, ◌&&◌, ◌||◌, if◌then◌else◌, negsuc,
}

pub record Nukee : Type 0 where
  pub kbytes : ℕ
  pub files : ℕ
  pub credits : ℤ

abbrev pub new_nukee : Nukee
new_nukee = record { kbytes = 0; files = 0; credits = pos 0 }

-- `std::map<acl::UserID, Nukee>`, in the order of its keys.
abbrev pub Nukees : Type 0
Nukees = List (ℤ × Nukee)

-- An entry of the directory, below it at any depth.
pub record FileEntry : Type 0 where
  pub owner : ℤ
  pub size : ℕ
  pub is_hidden : Bool
  pub is_regular : Bool

abbrev pub with_file : ℕ → Nukee → Nukee
with_file kb n = record n { kbytes = n.kbytes + kb; files = n.files + 1 }

unfoldable pub add_file : ℤ → ℕ → Nukees → Nukees
add_file uid kb [] = (uid, with_file kb new_nukee) ∷ []
add_file uid kb ((x, n) ∷ rest) =
    let later = add_file uid kb rest in
    if eq_ℤ x uid
    then (x, with_file kb n) ∷ rest
    else if ltb_ℤ uid x
    then (uid, with_file kb new_nukee) ∷ (x, n) ∷ rest
    else (x, n) ∷ later

-- The loop of `CalculateNukees`; the number is `totalKBytes`.
unfoldable pub calculate_nukees : List FileEntry → Nukees → ℕ → Nukees × ℕ
unfolding add_file
calculate_nukees [] nukees total = (nukees, total)
calculate_nukees (f ∷ fs) nukees total =
    if f.is_hidden || not f.is_regular
    then calculate_nukees fs nukees total
    else let kb = f.size / 1024 in calculate_nukees fs (add_file f.owner kb nukees) (total + kb)

-- `Nuke::KBytes` and `Nuke::Files`
unfoldable pub nuke_kbytes : Nukees → ℕ
nuke_kbytes [] = 0
nuke_kbytes ((uid, n) ∷ rest) = n.kbytes + nuke_kbytes rest

unfoldable pub nuke_files : Nukees → ℕ
nuke_files [] = 0
nuke_files ((uid, n) ∷ rest) = n.files + nuke_files rest

-- The credits of the users by section; a user without an entry for a section has none.
abbrev pub Credits : Type 0
Credits = ℤ → Str → Option ℤ

unfoldable pub set_entry : Credits → ℤ → Str → ℤ → Credits
set_entry t uid section v x y = if eq_ℤ uid x && str_eq section y then some v else t x y

-- `DecrCredits` by force: an entry that is not there is not made.
unfoldable pub decr_credits : Credits → ℤ → Str → ℤ → Credits
unfolding set_entry
decr_credits t uid section k =
    if eq_ℤ k (pos 0)
    then t
    else elim (t uid section) [ none ↦ t | some v ↦ set_entry t uid section (v -ℤ k) ]

-- `IncrCredits` updates an entry, or inserts one.
unfoldable pub incr_credits : Credits → ℤ → Str → ℤ → Credits
unfolding set_entry
incr_credits t uid section k = elim (t uid section) [
  | none ↦ set_entry t uid section k
  | some v ↦ set_entry t uid section (v +ℤ k)
]

-- A nuke and what it finds around it: its multiplier, the configured style, the section of the
-- credits, which users load, the part of some credits that a percentage is, and a user's ratio.
pub record Setup : Type 0 where
  pub multiplier : ℤ
  pub is_percent : Bool
  pub empty_kbytes : ℤ
  pub empty_penalty : ℤ
  pub directory_owner : ℤ
  pub credit_section : Str
  pub is_user : ℤ → Bool
  pub percent_of : ℤ → ℤ → ℤ
  pub upload_ratio : ℤ → ℤ

unfoldable pub entry_credits : Credits → ℤ → Str → ℤ
entry_credits t uid section = elim (t uid section) [ none ↦ pos 0 | some v ↦ v ]

abbrev pub Amount : Type 0
Amount = Credits → ℤ → Nukee → Option ℤ

abbrev pub empty_amount : Setup → Amount
empty_amount w t uid n = some w.empty_penalty

-- `if (credits < 0) credits = 0`
abbrev pub clamp : ℤ → ℤ
clamp k = if ltb_ℤ k (pos 0) then pos 0 else k

unfoldable pub times : ℕ → ℤ → ℤ
times n (pos m) = pos (n * m)
times n (negsuc m) = if n == 0 then pos 0 else negsuc (n * (m + 1) - 1)

-- The user is dereferenced before the test that it is there.
unfoldable pub full_amount : Setup → Amount
unfolding entry_credits
full_amount w t uid n =
    if not (w.is_user uid)
    then none
    else if w.is_percent
    then some (clamp (w.percent_of w.multiplier (entry_credits t uid w.credit_section)))
    else let ratio = w.upload_ratio uid in
      if eq_ℤ ratio (pos 0)
      then some (pos 0)
      else some (times n.kbytes ratio +ℤ times n.kbytes (w.multiplier -ℤ pos 1))

abbrev pub charged : Setup → Credits → ℤ → ℤ → Credits
charged w t uid k = if w.is_user uid then decr_credits t uid w.credit_section k else t

-- The loops of `TakeCreditsEmpty` and `TakeCreditsNotEmpty`.
unfoldable pub take_each : Setup → Amount → Nukees → Credits → Option (Nukees × Credits)
take_each w amount [] t = some ([], t)
take_each w amount ((uid, n) ∷ rest) t = elim (amount t uid n) [
  | none ↦ none
  | some k ↦ elim (take_each w amount rest (charged w t uid k)) [
    | none ↦ none
    | some (ns, t') ↦ some ((uid, record n { credits = k }) ∷ ns, t')
  ]
]

abbrev pub or_owner : Setup → Nukees → Nukees
or_owner w [] = (w.directory_owner, new_nukee) ∷ []
or_owner w (n ∷ ns) = n ∷ ns

unfoldable pub take_credits : Setup → Nukees → ℕ → Credits → Option (Nukees × Credits)
unfolding take_each full_amount
take_credits w nukees total t =
    if eq_ℤ w.multiplier (pos 0)
    then some (nukees, t)
    else if ltb_ℤ (pos total) w.empty_kbytes
    then take_each w (empty_amount w) (or_owner w nukees) t
    else take_each w (full_amount w) nukees t

-- The credits of a nuke of the directory that has these entries.
unfoldable pub nuke_credits : Setup → List FileEntry → Credits → Option (Nukees × Credits)
unfolding take_credits calculate_nukees
nuke_credits w files t =
    let (nukees, total) = calculate_nukees files [] 0 in take_credits w nukees total t

abbrev pub refunded : Setup → Credits → ℤ → ℤ → Credits
refunded w t uid k = if w.is_user uid then incr_credits t uid w.credit_section k else t

unfoldable pub restore_credits : Setup → Nukees → Credits → Credits
restore_credits w [] t = t
restore_credits w ((uid, n) ∷ rest) t = restore_credits w rest (refunded w t uid n.credits)

-- `NukeMax::IsOkay`
unfoldable pub is_okay : ℤ → ℤ → ℤ → Bool → Bool
is_okay multiplier percent value is_percent =
    if is_percent
    then leb_ℤ (pos 0) value && leb_ℤ value percent
    else leb_ℤ (pos 0) value && leb_ℤ value multiplier

-- The rows of uploads on one day, by user and section: kilobytes and files.
abbrev pub Uploads : Type 0
Uploads = ℤ → Str → ℤ × ℤ

unfoldable pub update_row : ℤ → ℕ → ℕ → Str → Bool → Uploads → Uploads
update_row uid kb files section decrement t x y =
    if eq_ℤ uid x && str_eq section y
    then if decrement
      then ((t x y).0 -ℤ pos kb, (t x y).1 -ℤ pos files)
      else ((t x y).0 +ℤ pos kb, (t x y).1 +ℤ pos files)
    else t x y

abbrev pub is_nil : Str → Bool
is_nil [] = true
is_nil (c ∷ s) = false

unfoldable pub upload_incr : ℤ → ℕ → Str → ℕ → Uploads → Uploads
unfolding update_row
upload_incr uid kb section files t =
    if is_nil section
    then t
    else update_row uid kb files section false (update_row uid kb files [] true t)

unfoldable pub upload_decr : ℤ → ℕ → Str → ℕ → Uploads → Uploads
unfolding update_row
upload_decr uid kb section files t =
    if is_nil section
    then t
    else update_row uid kb files [] false (update_row uid kb files section true t)

unfoldable pub take_stats : Str → Nukees → Uploads → Uploads
unfolding upload_decr
take_stats section [] t = t
take_stats section ((uid, n) ∷ rest) t =
    take_stats section rest
      (if ltb 0 n.kbytes then upload_decr uid n.kbytes section n.files t else t)

-- Every user gets the number of files of the whole nuke.
unfoldable pub restore_stats : Str → ℕ → Nukees → Uploads → Uploads
unfolding upload_incr
restore_stats section all_files [] t = t
restore_stats section all_files ((uid, n) ∷ rest) t =
    restore_stats section all_files rest
      (if ltb 0 n.kbytes || ltb 0 n.files then upload_incr uid n.kbytes section all_files t else t)
