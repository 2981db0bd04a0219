-- ===== src/Ftp/SpeedCounter/Totals.antt =====
-- What holds in every run of a speed counter (src/ftp/speedcounter.cpp).
use ebftpd.Prelude.{
  ◌≡◌, refl, sym, ap, subst, ◌∙◌, ℕ, ◌≤◌, Option, none, some, List, [], ◌∷◌, ◌++◌, arith,
}
use ebftpd.Util.Map.{find, name_key}
use ebftpd.Ftp.SpeedCounter.{SpeedInfo, Speeds, Limit, update, clear}
use ebftpd.Ftp.SpeedCounter.Laws.{Represents, load, Share}
use ebftpd.Ftp.SpeedCounter.Runs.{
  Transfer, shares_of, all_shares, Same-Represents, middle-Same, Succeeds, begin_loop,
  progress_loop, end_loop, Run, idle, begin, progress, end, go,
}

some_eq {ℓ} : {A : Type ℓ} {a b : A} → some a ≡ some b → a ≡ b
some_eq e = cc e

module _ (least_time : ℕ → ℕ → ℕ) where
  update-begin :
      (s : Speeds) (ts : List Transfer) (limits : List Limit) (current : SpeedInfo)
      → Represents s (all_shares ts)
      → Succeeds
          (update least_time none current limits s)
          (all_shares (record { limits = limits; last = current } ∷ ts))
  unfolding update all_shares
  update-begin s ts limits current r =
      begin_loop least_time current limits 0 s (all_shares ts) (omega arith) r

  update-progress :
      (s : Speeds) (xs ys : List Transfer) (limits : List Limit) (l current : SpeedInfo)
      → Represents s (all_shares (xs ++ (record { limits = limits; last = l } ∷ ys)))
      → Succeeds
          (update least_time (some l) current limits s)
          (all_shares (xs ++ (record { limits = limits; last = current } ∷ ys)))
  unfolding update
  update-progress s xs ys limits l current r =
      let rest = all_shares (xs ++ ys) in
      let (n, s', e, h, r') = progress_loop least_time l current limits 0 s rest (omega arith) (
        Same-Represents s (all_shares (xs ++ (record { limits = limits; last = l } ∷ ys)))
          (shares_of limits l ++ rest) (middle-Same xs ys limits l) r) in
      (
        n,
        s',
        e,
        h,
        Same-Represents s' (shares_of limits current ++ rest)
            (all_shares (xs ++ (record { limits = limits; last = current } ∷ ys)))
            (λ p. sym (middle-Same xs ys limits current p)) r',
      )

clear-end :
    (s : Speeds) (xs ys : List Transfer) (limits : List Limit) (l : SpeedInfo)
    → Represents s (all_shares (xs ++ (record { limits = limits; last = l } ∷ ys)))
    → (s' : Speeds) × (clear (some l) limits s ≡ some s') × Represents s' (all_shares (xs ++ ys))
unfolding clear
clear-end s xs ys limits l r = end_loop l limits s (all_shares (xs ++ ys)) (
    Same-Represents s (all_shares (xs ++ (record { limits = limits; last = l } ∷ ys)))
      (shares_of limits l ++ all_shares (xs ++ ys)) (middle-Same xs ys limits l) r)

Represents-some :
    (n m : ℕ) (s s' : Speeds) (shares : List Share)
    → ◌≡◌ {A = Option (ℕ × Speeds)} (some (n, s)) (some (m, s'))
    → Represents s shares
    → Represents s' shares
Represents-some n m s s' shares e r = subst (λ t. Represents t shares) (ap (λ x. x.1) (some_eq e)) r

none_in : Represents [] (all_shares [])
unfolding find all_shares load
none_in p = refl

-- In every run of transfers whose durations are not negative and which are not interrupted in a sleep
-- but their first, whatever the order in which they begin, go on and end, and whatever limits they
-- share: the counter has an entry for exactly the paths that a transfer has a limit at which began
-- and did not end with a last state, with the number of these transfers and the sums of their last
-- times and sizes. One that is interrupted in its first sleep has no last state, and stays among them.
pub Run-Represents :
    {least_time : ℕ → ℕ → ℕ} {s : Speeds} {ts : List Transfer}
    → Run least_time s ts
    → Represents s (all_shares ts)
unfolding clear
Run-Represents idle = none_in
Run-Represents {least_time} (begin {s} {s'} {ts} n limits current r e) =
    let (m, t, f, h, k) = update-begin least_time s ts limits current (Run-Represents r) in
    Represents-some m n t s' (all_shares (record { limits = limits; last = current } ∷ ts))
      (sym f ∙ e) k
Run-Represents {least_time} (progress {s} {s'} xs ys n limits l current r e) =
    let (m, t, f, h, k) = update-progress least_time s xs ys limits l current (Run-Represents r) in
    Represents-some m n t s' (all_shares (xs ++ (record { limits = limits; last = current } ∷ ys)))
      (sym f ∙ e) k
Run-Represents (end {s} {s'} xs ys limits l r e) =
    let (t, f, k) = clear-end s xs ys limits l (Run-Represents r) in
    subst (λ u. Represents u (all_shares (xs ++ ys))) (some_eq (sym f ∙ e)) k
Run-Represents (go {s} {s'} {ts} limits r e) =
    subst (λ u. Represents u (all_shares ts)) (some_eq e) (Run-Represents r)

-- In every run of transfers whose durations are not negative and which are not interrupted in a sleep
-- but their first, each of them that is counted can go on, with such a duration, and can end, and
-- another one can begin: no assertion fails, nothing is divided by zero, and no transfer is put to
-- sleep for more than 100 milliseconds.
pub Run-succeeds :
    {least_time : ℕ → ℕ → ℕ} {s : Speeds} (xs ys : List Transfer) (t : Transfer)
    (limits : List Limit) (current : SpeedInfo)
    → Run least_time s (xs ++ (t ∷ ys))
    → ((n : ℕ) × (s' : Speeds) × (update least_time (some t.last) current t.limits s ≡ some (n, s'))
        × (n ≤ 100000))
      × ((s' : Speeds) × (clear (some t.last) t.limits s ≡ some s'))
      × ((n : ℕ) × (s' : Speeds) × (update least_time none current limits s ≡ some (n, s'))
          × (n ≤ 100000))
Run-succeeds {least_time} {s} xs ys t limits current r =
    let k = Run-Represents r in
    let (n, s1, e, h, k1) = update-progress least_time s xs ys t.limits t.last current k in
    let (s2, f, k2) = clear-end s xs ys t.limits t.last k in
    let (m, s3, g, i, k3) = update-begin least_time s (xs ++ (t ∷ ys)) limits current k in
    ((n, s1, e, h), (s2, f), (m, s3, g, i))
