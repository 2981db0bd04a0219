-- ===== src/Ftp/Client/Server.antt =====
-- The sessions of src/ftp/clientimpl.cpp together, over the one counter of
-- src/ftp/logincounter.cpp. The commands of the sessions follow each other in any order, and any
-- session may be interrupted between two of its commands.
use ebftpd.Prelude.{
  ◌++◌, ◌≡◌, subst, ◌≢◌, refl, sym, ap, ◌∙◌, inl, inr, Option, none, some, List, [], ◌∷◌, ℤ, ℕ,
  Bool-cases, arith,
}
use ebftpd.Acl.User.Flags.{deleted_flag, has_flag}
use ebftpd.Acl.User.Data.{UserData}
use ebftpd.Ftp.Counters.{Counter, new_counter}
use ebftpd.Ftp.Enums.{state_code, finished}
use ebftpd.Ftp.Client.{Client, new_client, Site, Line, Result, no_reply, leave}
use ebftpd.Ftp.Client.Execute.{reloaded, reload_user, execute_command}
use ebftpd.Ftp.Client.Laws.{
  same_result, IsCoherent, CanStop, Ends, Effect, open_uid, leave-Ends, stay, new_client-IsCoherent,
}
use ebftpd.Ftp.Client.Seats.{seats, all_seats, taken, seat, Counts, step-Counts, Counts-CanStop}
use ebftpd.Ftp.Client.Total.{execute_command-Ends}

pub data AllCoherent : List Client → Type 0 where
  nobody : AllCoherent []
  one_more : {c : Client} {cs : List Client} → IsCoherent c → AllCoherent cs → AllCoherent (c ∷ cs)

AllCoherent-at :
    (before : List Client) (c : Client) (after : List Client)
    → AllCoherent (before ++ c ∷ after)
    → IsCoherent c
AllCoherent-at [] c after (one_more h k) = h
AllCoherent-at (d ∷ before) c after (one_more h k) = AllCoherent-at before c after k

AllCoherent-set :
    (before : List Client) (c c' : Client) (after : List Client)
    → IsCoherent c'
    → AllCoherent (before ++ c ∷ after)
    → AllCoherent (before ++ c' ∷ after)
AllCoherent-set [] c c' after h (one_more k l) = one_more h l
AllCoherent-set (d ∷ before) c c' after h (one_more k l) =
    one_more k (AllCoherent-set before c c' after h l)

AllCoherent-drop :
    (before : List Client) (c : Client) (after : List Client)
    → AllCoherent (before ++ c ∷ after)
    → AllCoherent (before ++ after)
AllCoherent-drop [] c after (one_more k l) = l
AllCoherent-drop (d ∷ before) c after (one_more k l) =
    one_more k (AllCoherent-drop before c after l)

reload_user_lem :
    (loaded : Option UserData) (c : Client) (n : Counter) (u : UserData)
    → c.user ≡ some u
    → reload_user loaded c n ≡ reloaded loaded c n
unfolding reload_user
reload_user_lem loaded c n u k = simp (k, reload_user) refl

-- Where a reloaded profile is the one of the session's user, the call keeps the session coherent.
reload_user-Ends :
    (loaded : Option UserData) (c : Client) (n : Counter) (u : UserData)
    → IsCoherent c
    → CanStop c n
    → c.user ≡ some u
    → ((v : UserData) → loaded ≡ some v → v.id ≡ u.id)
    → Ends c n (reload_user loaded c n)
unfolding reload_user reloaded
reload_user-Ends none c n u h can k same =
    rw (reload_user_lem none c n u k) (leave-Ends c n no_reply h can)
reload_user-Ends (some v) c n u h can k same = elim (Bool-cases (has_flag v deleted_flag)) [
  | inl d ↦ rw (reload_user_lem (some v) c n u k, reloaded, d) (leave-Ends c n no_reply h can)
  | inr d ↦
      rw (reload_user_lem (some v) c n u k, reloaded, d)
        (stay c (record c { user = some v }) n no_reply
          (record { guarded = h.guarded; known = λ e. cc e; proper = h.proper }) counted)
]
  where
    counted : open_uid (record c { user = some v }) ≡ open_uid c
    counted = cc (k, same v refl)

-- The server's runs: what the counter is and which sessions there are.
pub data Runs : Counter → List Client → Type 0 where
  start : Runs new_counter []
  connect : {n : Counter} {cs : List Client} → Runs n cs → Runs n (new_client ∷ cs)
  command :
      {n n' : Counter} (before : List Client) (c : Client) {c' : Client} (after : List Client)
      (site : Site) (line : Line) (code : ℕ)
      → Runs n (before ++ c ∷ after)
      → c.state ≢ finished
      → execute_command site line c n ≡ some (c', n', code)
      → Runs n' (before ++ c' ∷ after)
  reload :
      {n n' : Counter} (before : List Client) (c : Client) {c' : Client} (after : List Client)
      (u : UserData) (loaded : Option UserData) (code : ℕ)
      → Runs n (before ++ c ∷ after)
      → c.user ≡ some u
      → ((v : UserData) → loaded ≡ some v → v.id ≡ u.id)
      → reload_user loaded c n ≡ some (c', n', code)
      → Runs n' (before ++ c' ∷ after)
  interrupt :
      {n n' : Counter} (before : List Client) (c : Client) {c' : Client} (after : List Client)
      (code : ℕ)
      → Runs n (before ++ c ∷ after)
      → leave finished no_reply c n ≡ some (c', n', code)
      → Runs n' (before ++ c' ∷ after)
  disconnect :
      {n : Counter} (before : List Client) (c : Client) (after : List Client)
      → Runs n (before ++ c ∷ after)
      → c.state ≡ finished
      → Runs n (before ++ after)

-- The invariant of the runs.
abbrev pub Sound : Counter → List Client → Type 0
Sound n cs = Counts n cs × AllCoherent cs

step-Sound :
    (before : List Client) (c c' : Client) (after : List Client) (n n' : Counter) (code : ℕ)
    (r : Result)
    → Sound n (before ++ c ∷ after)
    → Ends c n r
    → r ≡ some (c', n', code)
    → Sound n' (before ++ c' ∷ after)
step-Sound before c c' after n n' code r (h, k) (d, m, x, e, coherent, effect) f =
    let same : (d, m, x) ≡ (c', n', code) = same_result (sym e ∙ f) in
    (
      step-Counts before c c' after n n' h (
          subst (λ (y : Client × Counter × ℕ). Effect (open_uid c) (open_uid y.0) n y.1) same
            effect),
      AllCoherent-set before c c' after
          (subst (λ (y : Client × Counter × ℕ). IsCoherent y.0) same coherent) k,
    )

start-Counts : Counts new_counter []
unfolding new_counter seats all_seats
start-Counts = record { every = λ uid. refl; total = refl }

connect-Counts : (n : Counter) (cs : List Client) → Counts n cs → Counts n (new_client ∷ cs)
unfolding seats all_seats seat taken new_client
connect-Counts n cs h = record {
  every = λ uid. omega (arith, h.every uid);
  total = omega (arith, h.total);
}

-- A session that is over counts for nobody.
finished-open_uid : (c : Client) → IsCoherent c → c.state ≡ finished → open_uid c ≡ none
unfolding state_code
finished-open_uid c h e = ground (arith, h.guarded, e)

seats-drop :
    (uid : ℤ) (before : List Client) (c : Client) (after : List Client)
    → open_uid c ≡ none
    → seats uid (before ++ c ∷ after) ≡ seats uid (before ++ after)
unfolding seats seat
seats-drop uid [] c after e = omega (arith, ap (seat uid) e)
seats-drop uid (d ∷ before) c after e = omega (arith, seats-drop uid before c after e)

all_seats-drop :
    (before : List Client) (c : Client) (after : List Client)
    → open_uid c ≡ none
    → all_seats (before ++ c ∷ after) ≡ all_seats (before ++ after)
unfolding all_seats taken
all_seats-drop [] c after e = omega (arith, ap taken e)
all_seats-drop (d ∷ before) c after e = omega (arith, all_seats-drop before c after e)

disconnect-Counts :
    (before : List Client) (c : Client) (after : List Client) (n : Counter)
    → open_uid c ≡ none
    → Counts n (before ++ c ∷ after)
    → Counts n (before ++ after)
disconnect-Counts before c after n e h = record {
  every = λ uid. omega (arith, h.every uid, seats-drop uid before c after e);
  total = omega (arith, h.total, all_seats-drop before c after e);
}

-- Whatever the order of the sessions' commands, reloads and interruptions, and however the lookups
-- of each command end, the counter counts exactly the sessions that are logged in, for each user
-- and in all, and every session is coherent.
pub Runs-Sound : {n : Counter} {cs : List Client} → Runs n cs → Counts n cs × AllCoherent cs
Runs-Sound start = (start-Counts, AllCoherent.nobody)
Runs-Sound (connect {n} {cs} run) =
    let (h, k) = Runs-Sound run in
    (connect-Counts n cs h, AllCoherent.one_more new_client-IsCoherent k)
Runs-Sound (command {n} {n'} before c {c'} after site line code run live e) =
    let (h, k) = Runs-Sound run in
    step-Sound before c c' after n n' code (execute_command site line c n) (h, k)
      (execute_command-Ends site line c n (AllCoherent-at before c after k) live
        (Counts-CanStop before c after n h))
      e
Runs-Sound (reload {n} {n'} before c {c'} after u loaded code run f same e) =
    let (h, k) = Runs-Sound run in
    step-Sound before c c' after n n' code (reload_user loaded c n) (h, k)
      (reload_user-Ends loaded c n u (AllCoherent-at before c after k)
        (Counts-CanStop before c after n h) f same)
      e
Runs-Sound (interrupt {n} {n'} before c {c'} after code run e) =
    let (h, k) = Runs-Sound run in
    step-Sound before c c' after n n' code (leave finished no_reply c n) (h, k)
      (leave-Ends c n no_reply (AllCoherent-at before c after k)
        (Counts-CanStop before c after n h))
      e
Runs-Sound (disconnect {n} before c after run e) =
    let (h, k) = Runs-Sound run in
    let idle = finished-open_uid c (AllCoherent-at before c after k) e in
    (disconnect-Counts before c after n idle h, AllCoherent-drop before c after k)
