-- ===== src/Ftp/Client/Laws.antt =====
-- What one command does to a session: it succeeds in every reachable state, and keeps it coherent.
use ebftpd.Acl.User.Flags.{deleted_flag, siteop_flag, exempt_flag}
use ebftpd.Prelude.{
  ◌≡◌, ◌≢◌, ◌⊎◌, refl, ◌∙◌, inl, inr, Bool, true, false, not, Option, none, some, ℤ, ℕ, Bool-cases,
  Option-cases, ◌&&◌, if◌then◌else◌, arith,
}
use ebftpd.Acl.User.Data.{UserData}
use mathlib.Core.Option
use ebftpd.Ftp.Counters.{Counter, enter, stop}
use ebftpd.Ftp.Enums.{
  ClientState, logged_out, waiting_password, logged_in, finished, not_before_auth, any_state,
  state_code, same_state,
}
use ebftpd.Ftp.Counters.Laws.{start_login_lem}
use ebftpd.Ftp.Client.{
  set_logged_in, has_flag, no_reply, Client, new_client, Site, Result, set_state, logout,
  check_state, leave,
}
use ebftpd.Ftp.Client.Execute.{expired, admit}

-- A session counts in the login counter exactly while it is logged in, and it has a user from the
-- USER command on.
pub record IsCoherent (c : Client) : Type 0 where
  pub guarded : c.is_guarded ≡ same_state c.state logged_in
  pub known : (c.user ≡ none) → (c.state ≡ logged_out) ⊎ (c.state ≡ finished)
  pub proper : (c.state ≢ not_before_auth) × (c.state ≢ any_state)

pub new_client-IsCoherent : IsCoherent new_client
unfolding new_client state_code
new_client-IsCoherent = ground arith

-- The user that the session counts for, if it counts.
abbrev pub open_uid : Client → Option ℤ
open_uid c = if c.is_guarded then Option.map (λ (u : UserData). u.id) c.user else none

-- What a command does to the counter: nothing, or it enters the session's user, or takes him out.
abbrev pub Effect : Option ℤ → Option ℤ → Counter → Counter → Type 0
Effect a b n n' =
    ((b ≡ a) × (n' ≡ n))
    ⊎ (((uid : ℤ) × (a ≡ none) × (b ≡ some uid) × (n' ≡ enter n uid))
        ⊎ ((uid : ℤ) × (a ≡ some uid) × (b ≡ none) × (stop n uid ≡ some n')))

-- The call ends without a failed assertion.
abbrev pub Ends : Client → Counter → Result → Type 0
Ends c n r =
    (c' : Client) × (n' : Counter) × (code : ℕ) × (r ≡ some (c', n', code))
    × IsCoherent c'
    × Effect (open_uid c) (open_uid c') n n'

-- The assertions of the counter hold for the session's user.
abbrev pub CanStop : Client → Counter → Type 0
CanStop c n = (uid : ℤ) → open_uid c ≡ some uid → (n' : Counter) × (stop n uid ≡ some n')

pub same_result : {a b : Client × Counter × ℕ} → some a ≡ some b → a ≡ b
same_result e = cc

pub stay :
    (c c' : Client) (n : Counter) (code : ℕ)
    → IsCoherent c'
    → open_uid c' ≡ open_uid c
    → Ends c n (some (c', n, code))
stay c c' n code h e = (c', n, code, refl, h, inl (e, refl))

set_state-unguarded :
    (c : Client) (n : Counter)
    → same_state c.state logged_in ≡ false
    → set_state finished c n ≡ some (record c { state = finished }, n, no_reply)
unfolding set_state
set_state-unguarded c n e = rw (e, set_state) refl

set_state-guarded :
    (c : Client) (n n' : Counter) (u : UserData)
    → c.user ≡ some u
    → c.is_guarded ≡ true
    → same_state c.state logged_in ≡ true
    → stop n u.id ≡ some n'
    → set_state finished c n
      ≡ some (record c { state = finished; is_guarded = false }, n', no_reply)
unfolding set_state logout
set_state-guarded c n n' u k g e f = ground (arith, k, g, e, f)

finish_unguarded :
    (c : Client) (n : Counter) (code : ℕ)
    → IsCoherent c
    → same_state c.state logged_in ≡ false
    → Ends c n (leave finished code c n)
unfolding state_code
finish_unguarded c n code h e = (
  record c { state = finished },
  n,
  code,
  rw (set_state-unguarded c n e, leave),
  record { guarded = h.guarded ∙ e; known = λ k. inr refl; proper = ground arith },
  inl (refl, refl),
)

finish_guarded :
    (c : Client) (n : Counter) (code : ℕ) (u : UserData)
    → IsCoherent c
    → CanStop c n
    → c.user ≡ some u
    → same_state c.state logged_in ≡ true
    → Ends c n (leave finished code c n)
unfolding state_code
finish_guarded c n code u h can k e =
    let g : c.is_guarded ≡ true = h.guarded ∙ e in
    let counted : open_uid c ≡ some u.id = rw (g, k) in
    let (n', f) = can u.id counted in
    (
      record c { state = finished; is_guarded = false },
      n',
      code,
      rw (set_state-guarded c n n' u k g e f, leave),
      record { guarded = refl; known = λ k. inr refl; proper = ground arith },
      inr (inr (u.id, counted, refl, f)),
    )

-- Ending a session passes the assertions.
pub leave-Ends :
    (c : Client) (n : Counter) (code : ℕ)
    → IsCoherent c
    → CanStop c n
    → Ends c n (leave finished code c n)
unfolding state_code
leave-Ends c n code h can = elim (Bool-cases (same_state c.state logged_in)) [
  | inr e ↦ finish_unguarded c n code h e
  | inl e ↦ elim (Option-cases c.user) [
    | inr (u, k) ↦ finish_guarded c n code u h can k e
    | inl k ↦ absurd (not_known e (h.known k))
  ]
]
  where
    not_known :
        same_state c.state logged_in ≡ true → (c.state ≡ logged_out) ⊎ (c.state ≡ finished) → ⊥
    not_known e (inl k) = ground (arith, k, e)
    not_known e (inr k) = ground (arith, k, e)

pub not_guarded : (c : Client) → IsCoherent c → c.state ≡ waiting_password → c.is_guarded ≡ false
unfolding state_code
not_guarded c h w = ground (arith, h.guarded)

-- Logging in enters the user in the counter, or changes nothing.
pub set_logged_in_lem :
    (site : Site) (u : UserData) (c : Client) (n : Counter)
    → (set_logged_in site u c n ≡ (false, c, n))
      ⊎ (set_logged_in site u c n
          ≡ (true, record c { is_guarded = true; state = logged_in }, enter n u.id))
unfolding set_logged_in
set_logged_in_lem site u c n =
    elim (start_login_lem site.users site.exempt_users n u.id u.num_logins site.kicked
      (has_flag u exempt_flag)) [
        | inl (e, _, _) ↦ inl (rw (e, set_logged_in) refl)
        | inr (e, _) ↦ inr (rw (e, set_logged_in) refl)
      ]

module _ (site : Site) (u : UserData) (c : Client) (n : Counter) (h : IsCoherent c)
    (can : CanStop c n) (w : c.state ≡ waiting_password) (k : c.user ≡ some u) where
  entered-Ends :
      Ends c n (some (record c { is_guarded = true; state = logged_in }, enter n u.id, 230))
  unfolding state_code
  entered-Ends = (
    record c { is_guarded = true; state = logged_in },
    enter n u.id,
    230,
    refl,
    record { guarded = refl; known = λ e. cc (e, k); proper = ground arith },
    inr (inl (u.id, rw (not_guarded c h w) refl, rw k refl, refl)),
  )

  admit_checked-Ends : Ends c n (
      let (entered, c', n') = set_logged_in site u c n in
      if entered then some (c', n', 230) else leave finished 421 c' n')
  admit_checked-Ends = elim (set_logged_in_lem site u c n) [
    | inl e ↦ rw e (leave-Ends c n 421 h can)
    | inr e ↦ rw e entered-Ends
  ]

  pub admit-Ends : Ends c n (admit site u c n)
  unfolding admit
  admit-Ends = elim (Bool-cases site.address_allowed) [
    | inr a ↦ simp a (leave-Ends c n 421 h can)
    | inl a ↦ elim (Bool-cases (has_flag u deleted_flag)) [
      | inl d ↦ simp (a, d) (leave-Ends c n 421 h can)
      | inr d ↦ elim (Bool-cases (site.siteop_only && not (has_flag u siteop_flag))) [
        | inl s ↦ simp (a, d, s) (stay c c n 421 h refl)
        | inr s ↦ elim (Bool-cases (not site.start_up_dir_opens && not site.home_dir_opens)) [
          | inl o ↦ simp (a, d, s, o) (leave-Ends c n 421 h can)
          | inr o ↦ elim (Bool-cases (expired site.today u)) [
            | inl x ↦ simp (a, d, s, o, x) (leave-Ends c n 421 h can)
            | inr x ↦ simp (a, d, s, o, x) admit_checked-Ends
          ]
        ]
      ]
    ]
  ]

-- A command's guard answers, as the client is not finished.
pub check_state-ok :
    (required : ClientState) (c : Client)
    → same_state c.state finished ≡ false
    → (allowed : Bool) × (code : ℕ) × (check_state required c ≡ some (allowed, code))
unfolding check_state state_code
check_state-ok required c e = answered (check_state required c) (ground arith)
  where
    answered :
        (r : Option (Bool × ℕ))
        → r ≢ none
        → (allowed : Bool) × (code : ℕ) × (r ≡ some (allowed, code))
    answered none h = absurd (h refl)
    answered (some (allowed, code)) h = (allowed, code, refl)
