-- ===== src/Ftp/Client/Admission.antt =====
-- Whom PASS of src/cmd/rfc/pass.cpp logs in.
use ebftpd.Prelude.{
  ◌≡◌, ◌≢◌, ◌⊎◌, refl, sym, ap, ◌∙◌, inl, inr, Bool, true, false, not, none, some, List, Str, pos,
  minus_one, ◌-ℤ◌, ◌<ℤ◌, ℕ, leb, Bool-cases, Option-cases, ◌&&◌, if◌then◌else◌, arith,
}
use ebftpd.Ftp.Client.Laws.{same_result}
use ebftpd.Ftp.Client.Commands.{pass_lem, pass_read, dashed, counting}
use ebftpd.Acl.User.Data.{UserData}
use ebftpd.Acl.User.Flags.{deleted_flag, siteop_flag, exempt_flag, has_flag}
use ebftpd.Acl.User.Password.{verify_password}
use ebftpd.Ftp.Counters.{Counter, bit}
use ebftpd.Ftp.Enums.{ClientState, logged_out, logged_in, finished}
use ebftpd.Ftp.Client.{Client, Site, Result, leave, set_state, logout, set_logged_in, on_login}
use ebftpd.Ftp.Client.Execute.{
  pass, user_command, auth, admit, strip_dash, is_nil, max_password_attempts, expired,
}
use ebftpd.Ftp.Counters.Laws.{start_login_lem}

-- What is known of a user whom the server logs in.
pub record Admitted (site : Site) (u : UserData) (n : Counter) : Type 0 where
  pub from_allowed_address : site.address_allowed ≡ true
  pub not_deleted : has_flag u deleted_flag ≡ false
  pub not_expired : expired site.today u ≡ false
  pub siteop_if_shut : site.siteop_only ≡ true → has_flag u siteop_flag ≡ true
  pub has_a_directory : (site.start_up_dir_opens ≡ true) ⊎ (site.home_dir_opens ≡ true)
  pub below_limit :
      (u.num_logins ≡ minus_one) ⊎ (pos (n.personal u.id) -ℤ bit site.kicked <ℤ u.num_logins)

leave-state :
    (s : ClientState) (code code' : ℕ) (c c' : Client) (n n' : Counter)
    → leave s code c n ≡ some (c', n', code')
    → c'.state ≡ s
unfolding set_state logout
leave-state s code code' c c' n n' e = ground arith

-- A result in which the client is not logged in.
abbrev pub Outside : Result → Type 0
Outside r = (c' : Client) (n' : Counter) (code : ℕ) → r ≡ some (c', n', code) → c'.state ≢ logged_in

pub leave-Outside :
    (s : ClientState) (code : ℕ) (c : Client) (n : Counter)
    → s ≢ logged_in
    → Outside (leave s code c n)
leave-Outside s code c n ne c' n' code' e f = ne (sym (leave-state s code code' c c' n n' e) ∙ f)

pub same-Outside :
    (c d : Client) (n : Counter) (code : ℕ)
    → d.state ≡ c.state
    → c.state ≢ logged_in
    → Outside (some (d, n, code))
same-Outside c d n code g ne c' n' code' e f =
    ne (sym g ∙ (ap (λ (r : Client × Counter × ℕ). r.0.state) (same_result e) ∙ f))

-- The counter takes the user in, or PASS ends the session.
entered-cases :
    (site : Site) (u : UserData) (c : Client) (n : Counter)
    → ((set_logged_in site u c n).0 ≡ false)
      ⊎ ((u.num_logins ≡ minus_one) ⊎ (pos (n.personal u.id) -ℤ bit site.kicked <ℤ u.num_logins))
unfolding set_logged_in
entered-cases site u c n =
    elim (start_login_lem site.users site.exempt_users n u.id u.num_logins site.kicked
      (has_flag u exempt_flag)) [
        | inl (e, _, _) ↦ inl (ap (λ r. (on_login c r).0) e)
        | inr (_, k) ↦ inr k
      ]

checked-Outside :
    (site : Site) (u : UserData) (c : Client) (n : Counter)
    → (set_logged_in site u c n).0 ≡ false
    → Outside (
        let (entered, c', n') = set_logged_in site u c n in
        if entered then some (c', n', 230) else leave finished 421 c' n')
checked-Outside site u c n e = rw e (
    leave-Outside finished 421 (set_logged_in site u c n).1 (set_logged_in site u c n).2
      (λ k. cc k))

admit-cases :
    (site : Site) (u : UserData) (c : Client) (n : Counter)
    → c.state ≢ logged_in
    → Outside (admit site u c n) ⊎ Admitted site u n
unfolding admit
admit-cases site u c n ne = elim (Bool-cases site.address_allowed) [
  | inr a ↦ inl (simp a gone)
  | inl a ↦ elim (Bool-cases (has_flag u deleted_flag)) [
    | inl d ↦ inl (simp (a, d) gone)
    | inr d ↦ elim (Bool-cases (site.siteop_only && not (has_flag u siteop_flag))) [
      | inl s ↦ inl (simp (a, d, s) (same-Outside c c n 421 refl ne))
      | inr s ↦ elim (Bool-cases (not site.start_up_dir_opens && not site.home_dir_opens)) [
        | inl o ↦ inl (simp (a, d, s, o) gone)
        | inr o ↦ elim (Bool-cases (expired site.today u)) [
          | inl x ↦ inl (simp (a, d, s, o, x) gone)
          | inr x ↦ elim (entered-cases site u c n) [
            | inl e ↦ inl (simp (a, d, s, o, x) (checked-Outside site u c n e))
            | inr l ↦ inr (record {
              from_allowed_address = a;
              not_deleted = d;
              not_expired = x;
              siteop_if_shut = λ k. ground (arith, s, k);
              has_a_directory = ground (arith, o);
              below_limit = l;
            })
          ]
        ]
      ]
    ]
  ]
]
  where
    gone : Outside (leave finished 421 c n)
    gone = leave-Outside finished 421 c n (λ k. cc k)

-- What the argument of PASS says of the session's user.
pub record Proven (site : Site) (arg_str : Str) (c : Client) (n : Counter) : Type 0 where
  pub proven_user : UserData
  pub chosen : c.user ≡ some proven_user
  pub password_right : verify_password site.hash_password proven_user (strip_dash arg_str).1 ≡ true
  pub admitted : Admitted site proven_user n

dashed-Outside :
    (dash : Bool) (c : Client) (n : Counter) (code : ℕ)
    → c.state ≢ logged_in
    → Outside (some (dashed dash c, n, code))
dashed-Outside true c n code ne = same-Outside c (dashed true c) n code refl ne
dashed-Outside false c n code ne = same-Outside c c n code refl ne

pub none-Outside : Outside none
none-Outside c' n' code e f = cc e

-- Without a user PASS replies a syntax error, or dereferences nothing.
lost-Outside :
    (site : Site) (arg_str : Str) (c : Client) (n : Counter)
    → c.state ≢ logged_in
    → c.user ≡ none
    → Outside (pass site arg_str c n)
unfolding pass
lost-Outside site arg_str c n ne k = elim (Bool-cases (is_nil (strip_dash arg_str).1)) [
  | inl e ↦ simp (pass, e) (dashed-Outside (strip_dash arg_str).0 c n 501 ne)
  | inr e ↦ simp (pass, e, k) none-Outside
]

-- PASS of a user, after the attempt was counted.
verified-cases :
    (site : Site) (password : Str) (u : UserData) (c : Client) (n : Counter)
    → c.state ≢ logged_in
    → Outside (
        if verify_password site.hash_password u password
        then admit site u c n
        else if leb max_password_attempts c.password_attempts
        then leave finished 530 c n
        else leave logged_out 530 c n)
      ⊎ ((verify_password site.hash_password u password ≡ true) × Admitted site u n)
verified-cases site password u c n ne =
    elim (Bool-cases (verify_password site.hash_password u password)) [
      | inl e ↦ elim (admit-cases site u c n ne) [ inl o ↦ inl (rw e o) | inr a ↦ inr (e, a) ]
      | inr e ↦ elim (Bool-cases (leb max_password_attempts c.password_attempts)) [
        | inl f ↦ inl (rw (e, f) (leave-Outside finished 530 c n (λ k. cc k)))
        | inr f ↦ inl (rw (e, f) (leave-Outside logged_out 530 c n (λ k. cc k)))
      ]
    ]

read-cases :
    (site : Site) (c : Client) (n : Counter) (dash : Bool) (password : Str) (u : UserData)
    → c.state ≢ logged_in
    → Outside (pass_read site c n dash password u)
      ⊎ ((verify_password site.hash_password u password ≡ true) × Admitted site u n)
read-cases site c n dash password u ne = elim (Bool-cases (is_nil password)) [
  | inl e ↦ inl (rw e (dashed-Outside dash c n 501 ne))
  | inr e ↦
      elim (verified-cases site password u (counting (dashed dash c)) n
        (λ k. ne (sym (dashed-state dash) ∙ k))) [ inl o ↦ inl (rw e o) | inr a ↦ inr a ]
]
  where
    dashed-state : (dash : Bool) → (counting (dashed dash c)).state ≡ c.state
    dashed-state true = refl
    dashed-state false = refl

pub pass-cases :
    (site : Site) (arg_str : Str) (c : Client) (n : Counter)
    → c.state ≢ logged_in
    → Outside (pass site arg_str c n) ⊎ Proven site arg_str c n
pass-cases site arg_str c n ne = elim (Option-cases c.user) [
  | inl k ↦ inl (lost-Outside site arg_str c n ne k)
  | inr (u, k) ↦ elim (read-cases site c n (strip_dash arg_str).0 (strip_dash arg_str).1 u ne) [
    | inl o ↦ inl (rw (pass_lem site c n arg_str u k) o)
    | inr (e, a) ↦ inr (record { proven_user = u; chosen = k; password_right = e; admitted = a })
  ]
]

pub auth-Outside :
    (site : Site) (args : List Str) (c : Client) (n : Counter)
    → c.state ≢ logged_in
    → Outside (auth site args c n)
unfolding auth
auth-Outside site args c n ne c' n' code e f = ground arith

pub user_command-Outside :
    (site : Site) (arg_str : Str) (c : Client) (n : Counter)
    → c.state ≢ logged_in
    → Outside (user_command site arg_str c n)
unfolding user_command
user_command-Outside site arg_str c n ne c' n' code e f = ground arith
