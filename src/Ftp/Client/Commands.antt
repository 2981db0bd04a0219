-- ===== src/Ftp/Client/Commands.antt =====
-- PASS, USER, AUTH and QUIT end without a failed assertion in the states that they require
-- (src/cmd/rfc/pass.cpp and commands.cpp).
use ebftpd.Prelude.{
  ◌≡◌, refl, ◌∙◌, inl, inr, Bool, true, false, not, none, some, List, [], ◌∷◌, Str, codes, str_eq,
  ℕ, ◌+◌, leb, Bool-cases, Option-cases, ◌&&◌, ◌||◌, if◌then◌else◌, arith,
}
use ebftpd.Acl.User.Data.{UserData}
use ebftpd.Acl.User.Flags.{template_flag, has_flag}
use ebftpd.Acl.User.Password.{verify_password}
use ebftpd.Acl.Rules.{AclInfo, evaluate}
use ebftpd.Ftp.Counters.{Counter}
use ebftpd.Ftp.Client.{Client, Site, Line, Result, no_reply, leave, set_state, set_waiting_password}
use ebftpd.Ftp.Client.Execute.{
  pass, user_command, auth, execute, admit, strip_dash, is_nil, strip_bang, max_password_attempts,
}
use ebftpd.Ftp.Client.Alike.{Alike, Alike-IsCoherent, Alike-CanStop, Alike-Ends, keeps}
use ebftpd.Ftp.Client.Laws.{IsCoherent, CanStop, Ends, stay, leave-Ends, admit-Ends, not_guarded}
use ebftpd.Ftp.Enums.{logged_out, waiting_password, finished, state_code}

-- Without a password the session returns to its start.
logged_out-Ends :
    (c : Client) (n : Counter) (code : ℕ)
    → IsCoherent c
    → c.state ≡ waiting_password
    → Ends c n (leave logged_out code c n)
unfolding set_state state_code
logged_out-Ends c n code h w = (
  record c { state = logged_out },
  n,
  code,
  refl,
  record { guarded = not_guarded c h w; known = λ k. inl refl; proper = ground arith },
  inl (refl, refl),
)

-- The client that PASS goes on with, where it begins with a dash and where not.
abbrev pub dashed : Bool → Client → Client
dashed dash c = if dash then record c { single_line_replies = true } else c

abbrev pub counting : Client → Client
counting c = record c { password_attempts = c.password_attempts + 1 }

dashed-Alike : (dash : Bool) (c : Client) → Alike c (dashed dash c)
dashed-Alike true c = record { same_place = refl; same_user = refl; same_guard = refl }
dashed-Alike false c = record { same_place = refl; same_user = refl; same_guard = refl }

counting-Alike : (c : Client) → Alike c (counting c)
counting-Alike c = record { same_place = refl; same_user = refl; same_guard = refl }

module _ (site : Site) (c : Client) (n : Counter) (h : IsCoherent c) (can : CanStop c n) where
  -- PASS for a user, after the attempt was counted.
  verified-Ends :
      (password : Str) (u : UserData)
      → c.user ≡ some u
      → c.state ≡ waiting_password
      → Ends c n (
          if verify_password site.hash_password u password
          then admit site u c n
          else if leb max_password_attempts c.password_attempts
          then leave finished 530 c n
          else leave logged_out 530 c n)
  verified-Ends password u k w = elim (Bool-cases (verify_password site.hash_password u password)) [
    | inl e ↦ rw e (admit-Ends site u c n h can w k)
    | inr e ↦ elim (Bool-cases (leb max_password_attempts c.password_attempts)) [
      | inl f ↦ rw (e, f) (leave-Ends c n 530 h can)
      | inr f ↦ rw (e, f) (logged_out-Ends c n 530 h w)
    ]
  ]

  chosen-Ends :
      (u : UserData) (kick_login : Bool)
      → c.state ≡ logged_out
      → Ends c n (some (set_waiting_password u kick_login c, n, 331))
  unfolding state_code
  chosen-Ends u kick_login w =
      let idle : c.is_guarded ≡ false = ground (arith, h.guarded, w) in
      stay c (set_waiting_password u kick_login c) n 331
        (record { guarded = idle; known = λ e. cc e; proper = ground arith }) (cc idle)

  user_command-Ends :
      (arg_str : Str) → c.state ≡ logged_out → Ends c n (user_command site arg_str c n)
  unfolding user_command
  user_command-Ends arg_str w = elim (Option-cases (site.load (strip_bang arg_str).1)) [
    | inl e ↦ rw (e, user_command) (stay c c n 530 h refl)
    | inr (u, e) ↦ rw (e, user_command) (known_user u)
  ]
    where
      info : UserData → AclInfo
      info u = record {
        username = u.name;
        groupname = site.gid_to_name u.primary_gid;
        flags = u.flags;
      }

      known_user :
          (u : UserData)
          → Ends c n (
              if has_flag u template_flag
              then some (c, n, 530)
              else if (evaluate site.tls_control (info u)).0 && not c.is_tls
              then some (c, n, 530)
              else some (set_waiting_password u (strip_bang arg_str).0 c, n, 331))
      known_user u = elim (Bool-cases (has_flag u template_flag)) [
        | inl t ↦ rw t (stay c c n 530 h refl)
        | inr t ↦ elim (Bool-cases ((evaluate site.tls_control (info u)).0 && not c.is_tls)) [
          | inl l ↦ rw (t, l) (stay c c n 530 h refl)
          | inr l ↦ rw (t, l) (chosen-Ends u (strip_bang arg_str).0 w)
        ]
      ]

  auth-Ends : (args : List Str) → Ends c n (auth site args c n)
  unfolding auth
  auth-Ends args = elim (Bool-cases (not site.has_tls)) [
    | inl t ↦ rw t (stay c c n 504 h refl)
    | inr t ↦ rw t (negotiate args)
  ]
    where
      negotiate :
          (args : List Str)
          → Ends c n (elim args [
            | [] ↦ some (c, n, 504)
            | a ∷ _ ↦
                if str_eq a (codes "SSL") || str_eq a (codes "TLS")
                then some (record c { is_tls = true }, n, 234)
                else some (c, n, 504)
          ])
      negotiate [] = stay c c n 504 h refl
      negotiate (a ∷ rest) = elim (Bool-cases (str_eq a (codes "SSL") || str_eq a (codes "TLS"))) [
        | inl e ↦ rw e (
            keeps c (record c { is_tls = true }) n 234 h
              (record { same_place = refl; same_user = refl; same_guard = refl }))
        | inr e ↦ rw e (stay c c n 504 h refl)
      ]

-- PASS after the argument was read.
abbrev pub pass_read : Site → Client → Counter → Bool → Str → UserData → Result
pass_read site c n dash password u =
    let c0 = dashed dash c in
    let c1 = counting c0 in
    if is_nil password
    then some (c0, n, 501)
    else if verify_password site.hash_password u password
    then admit site u c1 n
    else if leb max_password_attempts c1.password_attempts
    then leave finished 530 c1 n
    else leave logged_out 530 c1 n

pub pass_lem :
    (site : Site) (c : Client) (n : Counter) (arg_str : Str) (u : UserData)
    → c.user ≡ some u
    → pass site arg_str c n ≡ pass_read site c n (strip_dash arg_str).0 (strip_dash arg_str).1 u
unfolding pass
pass_lem site c n arg_str u k = simp k refl

pass-Ends :
    (site : Site) (c : Client) (n : Counter) (arg_str : Str)
    → IsCoherent c
    → CanStop c n
    → c.state ≡ waiting_password
    → Ends c n (pass site arg_str c n)
unfolding state_code
pass-Ends site c n arg_str h can w = elim (Option-cases c.user) [
  | inl k ↦ absurd (no_user k)
  | inr (u, k) ↦
      rw (pass_lem site c n arg_str u k) (read u k (strip_dash arg_str).0 (strip_dash arg_str).1)
]
  where
    no_user : c.user ≡ none → ⊥
    no_user k = ground (arith, w, h.known k)

    read :
        (u : UserData)
        → c.user ≡ some u
        → (dash : Bool) (password : Str) → Ends c n (pass_read site c n dash password u)
    read u k dash password =
        let c0 = dashed dash c in
        let a = dashed-Alike dash c in
        let b : Alike c0 (counting c0) = counting-Alike c0 in
        let h0 = Alike-IsCoherent c c0 a h in
        let h1 = Alike-IsCoherent c0 (counting c0) b h0 in
        let can1 = Alike-CanStop c0 (counting c0) n b (Alike-CanStop c c0 n a can) in
        elim (Bool-cases (is_nil password)) [
          | inl e ↦ rw e (keeps c c0 n 501 h a)
          | inr e ↦ rw e (
              Alike-Ends c c0 n _ a (
                Alike-Ends c0 (counting c0) n _ b (
                  verified-Ends site (counting c0) n h1 can1 password u (a.same_user ∙ k)
                    (a.same_place ∙ w))))
        ]

pub execute-Ends :
    (site : Site) (line : Line) (c : Client) (n : Counter)
    → IsCoherent c
    → CanStop c n
    → (str_eq line.name (codes "PASS") ≡ true → c.state ≡ waiting_password)
    → (str_eq line.name (codes "USER") ≡ true → c.state ≡ logged_out)
    → Ends c n (execute site line c n)
unfolding execute
execute-Ends site line c n h can p u = elim (Bool-cases (str_eq line.name (codes "PASS"))) [
  | inl e ↦ rw e (pass-Ends site c n line.arg_str h can (p e))
  | inr e ↦ elim (Bool-cases (str_eq line.name (codes "USER"))) [
    | inl f ↦ rw (e, f) (user_command-Ends site c n h can line.arg_str (u f))
    | inr f ↦ elim (Bool-cases (str_eq line.name (codes "QUIT"))) [
      | inl g ↦ rw (e, f, g) (leave-Ends c n 221 h can)
      | inr g ↦ elim (Bool-cases (str_eq line.name (codes "AUTH"))) [
        | inl i ↦ rw (e, f, g, i) (auth-Ends site c n h can line.args)
        | inr i ↦ rw (e, f, g, i) (stay c c n no_reply h refl)
      ]
    ]
  ]
]
