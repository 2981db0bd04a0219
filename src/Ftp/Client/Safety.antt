-- ===== src/Ftp/Client/Safety.antt =====
-- Who gets logged in by ExecuteCommand of src/ftp/clientimpl.cpp.
use ebftpd.Prelude.{
  ◌≡◌, ◌≢◌, ◌⊎◌, refl, inl, inr, Bool, true, false, not, some, codes, str_eq, ℕ, Bool-cases,
  Option-cases, ◌&&◌, if◌then◌else◌,
}
use ebftpd.Ftp.Client.Admission.{
  Outside, Proven, leave-Outside, same-Outside, none-Outside, pass-cases, auth-Outside,
  user_command-Outside,
}
use ebftpd.Ftp.Client.Total.{let_through, found_pass, pass_def}
use ebftpd.Cmd.Rfc.{CommandDef, lookup, check_args}
use ebftpd.Ftp.Counters.{Counter}
use ebftpd.Ftp.Enums.{waiting_password, logged_in, finished, same_state}
use ebftpd.Ftp.Client.{Client, Site, Line, no_reply, check_state}
use ebftpd.Ftp.Client.Execute.{execute, execute_command, args_size}

execute-cases :
    (site : Site) (line : Line) (c : Client) (n : Counter)
    → c.state ≢ logged_in
    → Outside (execute site line c n)
      ⊎ ((str_eq line.name (codes "PASS") ≡ true) × Proven site line.arg_str c n)
unfolding execute
execute-cases site line c n ne = elim (Bool-cases (str_eq line.name (codes "PASS"))) [
  | inl e ↦ elim (pass-cases site line.arg_str c n ne) [ inl o ↦ inl (rw e o) | inr a ↦ inr (e, a) ]
  | inr e ↦ inl (elim (Bool-cases (str_eq line.name (codes "USER"))) [
    | inl f ↦ rw (e, f) (user_command-Outside site line.arg_str c n ne)
    | inr f ↦ elim (Bool-cases (str_eq line.name (codes "QUIT"))) [
      | inl g ↦ rw (e, f, g) (leave-Outside finished 221 c n (λ k. cc k))
      | inr g ↦ elim (Bool-cases (str_eq line.name (codes "AUTH"))) [
        | inl i ↦ rw (e, f, g, i) (auth-Outside site line.args c n ne)
        | inr i ↦ rw (e, f, g, i) (same-Outside c c n no_reply refl ne)
      ]
    ]
  ])
]

-- The guard of the table for PASS.
abbrev Passed : Site → Line → Client → Counter → Type 0
Passed site line c n =
    (str_eq line.name (codes "PASS") ≡ true)
    × (c.state ≡ waiting_password)
    × Proven site line.arg_str c n

found-cases :
    (site : Site) (line : Line) (c : Client) (n : Counter) (def : CommandDef) (allowed : Bool)
    (code : ℕ)
    → c.state ≢ logged_in
    → lookup line.name ≡ some def
    → check_state def.required_state c ≡ some (allowed, code)
    → Outside (
        if not allowed
        then some (c, n, code)
        else if same_state c.state logged_in && not site.pre_script
        then some (c, n, no_reply)
        else if not def.is_implemented
        then some (c, n, 502)
        else execute site line c n)
      ⊎ Passed site line c n
found-cases site line c n def false code ne e g = inl (same-Outside c c n code refl ne)
found-cases site line c n def true code ne e g =
    elim (Bool-cases (same_state c.state logged_in && not site.pre_script)) [
      | inl s ↦ inl (rw s (same-Outside c c n no_reply refl ne))
      | inr s ↦ elim (Bool-cases (not def.is_implemented)) [
        | inl i ↦ inl (rw (s, i) (same-Outside c c n 502 refl ne))
        | inr i ↦ elim (execute-cases site line c n ne) [
          | inl o ↦ inl (rw (s, i) o)
          | inr (k, a) ↦ inr (
            k,
            let_through line.name (codes "PASS") def pass_def c code e found_pass g (inr refl) k,
            a,
          )
        ]
      ]
    ]

execute_command-cases :
    (site : Site) (line : Line) (c : Client) (n : Counter)
    → c.state ≢ logged_in
    → Outside (execute_command site line c n) ⊎ Passed site line c n
unfolding execute_command
execute_command-cases site line c n ne = elim (Option-cases (lookup line.name)) [
  | inl e ↦ inl (rw (e, execute_command) (same-Outside c c n 500 refl ne))
  | inr (def, e) ↦ elim (Bool-cases (not (check_args def (args_size line.args)))) [
    | inl k ↦ inl (rw (e, execute_command, k) (same-Outside c c n 501 refl ne))
    | inr k ↦ elim (Option-cases (check_state def.required_state c)) [
      | inl g ↦ inl (rw (e, execute_command, k, g) none-Outside)
      | inr ((allowed, code), g) ↦ elim (found-cases site line c n def allowed code ne e g) [
        | inl o ↦ inl (rw (e, execute_command, k, g) o)
        | inr p ↦ inr p
      ]
    ]
  ]
]

-- A command after which a session is logged in that was not before is PASS, given after USER with
-- the right password of the user whom USER chose; and he comes from an allowed address, is not
-- deleted and not expired, has a directory to start in, is a siteop where the server is shut, and
-- has fewer logins than his limit, beside one that was kicked.
pub execute_command-Proven :
    (site : Site) (line : Line) (c c' : Client) (n n' : Counter) (code : ℕ)
    → c.state ≢ logged_in
    → execute_command site line c n ≡ some (c', n', code)
    → c'.state ≡ logged_in
    → (str_eq line.name (codes "PASS") ≡ true)
      × (c.state ≡ waiting_password)
      × Proven site line.arg_str c n
execute_command-Proven site line c c' n n' code ne e f =
    elim (execute_command-cases site line c n ne) [ inl o ↦ absurd (o c' n' code e f) | inr p ↦ p ]
