-- ===== src/Ftp/Client/Total.antt =====
-- ExecuteCommand of src/ftp/clientimpl.cpp ends in every reachable state: no assertion fails.
use ebftpd.Prelude.{
  ◌≡◌, ◌≢◌, ◌⊎◌, refl, ap, inl, inr, Bool, true, false, not, some, Str, codes, str_eq, str_eq_sound,
  pos, minus_one, subst, ℕ, Bool-cases, Option-cases, ◌&&◌, if◌then◌else◌, arith,
}
use ebftpd.Cmd.Rfc.{CommandDef, find_def, entry, lookup, check_args}
use ebftpd.Ftp.Counters.{Counter}
use ebftpd.Ftp.Client.{Client, Site, Line, no_reply, check_state}
use ebftpd.Ftp.Client.Execute.{execute, execute_command, args_size}
use ebftpd.Ftp.Client.Commands.{execute-Ends}
use ebftpd.Ftp.Client.Laws.{IsCoherent, CanStop, Ends, stay, check_state-ok}
use ebftpd.Ftp.Enums.{
  ClientState, logged_out, waiting_password, logged_in, finished, same_state, state_code,
}

-- The table's state for a name.
lookup_at :
    (name key : Str) (def d : CommandDef)
    → str_eq name key ≡ true
    → lookup key ≡ some d
    → lookup name ≡ some def
    → def ≡ d
lookup_at name key def d e f g = cc (f, g, ap lookup (str_eq_sound name key e))

abbrev pub pass_def : CommandDef
pass_def = entry (pos 0) minus_one waiting_password true

abbrev user_def : CommandDef
user_def = entry (pos 1) minus_one logged_out true

pub found_pass : lookup (codes "PASS") ≡ some pass_def
unfolding lookup find_def str_eq
found_pass = refl

found_user : lookup (codes "USER") ≡ some user_def
unfolding lookup find_def str_eq
found_user = refl

check_state-required :
    (required : ClientState) (c : Client) (code : ℕ)
    → check_state required c ≡ some (true, code)
    → (required ≡ logged_out) ⊎ (required ≡ waiting_password)
    → c.state ≡ required
unfolding check_state state_code
check_state-required required c code e f = ground arith

not_finished : (c : Client) → c.state ≢ finished → same_state c.state finished ≡ false
unfolding state_code
not_finished c live = ground arith

-- What the table and the guard let through, the command's own assertions accept.
pub let_through :
    (name key : Str) (def d : CommandDef) (c : Client) (code : ℕ)
    → lookup name ≡ some def
    → lookup key ≡ some d
    → check_state def.required_state c ≡ some (true, code)
    → (d.required_state ≡ logged_out) ⊎ (d.required_state ≡ waiting_password)
    → str_eq name key ≡ true
    → c.state ≡ d.required_state
let_through name key def d c code e f g o i =
    let same = lookup_at name key def d i f e in
    check_state-required d.required_state c code
      (subst (λ (x : CommandDef). check_state x.required_state c ≡ some (true, code)) same g) o

module _ (site : Site) (line : Line) (c : Client) (n : Counter) (h : IsCoherent c)
    (can : CanStop c n) where
  allowed-Ends :
      (def : CommandDef) (code : ℕ)
      → lookup line.name ≡ some def
      → check_state def.required_state c ≡ some (true, code)
      → Ends c n (execute site line c n)
  allowed-Ends def code e g =
      execute-Ends site line c n h can
        (let_through line.name (codes "PASS") def pass_def c code e found_pass g (inr refl))
        (let_through line.name (codes "USER") def user_def c code e found_user g (inl refl))

  -- A command that the table has.
  found-Ends :
      (def : CommandDef) (allowed : Bool) (code : ℕ)
      → lookup line.name ≡ some def
      → check_state def.required_state c ≡ some (allowed, code)
      → Ends c n (
          if not allowed
          then some (c, n, code)
          else if same_state c.state logged_in && not site.pre_script
          then some (c, n, no_reply)
          else if not def.is_implemented
          then some (c, n, 502)
          else execute site line c n)
  found-Ends def false code e g = stay c c n code h refl
  found-Ends def true code e g =
      elim (Bool-cases (same_state c.state logged_in && not site.pre_script)) [
        | inl s ↦ rw s (stay c c n no_reply h refl)
        | inr s ↦ elim (Bool-cases (not def.is_implemented)) [
          | inl i ↦ rw (s, i) (stay c c n 502 h refl)
          | inr i ↦ rw (s, i) (allowed-Ends def code e g)
        ]
      ]

pub execute_command-Ends :
    (site : Site) (line : Line) (c : Client) (n : Counter)
    → IsCoherent c
    → c.state ≢ finished
    → CanStop c n
    → Ends c n (execute_command site line c n)
unfolding execute_command
execute_command-Ends site line c n h live can = elim (Option-cases (lookup line.name)) [
  | inl e ↦ rw (e, execute_command) (stay c c n 500 h refl)
  | inr (def, e) ↦ elim (Bool-cases (not (check_args def (args_size line.args)))) [
    | inl k ↦ rw (e, execute_command, k) (stay c c n 501 h refl)
    | inr k ↦
        let (allowed, code, g) = check_state-ok def.required_state c (not_finished c live) in
        rw (e, execute_command, k, g) (found-Ends site line c n h can def allowed code e g)
  ]
]
