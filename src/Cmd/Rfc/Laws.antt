-- ===== src/Cmd/Rfc/Laws.antt =====
-- What the table of src/cmd/rfc/factory.cpp lets a client do before it is logged in.
use ebftpd.Prelude.{
  ◌≡◌, refl, ap, inl, inr, Bool, true, false, not, some, List, [], ◌∷◌, Str, codes, str_eq,
  str_eq_sound, ◌&&◌, ◌||◌, Bool-cases, arith,
}
use ebftpd.Ftp.Enums.{logged_in, same_state, state_code}
use ebftpd.Cmd.Rfc.{CommandDef, defs, find_def, lookup}

-- The commands that take no login.
abbrev pub open_commands : List Str
open_commands =
    codes "ABOR"
    ∷ codes "AUTH"
    ∷ codes "FEAT"
    ∷ codes "HELP"
    ∷ codes "NOOP"
    ∷ codes "PASS"
    ∷ codes "PBSZ"
    ∷ codes "PROT"
    ∷ codes "QUIT"
    ∷ codes "REST"
    ∷ codes "USER"
    ∷ []

unfoldable pub is_listed : Str → List Str → Bool
is_listed name [] = false
is_listed name (k ∷ ks) = str_eq k name || is_listed name ks

-- An implemented command that is not listed requires a login.
unfoldable pub is_guarded : Str → CommandDef → Bool
unfolding is_listed state_code
is_guarded name def =
    not def.is_implemented
    || (same_state def.required_state logged_in || is_listed name open_commands)

all_guarded : List (Str × CommandDef) → Bool
all_guarded [] = true
all_guarded ((k, def) ∷ rest) = is_guarded k def && all_guarded rest

defs_guarded : all_guarded defs ≡ true
unfolding all_guarded is_guarded str_eq
defs_guarded = refl

find_def-is_guarded :
    (name : Str) (ds : List (Str × CommandDef)) (def : CommandDef)
    → all_guarded ds ≡ true
    → find_def name ds ≡ some def
    → is_guarded name def ≡ true
unfolding all_guarded find_def
find_def-is_guarded name [] def h e = cc
find_def-is_guarded name ((k, d) ∷ rest) def h e = elim (Bool-cases (str_eq k name)) [
  | inl f ↦ ground (arith, f, e, h, ap (λ n. is_guarded n d) (str_eq_sound k name f))
  | inr f ↦ find_def-is_guarded name rest def (ground (arith, h)) (ground (arith, f, e))
]

-- A command that the table has, and that is implemented, requires a login, unless it is one of
-- ABOR, AUTH, FEAT, HELP, NOOP, PASS, PBSZ, PROT, QUIT, REST and USER.
pub lookup-is_guarded :
    (name : Str) (def : CommandDef) → lookup name ≡ some def → is_guarded name def ≡ true
unfolding lookup
lookup-is_guarded name def e = find_def-is_guarded name defs def defs_guarded e
