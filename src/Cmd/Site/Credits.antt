-- ===== src/Cmd/Site/Credits.antt =====
-- GIVE and TAKE of src/cmd/site/commands.cpp, over DecrCredits and IncrCredits of
-- src/db/user/user.cpp, on the credits that the database keeps for each user and section.
pub mod Conserved
use ebftpd.Prelude.{
  ℕ, Bool, true, false, not, Option, none, some, List, [], ◌∷◌, Str, codes, str_eq, length, ltb, ℤ,
  pos, minus_one, ◌-ℤ◌, leb_ℤ, eq_ℤ, ◌&&◌, ◌||◌, if◌then◌else◌,
}
use ebftpd.Acl.User.Data.{UserData, section_ratio}
use ebftpd.Cmd.Change.Values.{Server, Accounts, parse_size}
use ebftpd.Cmd.Nuking.{Credits, set_entry, decr_credits, incr_credits}
use ebftpd.Cmd.Site.{Around, SiteReply, okay, refused, syntax_error, allows}

-- `DecrCredits` without force: the entry must be there and hold enough.
unfoldable pub decr_credits_checked : Credits → ℤ → Str → ℤ → Bool × Credits
unfolding set_entry
decr_credits_checked t uid section k = if eq_ℤ k (pos 0) then (true, t) else elim (t uid section) [
  | none ↦ (false, t)
  | some v ↦ if leb_ℤ k v then (true, set_entry t uid section (v -ℤ k)) else (false, t)
]

-- The section of the arguments, and those after it.
pub data Parsed : Type 0 where
  bad_syntax no_section : Parsed
  in_section : Str → List Str → Parsed

-- The arguments are those after the command. `separate` says of a section that is there whether it
-- has separate credits.
unfoldable pub parse_section : Around → (Str → Option Bool) → List Str → Parsed
parse_section w separate [] = bad_syntax
parse_section w separate (a ∷ []) = bad_syntax
parse_section w separate (a ∷ b ∷ rest) =
    if str_eq (w.server.to_lower a) (codes "-s")
    then if ltb (length rest) 2 then bad_syntax else elim (separate (w.server.to_upper b)) [
      | none ↦ no_section
      | some own ↦ if own then in_section (w.server.to_upper b) rest else no_section
    ]
    else in_section [] (a ∷ b ∷ rest)

-- The test of the ratio.
unfoldable pub has_leech : UserData → Str → Bool
has_leech u section =
    eq_ℤ (section_ratio u section) (pos 0)
    || eq_ℤ (section_ratio u section) minus_one && eq_ℤ (section_ratio u []) (pos 0)

-- What a client who may only give his own credits pays.
unfoldable pub pay : Around → Str → ℤ → Credits → Bool × Credits
unfolding decr_credits_checked has_leech
pay w section k t =
    if allows w (codes "giveown") && not (allows w (codes "give"))
    then if has_leech w.server.client_user section
      then (false, t)
      else decr_credits_checked t w.server.client_user.id section k
    else (true, t)

-- The two commands after the arguments' section: the name of a user, and the size.
unfoldable pub give_in : Around → Accounts → Str → List Str → Credits → SiteReply × Credits
unfolding pay
give_in w accounts section [] t = (syntax_error, t)
give_in w accounts section (name ∷ []) t = (syntax_error, t)
give_in w accounts section (name ∷ size ∷ message) t = elim (accounts (w.load_name name)) [
  | none ↦ (refused, t)
  | some u ↦ elim (parse_size w.server size) [
    | none ↦ (syntax_error, t)
    | some k ↦
        let paid = pay w section k t in
        if paid.0 then (okay, incr_credits paid.1 u.id section k) else (refused, paid.1)
  ]
]

unfoldable pub take_in : Around → Accounts → Str → List Str → Credits → SiteReply × Credits
take_in w accounts section [] t = (syntax_error, t)
take_in w accounts section (name ∷ []) t = (syntax_error, t)
take_in w accounts section (name ∷ size ∷ message) t = elim (accounts (w.load_name name)) [
  | none ↦ (refused, t)
  | some u ↦ elim (parse_size w.server size) [
    | none ↦ (syntax_error, t)
    | some k ↦ (okay, decr_credits t u.id section k)
  ]
]

abbrev pub in_the_section :
    (Str → List Str → Credits → SiteReply × Credits) → Parsed → Credits → SiteReply × Credits
in_the_section run bad_syntax t = (syntax_error, t)
in_the_section run no_section t = (refused, t)
in_the_section run (in_section section rest) t = run section rest t

unfoldable pub give :
    Around → (Str → Option Bool) → Accounts → List Str → Credits → SiteReply × Credits
unfolding parse_section give_in
give w separate accounts args t =
    in_the_section (give_in w accounts) (parse_section w separate args) t

unfoldable pub take :
    Around → (Str → Option Bool) → Accounts → List Str → Credits → SiteReply × Credits
unfolding parse_section take_in
take w separate accounts args t =
    in_the_section (take_in w accounts) (parse_section w separate args) t
