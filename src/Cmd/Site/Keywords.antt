-- ===== src/Cmd/Site/Keywords.antt =====
-- The two permissions of a command, for all and for group administrators: the test of the table of
-- src/cmd/site/factory.cpp with that of a handler in src/cmd/site/commands.cpp.
use ebftpd.Prelude.{
  ◌≡◌, ◌⊎◌, refl, sym, ap, ◌∙◌, inl, inr, true, false, not, some, List, [], ◌∷◌, Str, codes, ◌&&◌,
  Bool-cases, Option-cases, arith,
}
use ebftpd.Acl.Rules.{evaluate}
use ebftpd.Acl.User.Data.{UserData}
use ebftpd.Acl.User.Flags.{has_gadmin_gid}
use ebftpd.Cmd.Change.Values.{Server, Accounts, allow_site_cmd, allows_some}
use ebftpd.Db.UserCache.{name_to_uid, uid_to_primary_gid}
use ebftpd.Cmd.Site.{Around, allows, administers}

-- boost splits a keyword at its bars.
pub record Splits (w : Around) (a b both : Str) : Type 0 where
  pub together : w.server.split both ≡ a ∷ b ∷ []
  pub first : w.server.split a ≡ a ∷ []
  pub second : w.server.split b ≡ b ∷ []

pub record SplitsKeywords (w : Around) : Type 0 where
  pub passwords : Splits w (codes "chpass") (codes "chpassgadmin") (codes "chpass|chpassgadmin")
  pub deletions : Splits w (codes "deluser") (codes "delusergadmin") (codes "deluser|delusergadmin")
  pub readmissions : Splits w (codes "readd") (codes "readdgadmin") (codes "readd|readdgadmin")

-- The cache has the primary group of the user that the query by name loads.
abbrev pub IsCached : Around → Accounts → Str → Type 0
IsCached w accounts name =
    (u : UserData)
    → accounts (w.load_name name) ≡ some u
    → uid_to_primary_gid w.cache (name_to_uid w.cache name) ≡ u.primary_gid

-- The command is allowed, or its variant for group administrators is, to one of the user's group.
abbrev pub Holds : Around → Str → Str → UserData → Type 0
Holds w command gadmin u =
    (allows w command ≡ true)
    ⊎ ((allows w gadmin ≡ true) × (has_gadmin_gid w.server.client_user u.primary_gid ≡ true))

allows_some_two :
    (w : Server) (a b : Str)
    → allows_some w (a ∷ b ∷ []) ≡ true
    → (allows_some w (a ∷ []) ≡ true) ⊎ (allows_some w (b ∷ []) ≡ true)
unfolding allows_some
allows_some_two w a b h = elim (Option-cases (w.command_acl a)) [
  | inl e ↦ inr (ground (arith, e, h))
  | inr (acl, e) ↦ elim (Bool-cases (evaluate acl w.client_info).0) [
    | inl f ↦ inl (ground (arith, e, f))
    | inr f ↦ inr (ground (arith, e, f, h))
  ]
]

allows-split :
    (w : Server) (keyword a : Str) (rest : List Str)
    → w.split keyword ≡ a ∷ rest
    → allow_site_cmd w keyword ≡ allows_some w (a ∷ rest)
unfolding allow_site_cmd
allows-split w keyword a rest e = rw (e, allow_site_cmd) refl

allows_two :
    (w : Around) (a b both : Str)
    → Splits w a b both
    → allows w both ≡ true
    → (allows w a ≡ true) ⊎ (allows w b ≡ true)
allows_two w a b both s h =
    elim (allows_some_two w.server a b
      (sym (allows-split w.server both a (b ∷ []) s.together) ∙ h)) [
        | inl k ↦ inl (allows-split w.server a a [] s.first ∙ k)
        | inr k ↦ inr (allows-split w.server b b [] s.second ∙ k)
      ]

-- What the test of a handler and that of the table give together.
pub holds :
    (w : Around) (accounts : Accounts) (name a b both : Str) (u : UserData)
    → Splits w a b both
    → IsCached w accounts name
    → accounts (w.load_name name) ≡ some u
    → allows w both ≡ true
    → (not (allows w a) && allows w b && not (administers w name)) ≡ false
    → Holds w a b u
unfolding administers
holds w accounts name a b both u s cached e h k = elim (Bool-cases (allows w a)) [
  | inl f ↦ inl f
  | inr f ↦ elim (allows_two w a b both s h) [
    | inl g ↦ inl g
    | inr g ↦
        inr
          (g, ap (has_gadmin_gid w.server.client_user) (sym (cached u e)) ∙ ground (arith, f, g, k))
  ]
]
