-- ===== src/Cmd/Site/Credits/Conserved.antt =====
-- GIVE by a client who gives his own credits (src/cmd/site/commands.cpp) moves them.
use ebftpd.Prelude.{
  ◌≡◌, ◌⊎◌, refl, sym, ap, ◌∙◌, subst, inl, inr, Bool, true, false, Option, none, some, List, [],
  ◌∷◌, Str, codes, str_eq, ℤ, pos, ◌+ℤ◌, ◌-ℤ◌, ◌≤ℤ◌, leb_ℤ, eq_ℤ, eq_ℤ-iff, str_eq_sound, ◌&&◌,
  if◌then◌else◌, Bool-cases, Option-cases, arith,
}
use ebftpd.Acl.User.Data.{UserData}
use ebftpd.Cmd.Change.Values.{Accounts, parse_size, IsSize}
use ebftpd.Cmd.Change.Fields.{parse_size-IsSize}
use ebftpd.Cmd.Nuking.{Credits, set_entry, incr_credits, entry_credits}
use ebftpd.Cmd.Nuking.Sums.{swap_last, sub_add, zero_add, add_zero}
use ebftpd.Cmd.Site.{Around, SiteReply, okay, refused, allows}
use ebftpd.Cmd.Site.Credits.{
  in_the_section, decr_credits_checked, Parsed, bad_syntax, no_section, in_section, parse_section,
  has_leech, pay, give_in, give,
}

-- Is it the entry of a user in a section?
abbrev pub at : ℤ → Str → ℤ → Str → Bool
at uid section x y = eq_ℤ uid x && str_eq section y

abbrev pub when : Bool → ℤ → ℤ
when b k = if b then k else pos 0

entry-set :
    (t : Credits) (uid x : ℤ) (section y : Str) (v : ℤ)
    → entry_credits (set_entry t uid section v) x y
      ≡ (if at uid section x y then v else entry_credits t x y)
unfolding entry_credits set_entry
entry-set t uid x section y v = elim (Bool-cases (at uid section x y)) [
  | inl e ↦ rw (e, entry_credits) refl
  | inr e ↦ rw (e, entry_credits) refl
]

-- The entry that is met is the one of the user and the section.
met :
    (t : Credits) (uid x : ℤ) (section y : Str)
    → at uid section x y ≡ true
    → entry_credits t uid section ≡ entry_credits t x y
met t uid x section y h =
    ap (λ u. entry_credits t u section) ((eq_ℤ-iff uid x).0 (ground (arith, h)))
    ∙ ap (entry_credits t x) (str_eq_sound section y (ground (arith, h)))

when_zero : (b : Bool) → when b (pos 0) ≡ pos 0
when_zero true = refl
when_zero false = refl

entry-none :
    (t : Credits) (uid : ℤ) (section : Str)
    → t uid section ≡ none
    → entry_credits t uid section ≡ pos 0
unfolding entry_credits
entry-none t uid section e = rw (e, entry_credits) refl

entry-some :
    (t : Credits) (uid : ℤ) (section : Str) (v : ℤ)
    → t uid section ≡ some v
    → entry_credits t uid section ≡ v
unfolding entry_credits
entry-some t uid section v e = rw (e, entry_credits) refl

incr-set :
    (t : Credits) (uid : ℤ) (section : Str) (k : ℤ)
    → incr_credits t uid section k ≡ set_entry t uid section (entry_credits t uid section +ℤ k)
unfolding incr_credits entry_credits
incr-set t uid section k = elim (Option-cases (t uid section)) [
  | inl e ↦
      rw (e, incr_credits)
        (ap (set_entry t uid section)
          (sym (zero_add k) ∙ ap (λ n. n +ℤ k) (sym (entry-none t uid section e))))
  | inr (v, e) ↦
      rw (e, incr_credits)
        (ap (set_entry t uid section) (ap (λ n. n +ℤ k) (sym (entry-some t uid section v e))))
]

entry-incr :
    (t : Credits) (uid x : ℤ) (section y : Str) (k : ℤ)
    → entry_credits (incr_credits t uid section k) x y
      ≡ entry_credits t x y +ℤ when (at uid section x y) k
entry-incr t uid x section y k =
    ap (λ c. entry_credits c x y) (incr-set t uid section k)
    ∙ entry-set t uid x section y (entry_credits t uid section +ℤ k)
    ∙ elim (Bool-cases (at uid section x y)) [
      | inl e ↦ rw (e) (ap (λ v. v +ℤ k) (met t uid x section y e))
      | inr e ↦ rw (e) (sym (add_zero (entry_credits t x y)))
    ]

-- A payment that is made comes from an entry that holds enough.
abbrev Pays : Credits → Credits → ℤ → Str → ℤ → Type 0
Pays t t' uid section k =
    ((k ≡ pos 0) × (t' ≡ t))
    ⊎ ((k ≤ℤ entry_credits t uid section)
        × (t' ≡ set_entry t uid section (entry_credits t uid section -ℤ k)))

paid_of : (a b : Bool × Credits) → a ≡ b → (a.0 ≡ b.0) × (a.1 ≡ b.1)
paid_of a b e = (ap (λ p. p.0) e, ap (λ p. p.1) e)

decr_checked-Pays :
    (t t' : Credits) (uid : ℤ) (section : Str) (k : ℤ)
    → decr_credits_checked t uid section k ≡ (true, t')
    → Pays t t' uid section k
unfolding decr_credits_checked
decr_checked-Pays t t' uid section k e = elim (Bool-cases (eq_ℤ k (pos 0))) [
  | inl z ↦
      let now : decr_credits_checked t uid section k ≡ (true, t) =
        rw (z, decr_credits_checked) refl in
      inl ((eq_ℤ-iff k (pos 0)).0 z, sym (paid_of (true, t) (true, t') (sym now ∙ e)).1)
  | inr z ↦ elim (Option-cases (t uid section)) [
    | inl f ↦
        let now : decr_credits_checked t uid section k ≡ (false, t) =
          rw (z, decr_credits_checked, f) refl in
        let bad : false ≡ true = (paid_of (false, t) (true, t') (sym now ∙ e)).0 in cc bad
    | inr (v, f) ↦ elim (Bool-cases (leb_ℤ k v)) [
      | inl g ↦
          let now : decr_credits_checked t uid section k
              ≡ (true, set_entry t uid section (v -ℤ k)) =
            rw (z, decr_credits_checked, f, g) refl in
          let same = entry-some t uid section v f in
          inr (
            subst (λ n. k ≤ℤ n) (sym same) (ground (arith, g)),
            sym (paid_of (true, set_entry t uid section (v -ℤ k)) (true, t') (sym now ∙ e)).1
                ∙ ap (λ n. set_entry t uid section (n -ℤ k)) (sym same),
          )
      | inr g ↦
          let now : decr_credits_checked t uid section k ≡ (false, t) =
            rw (z, decr_credits_checked, f, g) refl in
          let bad : false ≡ true = (paid_of (false, t) (true, t') (sym now ∙ e)).0 in cc bad
    ]
  ]
]

entry-decr :
    (t t' : Credits) (uid x : ℤ) (section y : Str) (k : ℤ)
    → decr_credits_checked t uid section k ≡ (true, t')
    → entry_credits t' x y +ℤ when (at uid section x y) k ≡ entry_credits t x y
entry-decr t t' uid x section y k e = elim (decr_checked-Pays t t' uid section k e) [
  | inl (z, f) ↦
      ap (λ c. entry_credits c x y +ℤ when (at uid section x y) k) f
      ∙ ap (λ n. entry_credits t x y +ℤ when (at uid section x y) n) z
      ∙ ap (λ n. entry_credits t x y +ℤ n) (when_zero (at uid section x y))
      ∙ add_zero (entry_credits t x y)
  | inr (h, f) ↦
      let v = entry_credits t uid section in
      ap (λ c. entry_credits c x y +ℤ when (at uid section x y) k) f
      ∙ ap (λ n. n +ℤ when (at uid section x y) k) (entry-set t uid x section y (v -ℤ k))
      ∙ elim (Bool-cases (at uid section x y)) [
        | inl b ↦ rw (b) (sub_add v k ∙ met t uid x section y b)
        | inr b ↦ rw (b) (add_zero (entry_credits t x y))
      ]
]

decr_unpaid :
    (t : Credits) (uid : ℤ) (section : Str) (k : ℤ)
    → (decr_credits_checked t uid section k).0 ≡ false
    → (decr_credits_checked t uid section k).1 ≡ t
unfolding decr_credits_checked
decr_unpaid t uid section k = elim (Bool-cases (eq_ℤ k (pos 0))) [
  | inl z ↦ rw (z, decr_credits_checked) (λ h. refl)
  | inr z ↦ elim (Option-cases (t uid section)) [
    | inl f ↦ rw (z, decr_credits_checked, f) (λ h. refl)
    | inr (v, f) ↦ elim (Bool-cases (leb_ℤ k v)) [
      | inl g ↦ rw (z, decr_credits_checked, f, g) (λ h. cc h)
      | inr g ↦ rw (z, decr_credits_checked, f, g) (λ h. refl)
    ]
  ]
]

pair_path : (d : Bool × Credits) (b : Bool) → d.0 ≡ b → d ≡ (b, d.1)
pair_path (a, t) b e = ap (λ x. (x, t)) e

-- The size moves from the entry of `giver` to that of `taker`.
abbrev pub Moved : ℤ → ℤ → Str → ℤ → Credits → Credits → Type 0
Moved giver taker section k t t' =
    (x : ℤ) (y : Str)
    → entry_credits t' x y +ℤ when (at giver section x y) k
      ≡ entry_credits t x y +ℤ when (at taker section x y) k

decr-Moved :
    (t t' : Credits) (giver taker : ℤ) (section : Str) (k : ℤ)
    → decr_credits_checked t giver section k ≡ (true, t')
    → Moved giver taker section k t (incr_credits t' taker section k)
decr-Moved t t' giver taker section k e = λ x y.
    ap (λ n. n +ℤ when (at giver section x y) k) (entry-incr t' taker x section y k)
    ∙ swap_last (entry_credits t' x y) (when (at taker section x y) k)
        (when (at giver section x y) k)
    ∙ ap (λ n. n +ℤ when (at taker section x y) k) (entry-decr t t' giver x section y k e)

-- Credits that the giver had moved to a user of the database.
abbrev pub Gave : Around → Accounts → Credits → Credits → Type 0
Gave w accounts t t' =
    (u : UserData) × (section : Str) × (k : ℤ) × ((name : Str) × (accounts (w.load_name name)
        ≡ some u))
    × ((size : Str) × (parse_size w.server size ≡ some k) × IsSize w.server size k)
    × ((k ≡ pos 0) ⊎ (k ≤ℤ entry_credits t w.server.client_user.id section))
    × Moved w.server.client_user.id u.id section k t t'

module _ (w : Around) (accounts : Accounts) (own : allows w (codes "giveown") ≡ true)
    (other : allows w (codes "give") ≡ false) where
  paid-Gave :
      (name section size : Str) (t : Credits) (u : UserData) (k : ℤ)
      → accounts (w.load_name name) ≡ some u
      → parse_size w.server size ≡ some k
      → (let paid = pay w section k t in
          let r : SiteReply × Credits =
            if paid.0 then (okay, incr_credits paid.1 u.id section k) else (refused, paid.1) in
          (r.1 ≡ t) ⊎ Gave w accounts t r.1)
  unfolding pay
  paid-Gave name section size t u k e h =
      rw (own, other)
        (elim (Bool-cases (has_leech w.server.client_user section)) [
          | inl l ↦ rw (l) (inl refl)
          | inr l ↦ rw (l) (
              let d = decr_credits_checked t w.server.client_user.id section k in
              elim (Bool-cases d.0) [
                | inl p ↦ rw (p) (
                    inr (
                      u,
                      section,
                      k,
                      (name, e),
                      (size, h, parse_size-IsSize w.server size k h),
                      elim (decr_checked-Pays t d.1 w.server.client_user.id section k
                          (pair_path d true p)) [ inl (z, f) ↦ inl z | inr (g, f) ↦ inr g ],
                      decr-Moved t d.1 w.server.client_user.id u.id section k (pair_path d true p),
                    ))
                | inr p ↦ rw (p) (inl (decr_unpaid t w.server.client_user.id section k p))
              ])
        ])

  give_in-Gave :
      (section : Str) (rest : List Str) (t : Credits)
      → (let r = give_in w accounts section rest t in (r.1 ≡ t) ⊎ Gave w accounts t r.1)
  unfolding give_in
  give_in-Gave section [] t = inl refl
  give_in-Gave section (name ∷ []) t = inl refl
  give_in-Gave section (name ∷ size ∷ message) t =
      elim (Option-cases (accounts (w.load_name name))) [
        | inl e ↦ rw (give_in, e) (inl refl)
        | inr (u, e) ↦ elim (Option-cases (parse_size w.server size)) [
          | inl f ↦ rw (give_in, e, f) (inl refl)
          | inr (k, f) ↦ rw (give_in, e, f) (paid-Gave name section size t u k e f)
        ]
      ]

  parsed-Gave :
      (p : Parsed) (t : Credits)
      → (let r = in_the_section (give_in w accounts) p t in (r.1 ≡ t) ⊎ Gave w accounts t r.1)
  parsed-Gave bad_syntax t = inl refl
  parsed-Gave no_section t = inl refl
  parsed-Gave (in_section section rest) t = give_in-Gave section rest t

-- GIVE by a client who may only give his own credits leaves all credits, or takes a size from his
-- entry of a section, which had as much unless the size is zero, and adds it to the entry of a user
-- of the database in the same section: all others stay. The size is not negative, or was read of a
-- text whose number is 2 ^ 43 or more, which ParseSize may overflow.
pub give-Gave :
    (w : Around) (separate : Str → Option Bool) (accounts : Accounts) (args : List Str)
    (t : Credits)
    → allows w (codes "giveown") ≡ true
    → allows w (codes "give") ≡ false
    → (let r = give w separate accounts args t in (r.1 ≡ t) ⊎ Gave w accounts t r.1)
unfolding give
give-Gave w separate accounts args t own other =
    parsed-Gave w accounts own other (parse_section w separate args) t
