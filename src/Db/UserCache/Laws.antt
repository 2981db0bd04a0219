-- ===== src/Db/UserCache/Laws.antt =====
-- A user cache that has what the database has answers as the lookups in the database do
-- (src/db/user/usercache.cpp and util.cpp).
use mathlib.Core.Option
use ebftpd.Prelude.{
  ◌≡◌, ◌≢◌, refl, sym, ap, ◌∙◌, inl, inr, Bool, true, false, none, some, List, [], ◌∷◌, ◌++◌, ℤ,
  Str, str_eq, eq_ℤ, eq_ℤ-iff, ◌||◌, Bool-cases, arith,
}
use ebftpd.Util.Wildcard.{Fnmatch}
use ebftpd.Util.Map.{Map, IsMap, find, same_refl, id_key, name_key, str_eq_iff}
use ebftpd.Db.Names.Laws.{Agrees, Stored}
use ebftpd.Db.UserCache.{
  UserRow, UserCache, matches_one, any_masks, query_name, name_of, gid_of, masks_of, all_masks,
}

-- What the database has under an identity.
abbrev pub stored_names : Map ℤ UserRow → Stored
stored_names users uid = Option.map name_of (find uid users)

-- The cache has exactly what the database has.
pub record IsSynced (users : Map ℤ UserRow) (c : UserCache) : Type 0 where
  pub named : Agrees c.known (stored_names users)
  pub gids : (uid : ℤ) → find uid c.primary_gids ≡ Option.map gid_of (find uid users)
  pub masks : (uid : ℤ) → find uid c.ip_masks ≡ Option.map masks_of (find uid users)
  pub proper : IsMap c.ip_masks

pub query_name-find :
    (name : Str) (users : Map ℤ UserRow) (uid : ℤ)
    → IsMap users
    → query_name name users ≡ some uid
    → stored_names users uid ≡ some name
unfolding query_name find
query_name-find name [] uid h e = cc e
query_name-find name ((x, row) ∷ users) uid (f, h) e = elim (Bool-cases (str_eq row.name name)) [
  | inl g ↦ ground (arith, g, e, eq_ℤ-iff x uid, str_eq_iff row.name name)
  | inr g ↦
      let k = query_name-find name users uid h (ground (arith, g, e)) in
      elim (Bool-cases (eq_ℤ x uid)) [
        | inl c ↦
            let gone : find uid users ≡ none =
              ap (λ y. find y users) (sym ((eq_ℤ-iff x uid).0 c)) ∙ f in
            absurd (ground (arith, k, gone))
        | inr c ↦ ground (arith, c, k)
      ]
]

pub find-query_name :
    (name : Str) (users : Map ℤ UserRow) (uid : ℤ)
    → stored_names users uid ≡ some name
    → query_name name users ≢ none
unfolding query_name find
find-query_name name [] uid e = cc e
find-query_name name ((x, row) ∷ users) uid e = λ k. elim (Bool-cases (str_eq row.name name)) [
  | inl g ↦ absurd (ground (arith, g, k))
  | inr g ↦ elim (Bool-cases (eq_ℤ x uid)) [
    | inl c ↦ absurd (ground (arith, g, c, e, str_eq_iff row.name name))
    | inr c ↦ find-query_name name users uid (ground (arith, c, e)) (ground (arith, g, k))
  ]
]

-- A pattern of some entry matches.
abbrev Matching : Fnmatch → Map ℤ (List Str) → Str → Type 0
Matching fnmatch m s =
    (uid : ℤ) × (ms : List Str) × (find uid m ≡ some ms) × (matches_one fnmatch ms s ≡ true)

any_masks-Matching :
    (fnmatch : Fnmatch) (m : Map ℤ (List Str)) (s : Str)
    → IsMap m
    → any_masks fnmatch m s ≡ true
    → Matching fnmatch m s
unfolding any_masks find
any_masks-Matching fnmatch [] s h e = cc e
any_masks-Matching fnmatch ((x, ms) ∷ m) s (f, h) e = elim (Bool-cases (matches_one fnmatch ms s)) [
  | inl k ↦ (x, ms, ground (arith, same_refl x), k)
  | inr k ↦
      let (u, ns, p, q) = any_masks-Matching fnmatch m s h (ground (arith, k, e)) in
      elim (Bool-cases (eq_ℤ x u)) [
        | inl c ↦ absurd (ground (arith, p, f, ap (λ y. find y m) ((eq_ℤ-iff x u).0 c)))
        | inr c ↦ (u, ns, ground (arith, c, p), q)
      ]
]

Matching-any_masks :
    (fnmatch : Fnmatch) (m : Map ℤ (List Str)) (s : Str)
    → Matching fnmatch m s
    → any_masks fnmatch m s ≡ true
unfolding any_masks find
Matching-any_masks fnmatch [] s (uid, ms, f, e) = cc f
Matching-any_masks fnmatch ((x, ns) ∷ m) s (uid, ms, f, e) = elim (Bool-cases (eq_ℤ x uid)) [
  | inl c ↦
      let same : ns ≡ ms = ground (arith, c, f) in
      ground (arith, e, ap (λ z. matches_one fnmatch z s) same)
  | inr c ↦ ground (arith, Matching-any_masks fnmatch m s (uid, ms, ground (arith, c, f), e))
]

matches_one-append :
    (fnmatch : Fnmatch) (xs ys : List Str) (s : Str)
    → matches_one fnmatch (xs ++ ys) s ≡ (matches_one fnmatch xs s || matches_one fnmatch ys s)
unfolding matches_one
matches_one-append fnmatch [] ys s = refl
matches_one-append fnmatch (x ∷ xs) ys s = ground (arith, matches_one-append fnmatch xs ys s)

-- The masks of the users, as the cache keeps them.
abbrev pub masks_map : Map ℤ UserRow → Map ℤ (List Str)
masks_map [] = []
masks_map ((uid, row) ∷ users) = (uid, row.ip_masks) ∷ masks_map users

pub all_masks-any :
    (fnmatch : Fnmatch) (users : Map ℤ UserRow) (s : Str)
    → matches_one fnmatch (all_masks users) s ≡ any_masks fnmatch (masks_map users) s
unfolding all_masks any_masks matches_one
all_masks-any fnmatch [] s = refl
all_masks-any fnmatch ((uid, row) ∷ users) s =
    matches_one-append fnmatch row.ip_masks (all_masks users) s
    ∙ ap (◌||◌ (matches_one fnmatch row.ip_masks s)) (all_masks-any fnmatch users s)

pub find-masks_map :
    (users : Map ℤ UserRow) (uid : ℤ)
    → find uid (masks_map users) ≡ Option.map masks_of (find uid users)
unfolding find
find-masks_map [] uid = refl
find-masks_map ((x, row) ∷ users) uid = ground (arith, find-masks_map users uid)

pub masks_map-IsMap : (users : Map ℤ UserRow) → IsMap users → IsMap (masks_map users)
masks_map-IsMap [] h = tt
masks_map-IsMap ((x, row) ∷ users) (f, h) =
    (find-masks_map users x ∙ ap (Option.map masks_of) f, masks_map-IsMap users h)

Bool-ext : (a b : Bool) → (a ≡ true → b ≡ true) → (b ≡ true → a ≡ true) → a ≡ b
Bool-ext true b f g = sym (f refl)
Bool-ext false true f g = g refl
Bool-ext false false f g = refl

-- Maps with the same entries admit the same addresses.
pub any_masks_ext :
    (fnmatch : Fnmatch) (m n : Map ℤ (List Str)) (s : Str)
    → IsMap m
    → IsMap n
    → ((uid : ℤ) → find uid m ≡ find uid n)
    → any_masks fnmatch m s ≡ any_masks fnmatch n s
any_masks_ext fnmatch m n s h k same =
    Bool-ext (any_masks fnmatch m s) (any_masks fnmatch n s)
      (λ e.
        let (u, ms, p, q) = any_masks-Matching fnmatch m s h e in
        Matching-any_masks fnmatch n s (u, ms, sym (same u) ∙ p, q))
      (λ e.
        let (u, ms, p, q) = any_masks-Matching fnmatch n s k e in
        Matching-any_masks fnmatch m s (u, ms, same u ∙ p, q))
