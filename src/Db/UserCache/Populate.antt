-- ===== src/Db/UserCache/Populate.antt =====
-- What Populate and Replicate of src/db/user/usercache.cpp make of the cache.
use mathlib.Core.Option
use ebftpd.Prelude.{
  ◌≡◌, refl, sym, ap, ◌∙◌, inl, inr, Option, none, some, [], ◌∷◌, ℤ, Str, Bool-cases, eq_ℤ,
  eq_ℤ-iff, Option-cases, arith,
}
use ebftpd.Util.Map.{
  same_refl, Map, IsMap, find, erase, assign, find-assign, find-erase, assign-IsMap, erase-IsMap,
  id_key, name_key,
}
use ebftpd.Db.Names.{Names, learn, forget}
use ebftpd.Db.Names.Laws.{Agrees, Stored, IsNew, store_name, learn-Agrees, forget-Agrees}
use ebftpd.Db.UserCache.{
  UserRow, UserCache, UserTriple, new_user_cache, name_of, gid_of, masks_of, learn_user, set_masks,
  forget_user, populate_loop, populate_users,
}
use ebftpd.Db.UserCache.Laws.{IsSynced, stored_names}

pub Agrees-ext : (c : Names) (a b : Stored) → ((x : ℤ) → a x ≡ b x) → Agrees c a → Agrees c b
Agrees-ext c a b same h = record {
  forth = λ x. h.forth x ∙ same x;
  back = λ n x. ((λ e. sym (same x) ∙ (h.back n x).0 e), (λ e. (h.back n x).1 (same x ∙ e)));
}

-- No two identities have one name, as the unique index of the database has it.
abbrev pub HasUniqueNames : Stored → Type 0
HasUniqueNames stored = (x y : ℤ) (n : Str) → stored x ≡ some n → stored y ≡ some n → x ≡ y

abbrev pub triple : ℤ → UserRow → UserTriple
triple uid row = record { uid = uid; name = row.name; primary_gid = row.primary_gid }

abbrev row_set : ℤ → UserRow → UserCache → UserCache
row_set uid row c = set_masks uid row.ip_masks (learn_user (triple uid row) c)

pub row_set-IsSynced :
    (users : Map ℤ UserRow) (c : UserCache) (uid : ℤ) (row : UserRow)
    → IsSynced users c
    → IsNew (stored_names users) uid row.name
    → IsSynced (assign uid row users) (row_set uid row c)
unfolding set_masks learn_user
row_set-IsSynced users c uid row s new = record {
  named =
      Agrees-ext (learn uid row.name c.known) (store_name uid (some row.name) (stored_names users))
        (stored_names (assign uid row users)) (λ x. ground (arith, find-assign uid x row users))
        (learn-Agrees c.known (stored_names users) uid row.name s.named new);
  gids = λ x. ground (
    arith,
    find-assign uid x row users,
    find-assign uid x row.primary_gid c.primary_gids,
    s.gids x,
  );
  masks = λ x.
      ground
        (arith, find-assign uid x row users, find-assign uid x row.ip_masks c.ip_masks, s.masks x);
  proper = assign-IsMap uid row.ip_masks c.ip_masks s.proper;
}

pub forget_user-IsSynced :
    (users : Map ℤ UserRow) (c : UserCache) (uid : ℤ)
    → IsSynced users c
    → IsSynced (erase uid users) (forget_user uid c)
unfolding forget_user
forget_user-IsSynced users c uid s = record {
  named =
      Agrees-ext (forget uid c.known) (store_name uid none (stored_names users))
        (stored_names (erase uid users)) (λ x. ground (arith, find-erase uid x users))
        (forget-Agrees c.known (stored_names users) uid s.named);
  gids = λ x. ground (arith, find-erase uid x users, find-erase uid x c.primary_gids, s.gids x);
  masks = λ x. ground (arith, find-erase uid x users, find-erase uid x c.ip_masks, s.masks x);
  proper = erase-IsMap uid c.ip_masks s.proper;
}

-- The users of a map, set one after the other.
abbrev merge : Map ℤ UserRow → Map ℤ UserRow → Map ℤ UserRow
merge [] base = base
merge ((uid, row) ∷ users) base = merge users (assign uid row base)

abbrev or_base : Option UserRow → Option UserRow → Option UserRow
or_base none o = o
or_base (some row) o = some row

find-merge :
    (users base : Map ℤ UserRow) (x : ℤ)
    → IsMap users
    → find x (merge users base) ≡ or_base (find x users) (find x base)
unfolding find
find-merge [] base x h = refl
find-merge ((uid, row) ∷ users) base x (f, h) = elim (Bool-cases (eq_ℤ uid x)) [
  | inl e ↦
      let gone : find x users ≡ none = ap (λ y. find y users) (sym ((eq_ℤ-iff uid x).0 e)) ∙ f in
      ground
        (arith, e, gone, find-merge users (assign uid row base) x h, find-assign uid x row base)
  | inr e ↦
      ground (arith, e, find-merge users (assign uid row base) x h, find-assign uid x row base)
]

abbrev AreApart : Map ℤ UserRow → Map ℤ UserRow → Type 0
AreApart users base = (x : ℤ) (row : UserRow) → find x users ≡ some row → find x base ≡ none

merge-IsNew :
    (users base : Map ℤ UserRow) (uid : ℤ) (row : UserRow)
    → IsMap ((uid, row) ∷ users)
    → AreApart ((uid, row) ∷ users) base
    → HasUniqueNames (stored_names (merge ((uid, row) ∷ users) base))
    → IsNew (stored_names base) uid row.name
unfolding find
merge-IsNew users base uid row h apart unique = record {
  free = λ x e. elim (Option-cases (find x ((uid, row) ∷ users))) [
    | inl f ↦
        unique x uid row.name
          (ap (Option.map name_of) (find-merge ((uid, row) ∷ users) base x h)
            ∙ ground (arith, f, e))
          (ap (Option.map name_of) (find-merge ((uid, row) ∷ users) base uid h)
            ∙ ground (arith, same_refl uid))
    | inr (r, f) ↦ absurd (ground (arith, apart x r f, e))
  ];
  kept = λ old e. absurd (ground (arith, apart uid row (ground (arith, same_refl uid)), e));
}

merge-apart :
    (users base : Map ℤ UserRow) (uid : ℤ) (row : UserRow)
    → IsMap ((uid, row) ∷ users)
    → AreApart ((uid, row) ∷ users) base
    → AreApart users (assign uid row base)
unfolding find
merge-apart users base uid row (f, h) apart x r e = elim (Bool-cases (eq_ℤ uid x)) [
  | inl c ↦ absurd (ground (arith, e, f, ap (λ y. find y users) ((eq_ℤ-iff uid x).0 c)))
  | inr c ↦ ground (arith, c, find-assign uid x row base, apart x r (ground (arith, c, e)))
]

populate_loop-IsSynced :
    (users base : Map ℤ UserRow) (c : UserCache)
    → IsMap users
    → AreApart users base
    → HasUniqueNames (stored_names (merge users base))
    → IsSynced base c
    → IsSynced (merge users base) (populate_loop users c)
unfolding populate_loop
populate_loop-IsSynced [] base c h apart unique s = s
populate_loop-IsSynced ((uid, row) ∷ users) base c h apart unique s =
    populate_loop-IsSynced users (assign uid row base) (row_set uid row c) h.1
      (merge-apart users base uid row h apart) unique
      (row_set-IsSynced base c uid row s (merge-IsNew users base uid row h apart unique))

IsSynced-ext :
    (a b : Map ℤ UserRow) (c : UserCache)
    → ((x : ℤ) → find x a ≡ find x b)
    → IsSynced a c
    → IsSynced b c
IsSynced-ext a b c same s = record {
  named =
      Agrees-ext c.known (stored_names a) (stored_names b) (λ x. ap (Option.map name_of) (same x))
        s.named;
  gids = λ x. s.gids x ∙ ap (Option.map gid_of) (same x);
  masks = λ x. s.masks x ∙ ap (Option.map masks_of) (same x);
  proper = s.proper;
}

new_user_cache-IsSynced : IsSynced [] new_user_cache
unfolding find
new_user_cache-IsSynced = record {
  named = record { forth = λ id. refl; back = λ n id. ((λ e. cc e), (λ e. cc e)) };
  gids = λ uid. refl;
  masks = λ uid. refl;
  proper = tt;
}

none_in : (x : ℤ) → find {V = UserRow} x [] ≡ none
unfolding find
none_in x = refl

merge_none :
    (users : Map ℤ UserRow) → IsMap users → (x : ℤ) → find x (merge users []) ≡ find x users
unfolding find
merge_none users h x = elim (Option-cases (find x users)) [
  | inl e ↦ find-merge users [] x h ∙ ground (arith, e)
  | inr (r, e) ↦ find-merge users [] x h ∙ ground (arith, e)
]

pub populate_users-IsSynced :
    (users : Map ℤ UserRow)
    → IsMap users
    → HasUniqueNames (stored_names users)
    → IsSynced users (populate_users users)
unfolding populate_users
populate_users-IsSynced users h unique =
    let same : (x : ℤ) → find x (merge users []) ≡ find x users = merge_none users h in
    IsSynced-ext (merge users []) users (populate_users users) same (
      populate_loop-IsSynced users [] new_user_cache h (λ x r e. none_in x)
        (λ x y n e f.
          unique x y n (sym (ap (Option.map name_of) (same x)) ∙ e)
            (sym (ap (Option.map name_of) (same y)) ∙ f))
        new_user_cache-IsSynced)
