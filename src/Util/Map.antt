-- ===== src/Util/Map.antt =====
-- Standard maps (std::unordered_map), as association lists with one entry for a key.
use ebftpd.Prelude.{
  subst, ◌≡◌, ◌↔◌, refl, ap, inl, inr, Bool, true, Option, none, some, List, [], ◌∷◌, ℤ, Str, eq_ℤ,
  eq_ℤ-iff, str_eq, str_eq_refl, str_eq_sound, if◌then◌else◌, Bool-cases, arith,
}

-- std::equal_to of a key.
pub record Key {ℓ} (K : Type ℓ) : Type ℓ where
  pub same : K → K → Bool
  pub same_iff : (a b : K) → (same a b ≡ true) ↔ (a ≡ b)

instance abbrev pub id_key : Key ℤ
id_key = record { same = eq_ℤ; same_iff = eq_ℤ-iff }

pub str_eq_iff : (s t : Str) → (str_eq s t ≡ true) ↔ (s ≡ t)
str_eq_iff s t = (str_eq_sound s t, λ e. subst (λ u. str_eq s u ≡ true) e (str_eq_refl s))

instance abbrev pub name_key : Key Str
name_key = record { same = str_eq; same_iff = str_eq_iff }

pub same_refl {ℓ} : {K : Type ℓ} ⦃k : Key K⦄ (a : K) → k.same a a ≡ true
same_refl ⦃k⦄ a = (k.same_iff a a).1 refl

abbrev pub Map {ℓ} : Type ℓ → Type ℓ → Type ℓ
Map K V = List (K × V)

module _ {ℓ} {K V : Type ℓ} ⦃k : Key K⦄ where
  -- find(key), with `none` for end().
  unfoldable pub find : K → Map K V → Option V
  find a [] = none
  find a ((b, v) ∷ m) = if k.same b a then some v else find a m

  -- erase(key).
  unfoldable pub erase : K → Map K V → Map K V
  erase a [] = []
  erase a ((b, v) ∷ m) = let rest = erase a m in if k.same b a then rest else (b, v) ∷ rest

  -- map[key] = value.
  unfoldable pub assign : K → V → Map K V → Map K V
  unfolding erase
  assign a v m = (a, v) ∷ erase a m

  pub find-erase :
      (a b : K) (m : Map K V) → find b (erase a m) ≡ (if k.same a b then none else find b m)
  unfolding find erase
  find-erase a b [] = ground arith
  find-erase a b ((c, v) ∷ m) = elim (Bool-cases (k.same c a)) [
    | inl e ↦
        let ca : k.same c b ≡ k.same a b = ap (λ x. k.same x b) ((k.same_iff c a).0 e) in
        ground (arith, e, ca, find-erase a b m)
    | inr e ↦
        ground
          (arith, e, find-erase a b m, (k.same_iff a b).0, (k.same_iff c b).0, (k.same_iff c a).1)
  ]

  pub find-assign :
      (a b : K) (v : V) (m : Map K V)
      → find b (assign a v m) ≡ (if k.same a b then some v else find b m)
  unfolding find assign
  find-assign a b v m = ground (arith, find-erase a b m)

  pub find-assign_self : (a : K) (v : V) (m : Map K V) → find a (assign a v m) ≡ some v
  find-assign_self a v m = ground (arith, find-assign a a v m, same_refl a)

  pub find-erase_self : (a : K) (m : Map K V) → find a (erase a m) ≡ none
  find-erase_self a m = ground (arith, find-erase a a m, same_refl a)

  -- No key has two entries.
  abbrev pub IsMap : Map K V → Type ℓ
  IsMap [] = Unit
  IsMap ((a, v) ∷ m) = (find a m ≡ none) × IsMap m

  pub erase-IsMap : (a : K) (m : Map K V) → IsMap m → IsMap (erase a m)
  unfolding erase
  erase-IsMap a [] h = tt
  erase-IsMap a ((b, v) ∷ m) (f, h) = elim (Bool-cases (k.same b a)) [
    | inl e ↦ rw (e) (erase-IsMap a m h)
    | inr e ↦ rw (e) (ground (arith, f, find-erase a b m), erase-IsMap a m h)
  ]

  pub assign-IsMap : (a : K) (v : V) (m : Map K V) → IsMap m → IsMap (assign a v m)
  unfolding assign
  assign-IsMap a v m h = (ground (arith, find-erase a a m, same_refl a), erase-IsMap a m h)
