-- ===== src/Acl/User/GidList.antt =====
-- The searches and filters that src/acl/user.cpp makes on lists of group identities, with their
-- laws as equations between Boolean tests.
use ebftpd.Prelude.{
  ◌≡◌, refl, ap, inl, inr, Bool, true, false, not, List, [], ◌∷◌, ◌++◌, ℤ, eq_ℤ, eq_ℤ-iff,
  Bool-cases, ◌&&◌, ◌||◌, if◌then◌else◌, arith,
}

-- `std::find(l.begin(), l.end(), g) != l.end()`
unfoldable pub contains : ℤ → List ℤ → Bool
contains g [] = false
contains g (x ∷ xs) = eq_ℤ x g || contains g xs

-- `l.erase(std::find(…))`, if found.
unfoldable pub erase_first : ℤ → List ℤ → List ℤ
erase_first g [] = []
erase_first g (x ∷ xs) = if eq_ℤ x g then xs else x ∷ erase_first g xs

-- `std::copy_if`, and `std::remove_if` with the test negated.
unfoldable pub keep : (ℤ → Bool) → List ℤ → List ℤ
keep p [] = []
keep p (x ∷ xs) = if p x then x ∷ keep p xs else keep p xs

abbrev pub outside : List ℤ → ℤ → Bool
outside gids g = not (contains g gids)

-- No member occurs twice.
abbrev pub Distinct : List ℤ → Type 0
Distinct [] = Unit
Distinct (x ∷ xs) = (contains x xs ≡ false) × Distinct xs

pub eq_ℤ-refl : (a : ℤ) → eq_ℤ a a ≡ true
eq_ℤ-refl a = (eq_ℤ-iff a a).1 refl

pub eq_ℤ_sound : (a b : ℤ) → eq_ℤ a b ≡ true → a ≡ b
eq_ℤ_sound a b h = (eq_ℤ-iff a b).0 h

pub eq_ℤ-comm : (a b : ℤ) → eq_ℤ a b ≡ eq_ℤ b a
eq_ℤ-comm a b = elim (Bool-cases (eq_ℤ a b)) [
  | inl e ↦ ground (arith, eq_ℤ_sound a b e, eq_ℤ-refl a)
  | inr e ↦ elim (Bool-cases (eq_ℤ b a)) [
    | inl f ↦ ground (arith, eq_ℤ_sound b a f, eq_ℤ-refl b)
    | inr f ↦ cc
  ]
]

pub contains-append :
    (g : ℤ) (xs ys : List ℤ) → contains g (xs ++ ys) ≡ contains g xs || contains g ys
unfolding contains
contains-append g [] ys = refl
contains-append g (x ∷ xs) ys = ground (arith, contains-append g xs ys)

pub contains-keep :
    (g : ℤ) (p : ℤ → Bool) (xs : List ℤ) → contains g (keep p xs) ≡ contains g xs && p g
unfolding contains keep
contains-keep g p [] = refl
contains-keep g p (x ∷ xs) = elim (Bool-cases (eq_ℤ x g)) [
  | inl e ↦ ground (arith, eq_ℤ_sound x g e, contains-keep g p xs, ap p (eq_ℤ_sound x g e))
  | inr e ↦ ground (arith, contains-keep g p xs)
]

-- Erasing a member takes away no other.
pub contains-erase_first :
    (g h : ℤ) (xs : List ℤ)
    → (contains g (erase_first h xs) || eq_ℤ h g) ≡ (contains g xs || eq_ℤ h g)
unfolding contains erase_first
contains-erase_first g h [] = refl
contains-erase_first g h (x ∷ xs) = elim (Bool-cases (eq_ℤ x h)) [
  | inl e ↦ ground (arith, eq_ℤ_sound x h e)
  | inr e ↦ ground (arith, contains-erase_first g h xs)
]

pub contains-erase_first_self :
    (h : ℤ) (xs : List ℤ) → Distinct xs → contains h (erase_first h xs) ≡ false
unfolding contains erase_first
contains-erase_first_self h [] d = refl
contains-erase_first_self h (x ∷ xs) d = elim (Bool-cases (eq_ℤ x h)) [
  | inl e ↦ ground (arith, eq_ℤ_sound x h e, d.0)
  | inr e ↦ ground (arith, contains-erase_first_self h xs d.1)
]

pub contains-erase_first_le :
    (g h : ℤ) (xs : List ℤ) → contains g xs ≡ false → contains g (erase_first h xs) ≡ false
unfolding contains erase_first
contains-erase_first_le g h [] e = refl
contains-erase_first_le g h (x ∷ xs) e = ground (arith, contains-erase_first_le g h xs)

pub erase_first-Distinct : (h : ℤ) (xs : List ℤ) → Distinct xs → Distinct (erase_first h xs)
unfolding erase_first
erase_first-Distinct h [] d = tt
erase_first-Distinct h (x ∷ xs) d =
    ground (arith, erase_first-Distinct h xs d.1, contains-erase_first_le x h xs d.0)

pub keep-Distinct : (p : ℤ → Bool) (xs : List ℤ) → Distinct xs → Distinct (keep p xs)
unfolding keep
keep-Distinct p [] d = tt
keep-Distinct p (x ∷ xs) d = ground (arith, keep-Distinct p xs d.1, contains-keep x p xs, d.0)

-- Two lists with no common member append to a list with none twice.
pub append-Distinct :
    (xs ys : List ℤ)
    → Distinct xs
    → Distinct ys
    → ((g : ℤ) → contains g xs ≡ true → contains g ys ≡ false)
    → Distinct (xs ++ ys)
unfolding contains
append-Distinct [] ys dx dy apart = dy
append-Distinct (x ∷ xs) ys dx dy apart = (
  ground (arith, contains-append x xs ys, dx.0, apart x, eq_ℤ-refl x),
  append-Distinct xs ys dx.1 dy (λ g h. apart g (ground (arith))),
)

pub contains-append_last :
    (g x : ℤ) (xs : List ℤ) → contains g (xs ++ x ∷ []) ≡ (contains g xs || eq_ℤ x g)
unfolding contains
contains-append_last g x [] = ground arith
contains-append_last g x (y ∷ xs) = ground (arith, contains-append_last g x xs)

-- A new member at the end keeps a list free of repetitions.
pub append_last-Distinct :
    (x : ℤ) (xs : List ℤ) → Distinct xs → contains x xs ≡ false → Distinct (xs ++ x ∷ [])
unfolding contains
append_last-Distinct x [] d h = (refl, tt)
append_last-Distinct x (y ∷ xs) d h = (
  ground (arith, contains-append_last y x xs, d.0, eq_ℤ-comm x y),
  append_last-Distinct x xs d.1 (ground arith),
)
