-- ===== src/Acl/User/Flags/Laws.antt =====
-- What the flag operations of src/acl/user.cpp do to a text of flags.
use ebftpd.Prelude.{
  ℕ, ◌<◌, ◌≤◌, ◌≡◌, refl, ◌∙◌, inl, inr, false, not, [], ◌∷◌, ◌++◌, Str, has_char, ltb, ◌==◌, ◌&&◌,
  ◌||◌, Bool-cases, arith,
}
use ebftpd.Acl.User.Flags.{
  append_missing, insert_sorted, sort, added_flags, erase_char, deleted_flags,
}

-- Flags in strictly ascending order, above the bound.
abbrev pub Above : ℕ → Str → Type 0
Above n [] = Unit
Above n (x ∷ xs) = (n < x) × Above x xs

-- No flag twice, in ascending order.
abbrev pub Ascends : Str → Type 0
Ascends [] = Unit
Ascends (x ∷ xs) = Above x xs

has_char-append_last : (c x : ℕ) (s : Str) → has_char c (s ++ x ∷ []) ≡ (has_char c s || (x == c))
unfolding has_char
has_char-append_last c x [] = ground arith
has_char-append_last c x (y ∷ s) = ground (arith, has_char-append_last c x s)

has_char-append_missing :
    (c : ℕ) (own flags : Str)
    → has_char c (append_missing own flags) ≡ (has_char c own || has_char c flags)
unfolding append_missing has_char
has_char-append_missing c own [] = ground arith
has_char-append_missing c own (x ∷ flags) = elim (Bool-cases (has_char x own)) [
  | inl e ↦ rw (e, append_missing) (ground (arith, has_char-append_missing c own flags))
  | inr e ↦
      rw (e, append_missing)
        (ground
          (arith, has_char-append_missing c (own ++ x ∷ []) flags, has_char-append_last c x own))
]

has_char-insert_sorted :
    (c x : ℕ) (s : Str) → has_char c (insert_sorted x s) ≡ ((x == c) || has_char c s)
unfolding insert_sorted has_char
has_char-insert_sorted c x [] = refl
has_char-insert_sorted c x (y ∷ s) = ground (arith, has_char-insert_sorted c x s)

has_char-sort : (c : ℕ) (s : Str) → has_char c (sort s) ≡ has_char c s
unfolding sort has_char
has_char-sort c [] = refl
has_char-sort c (x ∷ s) = ground (arith, has_char-insert_sorted c x (sort s), has_char-sort c s)

-- Adding flags adds exactly those.
pub has_char-added_flags :
    (c : ℕ) (own flags : Str)
    → has_char c (added_flags own flags) ≡ (has_char c own || has_char c flags)
unfolding added_flags
has_char-added_flags c own flags =
    has_char-sort c (append_missing own flags) ∙ has_char-append_missing c own flags

Above-mono : (m n : ℕ) (s : Str) → m < n → Above n s → Above m s
Above-mono m n [] h a = tt
Above-mono m n (x ∷ s) h a = (omega arith, a.1)

Ascends-of : (n : ℕ) (s : Str) → Above n s → Ascends s
Ascends-of n [] a = tt
Ascends-of n (x ∷ s) a = a.1

has_char_below : (c n : ℕ) (s : Str) → Above n s → c ≤ n → has_char c s ≡ false
unfolding has_char
has_char_below c n [] a h = refl
has_char_below c n (x ∷ s) a h = ground (arith, has_char_below c x s a.1)

insert_sorted-Above :
    (n x : ℕ) (s : Str) → n < x → Above n s → has_char x s ≡ false → Above n (insert_sorted x s)
unfolding insert_sorted has_char
insert_sorted-Above n x [] h a f = (h, tt)
insert_sorted-Above n x (y ∷ s) h a f = elim (Bool-cases (ltb y x)) [
  | inl e ↦ rw (e, insert_sorted) (a.0, insert_sorted-Above y x s (ground arith) a.1 (ground arith))
  | inr e ↦ rw (e, insert_sorted) (h, (ground arith, a.1))
]

insert_sorted-Ascends :
    (x : ℕ) (s : Str) → Ascends s → has_char x s ≡ false → Ascends (insert_sorted x s)
unfolding insert_sorted has_char
insert_sorted-Ascends x [] a f = tt
insert_sorted-Ascends x (y ∷ s) a f = elim (Bool-cases (ltb y x)) [
  | inl e ↦ rw (e, insert_sorted) (insert_sorted-Above y x s (ground arith) a (ground arith))
  | inr e ↦ rw (e, insert_sorted) (ground arith, a)
]

-- No flag stands twice.
abbrev Unrepeated : Str → Type 0
Unrepeated [] = Unit
Unrepeated (x ∷ s) = (has_char x s ≡ false) × Unrepeated s

Unrepeated-of : (s : Str) → Ascends s → Unrepeated s
Unrepeated-of [] a = tt
Unrepeated-of (x ∷ s) a = (has_char_below x x s a (omega arith), Unrepeated-of s (Ascends-of x s a))

append_last-Unrepeated :
    (x : ℕ) (s : Str) → Unrepeated s → has_char x s ≡ false → Unrepeated (s ++ x ∷ [])
unfolding has_char
append_last-Unrepeated x [] u f = (refl, tt)
append_last-Unrepeated x (y ∷ s) u f =
    (ground (arith, has_char-append_last y x s, u.0), append_last-Unrepeated x s u.1 (ground arith))

append_missing-Unrepeated :
    (own flags : Str) → Unrepeated own → Unrepeated (append_missing own flags)
unfolding append_missing
append_missing-Unrepeated own [] u = u
append_missing-Unrepeated own (x ∷ flags) u = elim (Bool-cases (has_char x own)) [
  | inl e ↦ rw (e, append_missing) (append_missing-Unrepeated own flags u)
  | inr e ↦
      rw (e, append_missing)
        (append_missing-Unrepeated (own ++ x ∷ []) flags (append_last-Unrepeated x own u e))
]

sort-Ascends : (s : Str) → Unrepeated s → Ascends (sort s)
unfolding sort
sort-Ascends [] u = tt
sort-Ascends (x ∷ s) u =
    insert_sorted-Ascends x (sort s) (sort-Ascends s u.1) (has_char-sort x s ∙ u.0)

erase_char-Above : (n c : ℕ) (s : Str) → Above n s → Above n (erase_char c s)
unfolding erase_char
erase_char-Above n c [] a = tt
erase_char-Above n c (x ∷ s) a = elim (Bool-cases (x == c)) [
  | inl e ↦ rw (e, erase_char) (Above-mono n x s a.0 a.1)
  | inr e ↦ rw (e, erase_char) (a.0, erase_char-Above x c s a.1)
]

erase_char-Ascends : (c : ℕ) (s : Str) → Ascends s → Ascends (erase_char c s)
unfolding erase_char
erase_char-Ascends c [] a = tt
erase_char-Ascends c (x ∷ s) a = elim (Bool-cases (x == c)) [
  | inl e ↦ rw (e, erase_char) (Ascends-of x s a)
  | inr e ↦ rw (e, erase_char) (erase_char-Above x c s a)
]

has_char-erase_char :
    (c d : ℕ) (s : Str) → Ascends s → has_char c (erase_char d s) ≡ (has_char c s && not (d == c))
unfolding erase_char has_char
has_char-erase_char c d [] a = refl
has_char-erase_char c d (x ∷ s) a =
    ground (arith, has_char-erase_char c d s (Ascends-of x s a), has_char_below x x s a)

-- Deleting flags from an ascending text takes away exactly those.
pub has_char-deleted_flags :
    (c : ℕ) (own flags : Str)
    → Ascends own
    → has_char c (deleted_flags own flags) ≡ (has_char c own && not (has_char c flags))
unfolding deleted_flags has_char
has_char-deleted_flags c own [] a = ground arith
has_char-deleted_flags c own (x ∷ flags) a = ground (
  arith,
  has_char-deleted_flags c (erase_char x own) flags (erase_char-Ascends x own a),
  has_char-erase_char c x own a,
)

pub deleted_flags-Ascends : (own flags : Str) → Ascends own → Ascends (deleted_flags own flags)
unfolding deleted_flags
deleted_flags-Ascends own [] a = a
deleted_flags-Ascends own (x ∷ flags) a =
    deleted_flags-Ascends (erase_char x own) flags (erase_char-Ascends x own a)

pub added_flags-Ascends : (own flags : Str) → Ascends own → Ascends (added_flags own flags)
unfolding added_flags
added_flags-Ascends own flags a =
    sort-Ascends (append_missing own flags)
      (append_missing-Unrepeated own flags (Unrepeated-of own a))

-- From flags in ascending order, adding and deleting lead to flags in ascending order; adding
-- leaves exactly the flags that were set or are added, deleting exactly those that were set and
-- are not deleted.
pub flag_operations :
    (own flags : Str) (c : ℕ)
    → Ascends own
    → Ascends (added_flags own flags)
      × Ascends (deleted_flags own flags)
      × (has_char c (added_flags own flags) ≡ (has_char c own || has_char c flags))
      × (has_char c (deleted_flags own flags) ≡ (has_char c own && not (has_char c flags)))
flag_operations own flags c a = (
  added_flags-Ascends own flags a,
  deleted_flags-Ascends own flags a,
  has_char-added_flags c own flags,
  has_char-deleted_flags c own flags a,
)
