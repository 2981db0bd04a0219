-- ===== src/Db/Names/Laws.antt =====
-- When the caches of names agree with the database, and when one of them is left behind.
use ebftpd.Prelude.{
  ◌≡◌, ◌≢◌, ◌↔◌, sym, ap, ◌∙◌, inl, inr, Option, none, some, ℤ, Str, if◌then◌else◌, Bool-cases,
  Option-cases, arith, eq_ℤ, eq_ℤ-iff, str_eq,
}
use ebftpd.Acl.User.GidList.{eq_ℤ_sound}
use ebftpd.Util.Map.{find, erase, find-erase, find-assign, id_key, name_key, str_eq_iff}
use ebftpd.Db.Names.{Names, learn, forget}

-- The names of the database, by identity.
abbrev pub Stored : Type 0
Stored = ℤ → Option Str

abbrev pub store_name : ℤ → Option Str → Stored → Stored
store_name id name stored x = if eq_ℤ id x then name else stored x

pub record Agrees (c : Names) (stored : Stored) : Type 0 where
  pub forth : (id : ℤ) → find id c.names ≡ stored id
  pub back : (name : Str) (id : ℤ) → (find name c.ids ≡ some id) ↔ (stored id ≡ some name)

-- Nobody else has the name, and the identity had none or the same.
pub record IsNew (stored : Stored) (id : ℤ) (name : Str) : Type 0 where
  pub free : (x : ℤ) → stored x ≡ some name → x ≡ id
  pub kept : (old : Str) → stored id ≡ some old → old ≡ name

learn-back :
    (c : Names) (stored : Stored) (id : ℤ) (name : Str)
    → Agrees c stored
    → IsNew stored id name
    → (n : Str) (x : ℤ)
    → (find n (learn id name c).ids ≡ some x) ↔ (store_name id (some name) stored x ≡ some n)
unfolding learn
learn-back c stored id name a h n x =
    let found = find-assign name n id c.ids in
    let names_eq = str_eq_iff name n in
    let ids_eq = eq_ℤ-iff id x in
    (
      (λ e. elim (Bool-cases (str_eq name n)) [
        | inl f ↦ ground (arith, f, found, e, names_eq, ids_eq)
        | inr f ↦
            let k = (a.back n x).0 (ground (arith, f, found, e)) in
            elim (Bool-cases (eq_ℤ id x)) [
              | inl g ↦ absurd (ground (arith, f, h.kept n, k, names_eq, ap stored (ids_eq.0 g)))
              | inr g ↦ ground (arith, g, k)
            ]
      ]),
      (λ e. elim (Bool-cases (eq_ℤ id x)) [
        | inl g ↦ ground (arith, g, found, e, names_eq, ids_eq)
        | inr g ↦ elim (Bool-cases (str_eq name n)) [
          | inl f ↦ absurd (ground (arith, g, f, h.free x, e, names_eq, ids_eq))
          | inr f ↦ ground (arith, g, f, found, (a.back n x).1)
        ]
      ]),
    )

pub learn-Agrees :
    (c : Names) (stored : Stored) (id : ℤ) (name : Str)
    → Agrees c stored
    → IsNew stored id name
    → Agrees (learn id name c) (store_name id (some name) stored)
unfolding learn
learn-Agrees c stored id name a h = record {
  forth = λ x. ground (arith, find-assign id x name c.names, a.forth x);
  back = learn-back c stored id name a h;
}

forget-back :
    (c : Names) (stored : Stored) (id : ℤ) (old : Str)
    → Agrees c stored
    → find id c.names ≡ some old
    → (n : Str) (x : ℤ)
    → (find n (erase old c.ids) ≡ some x) ↔ (store_name id none stored x ≡ some n)
forget-back c stored id old a e n x =
    let found = find-erase old n c.ids in
    let names_eq = str_eq_iff old n in
    let was : stored id ≡ some old = sym (a.forth id) ∙ e in
    elim (Bool-cases (eq_ℤ id x)) [
      | inl g ↦
          let same : stored x ≡ some old = ap stored (sym (eq_ℤ_sound id x g)) ∙ was in
          (
            (λ f. absurd (ground (arith, f, found, (a.back n x).0, same, names_eq))),
            (λ f. absurd (ground (arith, g, f))),
          )
      | inr g ↦ (
        (λ f. ground (arith, g, f, found, (a.back n x).0)),
        (λ f. elim (Bool-cases (str_eq old n)) [
          | inl h ↦ absurd (
              ground (
                arith,
                g,
                f,
                h,
                names_eq,
                (a.back n x).1,
                (a.back old id).1 was,
                eq_ℤ-iff id x,
                ap (λ m. find m c.ids) (names_eq.0 h),
              ))
          | inr h ↦ ground (arith, g, f, h, found, (a.back n x).1)
        ]),
      )
    ]

pub forget-Agrees :
    (c : Names) (stored : Stored) (id : ℤ)
    → Agrees c stored
    → Agrees (forget id c) (store_name id none stored)
unfolding forget
forget-Agrees c stored id a = elim (Option-cases (find id c.names)) [
  | inl e ↦
      rw (e, forget)
        (record {
          forth = λ x. elim (Bool-cases (eq_ℤ id x)) [
            | inl g ↦
                let same : find x c.names ≡ none =
                  ap (λ y. find y c.names) (sym (eq_ℤ_sound id x g)) ∙ e in
                ground (arith, g, same)
            | inr g ↦ ground (arith, g, a.forth x)
          ];
          back = λ n x. elim (Bool-cases (eq_ℤ id x)) [
            | inl g ↦
                let gone : stored x ≡ none =
                  ap stored (sym (eq_ℤ_sound id x g)) ∙ sym (a.forth id) ∙ e in
                (
                  (λ f. absurd (ground (arith, (a.back n x).0 f, gone))),
                  (λ f. absurd (ground (arith, g, f))),
                )
            | inr g ↦ rw (g) (a.back n x)
          ];
        })
  | inr (old, e) ↦
      rw (e, forget)
        (record {
          forth = λ x. ground (arith, find-erase id x c.names, a.forth x);
          back = forget-back c stored id old a e;
        })
]

-- Where a user or group was renamed, the old name still leads to it.
pub learn-stale :
    (c : Names) (id : ℤ) (old name : Str)
    → find old c.ids ≡ some id
    → old ≢ name
    → find old (learn id name c).ids ≡ some id
unfolding learn
learn-stale c id old name e ne =
    ground (arith, find-assign name old id c.ids, str_eq_iff name old, e)
