-- ===== src/Ftp/SpeedCounter/Laws.antt =====
-- The entries of a speed counter (src/ftp/speedcounter.cpp) are sums over the shares of the
-- transfers.
use ebftpd.Prelude.{
  ◌≡◌, refl, sym, ap, ◌∙◌, inl, inr, ◌+◌, ◌-◌, ◌<◌, false, Option, none, some, List, [], ◌∷◌, Str,
  str_eq, leb, ◌==◌, if◌then◌else◌, Bool-cases, arith,
}
use ebftpd.Util.Map.{find, erase, assign, find-erase, find-assign, name_key, str_eq_iff}
use ebftpd.Ftp.SpeedCounter.{SpeedInfo, Entry, Speeds, add_info, sub_info, updated_entry, clear_one}

-- What one transfer has under the path of a limit.
abbrev pub Share : Type 0
Share = Str × SpeedInfo

abbrev pub no_load : Entry
no_load = record { transfers = 0; info = record { xfertime = 0; bytes = 0 } }

abbrev pub plus : SpeedInfo → Entry → Entry
plus i e = record {
  transfers = e.transfers + 1;
  info = record { xfertime = e.info.xfertime + i.xfertime; bytes = e.info.bytes + i.bytes };
}

-- The sum of the shares under a path.
unfoldable pub load : List Share → Str → Entry
load [] p = no_load
load ((q, i) ∷ shares) p = if str_eq q p then plus i (load shares p) else load shares p

abbrev shown : Entry → Option Entry
shown e = if e.transfers == 0 then none else some e

-- The counter has an entry for each path with a share, which is the sum.
abbrev pub Represents : Speeds → List Share → Type 0
Represents speeds shares = (p : Str) → find p speeds ≡ shown (load shares p)

load_none :
    (shares : List Share) (p : Str) → (load shares p).transfers ≡ 0 → load shares p ≡ no_load
unfolding load
load_none [] p e = refl
load_none ((q, i) ∷ shares) p e = elim (Bool-cases (str_eq q p)) [
  | inl f ↦ absurd (ground (arith, e, f))
  | inr f ↦ rw (f) (load_none shares p (ground (arith, e, f)))
]

load_self :
    (q : Str) (i : SpeedInfo) (shares : List Share)
    → load ((q, i) ∷ shares) q ≡ plus i (load shares q)
unfolding load
load_self q i shares = rw ((str_eq_iff q q).1 refl) refl

load-other :
    (q p : Str) (i : SpeedInfo) (shares : List Share)
    → str_eq q p ≡ false
    → load ((q, i) ∷ shares) p ≡ load shares p
unfolding load
load-other q p i shares e = rw (e) refl

shown-pos : (e : Entry) → 0 < e.transfers → shown e ≡ some e
shown-pos e h = ground arith

shown-zero : (e : Entry) → e.transfers ≡ 0 → shown e ≡ none
shown-zero e h = ground arith

-- A write at one path, where the other paths are represented.
assign-Represents :
    (speeds : Speeds) (shares : List Share) (q : Str) (e : Entry)
    → ((p : Str) → str_eq q p ≡ false → find p speeds ≡ shown (load shares p))
    → load shares q ≡ e
    → 0 < e.transfers
    → Represents (assign q e speeds) shares
assign-Represents speeds shares q e other same h p = elim (Bool-cases (str_eq q p)) [
  | inl f ↦
      let at : load shares p ≡ e = ap (load shares) (sym ((str_eq_iff q p).0 f)) ∙ same in
      find-assign q p e speeds ∙ rw (f, at) (sym (shown-pos e h))
  | inr f ↦ find-assign q p e speeds ∙ rw (f) (other p f)
]

erase-Represents :
    (speeds : Speeds) (shares : List Share) (q : Str)
    → ((p : Str) → str_eq q p ≡ false → find p speeds ≡ shown (load shares p))
    → (load shares q).transfers ≡ 0
    → Represents (erase q speeds) shares
erase-Represents speeds shares q other h p = elim (Bool-cases (str_eq q p)) [
  | inl f ↦
      let at : load shares p ≡ load shares q = ap (load shares) (sym ((str_eq_iff q p).0 f)) in
      find-erase q p speeds ∙ rw (f, at) (sym (shown-zero (load shares q) h))
  | inr f ↦ find-erase q p speeds ∙ rw (f) (other p f)
]

-- The entry of a transfer that begins.
joined :
    (current : SpeedInfo) (old : Entry)
    → (old.transfers ≡ 0 → old ≡ no_load)
    → updated_entry none current (shown old) ≡ some (plus current old)
unfolding updated_entry add_info
joined current old h = elim (Bool-cases (old.transfers == 0)) [
  | inl e ↦ ground (arith, e, h)
  | inr e ↦ ground (arith, e)
]

pub join-Represents :
    (speeds : Speeds) (shares : List Share) (q : Str) (current : SpeedInfo)
    → Represents speeds shares
    → (e : Entry) × (updated_entry none current (find q speeds) ≡ some e)
      × (0 < e.transfers)
      × Represents (assign q e speeds) ((q, current) ∷ shares)
join-Represents speeds shares q current r =
    let old = load shares q in
    (
      plus current old,
      ap (updated_entry none current) (r q) ∙ joined current old (load_none shares q),
      omega arith,
      assign-Represents speeds ((q, current) ∷ shares) q (plus current old)
          (λ p f. r p ∙ ap shown (sym (load-other q p current shares f)))
          (load_self q current shares) (omega arith),
    )

-- What is left of an entry without one of its shares.
sub-plus : (l : SpeedInfo) (old : Entry) → sub_info (plus l old).info l ≡ some old.info
unfolding sub_info
sub-plus l old = ground arith

find-share :
    (speeds : Speeds) (shares : List Share) (q : Str) (l : SpeedInfo)
    → Represents speeds ((q, l) ∷ shares)
    → find q speeds ≡ some (plus l (load shares q))
find-share speeds shares q l r =
    r q ∙ ap shown (load_self q l shares) ∙ shown-pos (plus l (load shares q)) (omega arith)

pub replace-Represents :
    (speeds : Speeds) (shares : List Share) (q : Str) (l current : SpeedInfo)
    → Represents speeds ((q, l) ∷ shares)
    → (e : Entry) × (updated_entry (some l) current (find q speeds) ≡ some e)
      × (0 < e.transfers)
      × Represents (assign q e speeds) ((q, current) ∷ shares)
unfolding updated_entry add_info
replace-Represents speeds shares q l current r =
    let old = load shares q in
    (
      plus current old,
      rw (find-share speeds shares q l r, updated_entry, sub-plus l old) refl,
      omega arith,
      assign-Represents speeds ((q, current) ∷ shares) q (plus current old)
          (λ p f.
            r p ∙ ap shown (load-other q p l shares f ∙ sym (load-other q p current shares f)))
          (load_self q current shares) (omega arith),
    )

pub leave-Represents :
    (speeds : Speeds) (shares : List Share) (q : Str) (l : SpeedInfo)
    → Represents speeds ((q, l) ∷ shares)
    → (s : Speeds) × (clear_one l q speeds ≡ some s) × Represents s shares
unfolding clear_one
leave-Represents speeds shares q l r =
    let old = load shares q in
    let found = find-share speeds shares q l r in
    let other = λ (p : Str) (f : str_eq q p ≡ false). r p ∙ ap shown (load-other q p l shares f) in
    elim (Bool-cases (leb (old.transfers + 1) 1)) [
      | inl e ↦ (
        erase q speeds,
        rw (found, clear_one, e) refl,
        erase-Represents speeds shares q other (ground (arith, e)),
      )
      | inr e ↦ (
        assign q (record { transfers = old.transfers + 1 - 1; info = old.info }) speeds,
        rw (found, clear_one, e, sub-plus l old) refl,
        assign-Represents speeds shares q
            (record { transfers = old.transfers + 1 - 1; info = old.info }) other (ground (arith))
            (ground (arith, e)),
      )
    ]
