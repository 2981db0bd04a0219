-- ===== src/Db/GroupCache/Tests.antt =====
-- The group cache at concrete databases.
use ebftpd.Prelude.{
  ◌≡◌, refl, [], ◌∷◌, ℤ, pos, minus_one, Str, codes, eq_ℤ, eq_ℤ-iff, arith, if◌then◌else◌,
}
use ebftpd.Util.Map.{Map, find, assign, id_key, name_key}
use ebftpd.Db.Names.Laws.{IsNew}
use ebftpd.Db.GroupCache.{
  gid_to_name, name_to_gid, populate_groups, gid_to_name_direct, name_to_gid_direct,
}
use ebftpd.Db.GroupCache.Laws.{group_replicated, GroupRun, populate, save, GroupRun-direct}

abbrev groups : Map ℤ Str
groups = (pos 1, codes "default") ∷ []

dev-IsNew : IsNew (λ gid. find gid groups) (pos 2) (codes "dev")
unfolding find eq_ℤ
dev-IsNew = record { free = λ x e. ground (arith, eq_ℤ-iff (pos 1) x); kept = λ old e. cc e }

run :
    GroupRun
      (assign (pos 2) (codes "dev") groups)
      (group_replicated (assign (pos 2) (codes "dev") groups) (pos 2) (populate_groups groups))
unfolding find
run =
    save (pos 2) (codes "dev")
      (populate groups (refl, tt)
        (λ x y n e f. ground (arith, eq_ℤ-iff (pos 1) x, eq_ℤ-iff (pos 1) y)))
      dev-IsNew

GroupRun-direct_example :
    let now : Map ℤ Str = assign (pos 2) (codes "dev") groups in
    let c = group_replicated now (pos 2) (populate_groups groups) in
    (gid_to_name c (pos 2)
      ≡ (if eq_ℤ (pos 2) minus_one then codes "NoGroup" else gid_to_name_direct now (pos 2)))
    × (name_to_gid c (codes "dev") ≡ name_to_gid_direct now (codes "dev"))
GroupRun-direct_example = GroupRun-direct (pos 2) (codes "dev") run
