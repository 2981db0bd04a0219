-- ===== src/Util/Segments/Tests.antt =====
-- Resolved paths at concrete inputs.
use ebftpd.Prelude.{◌≡◌, refl, [], ◌∷◌, Str, codes, str_eq}
use ebftpd.Util.FilePath.{slash}
use ebftpd.Util.Segments.{pieces, join_segments, resolve}
use ebftpd.Util.Segments.Laws.{walk, resolve-walk}
use ebftpd.Util.Segments.Canonical.{IsCanonical, resolve-IsCanonical}

abbrev tangled : Str
tangled = codes "../site//incoming/./x/../"

resolve-tangled : resolve (slash ∷ tangled) ≡ codes "/site/incoming"
unfolding resolve str_eq
resolve-tangled = refl

resolve_relative : resolve (codes "a/..") ≡ codes "/"
unfolding resolve str_eq
resolve_relative = refl

resolve-walk_example : resolve (slash ∷ tangled) ≡ slash ∷ join_segments (walk [] (pieces tangled))
resolve-walk_example = resolve-walk tangled

resolve-IsCanonical_example : IsCanonical (resolve (slash ∷ tangled))
resolve-IsCanonical_example = resolve-IsCanonical tangled
