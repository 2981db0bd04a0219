-- ===== src/Util/Wildcard.antt =====
-- util::WildcardMatch of util/util/string.cpp. The C library's fnmatch is a parameter: pattern,
-- text, whether FNM_CASEFOLD is set, and 0 for a match.
use ebftpd.Prelude.{ℕ, Bool, Str, ◌==◌}

abbrev pub Fnmatch : Type 0
Fnmatch = Str → Str → Bool → ℕ

unfoldable pub wildcard_match : Fnmatch → Str → Str → Bool → Bool
wildcard_match fnmatch pattern str i_case = fnmatch pattern str i_case == 0
