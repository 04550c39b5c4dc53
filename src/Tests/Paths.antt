-- ===== src/Tests/Paths.antt =====
-- Route prefixes.
use inferops.Base.{
  List, ◌∷◌, ◌≡◌, refl, false, any, All, Str, codes, ok, err, has_prefix, trim_suffix_byte, str_eq,
}
use inferops.RoutingPath.Clean.{clean, slash, join}
use inferops.RoutingPath.Segments.{IsPlain}
use inferops.RoutingPath.Defs.{
  normalize, reserved_by, is_reserved, reserved_endpoint, not_canonical, reserved_character,
}
use inferops.RoutingPath.Laws.{normalize-elements}

abbrev given : Str
given = codes "/a/b/"

abbrev wanted : Str
wanted = codes "/a/b"

clean_test : clean (codes "//a/./b/../c//") ≡ codes "/a/c"
unfolding clean
clean_test = refl

normalize_test : normalize given ≡ ok wanted
unfolding normalize has_prefix trim_suffix_byte clean reserved_by
normalize_test = refl

reserved_test : normalize (codes "/metrics/x") ≡ err (reserved_endpoint (codes "/metrics"))
unfolding normalize has_prefix trim_suffix_byte clean reserved_by
reserved_test = refl

dots_test : normalize (codes "/a/../b") ≡ err not_canonical
unfolding normalize has_prefix trim_suffix_byte clean reserved_by
dots_test = refl

escape_test : normalize (codes "/a%2e") ≡ err reserved_character
unfolding normalize has_prefix trim_suffix_byte clean reserved_by
escape_test = refl

normalize-elements_example :
    (w : Str) × (ws : List Str) × All IsPlain (w ∷ ws)
    × (wanted ≡ slash ∷ join (w ∷ ws))
    × (clean given ≡ wanted)
    × (any is_reserved wanted ≡ false)
normalize-elements_example = normalize-elements given wanted normalize_test
