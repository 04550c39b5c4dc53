-- ===== src/RoutingPath/Defs.antt =====
-- `Normalize` and `DefaultModelRoute` (internal/routingpath/path.go).
use inferops.Base.{
  ℕ, List, [], ◌∷◌, ◌++◌, Bool, not, ◌||◌, if◌then◌else◌, Str, ◌==◌, str_eq, is_empty, codes, any,
  ltb, nat_eq, has_prefix, trim_suffix_byte, Result, ok, err, ◌>>◌, fail_if,
}
use inferops.RoutingPath.Clean.{slash, clean}

pub data PathError : Type 0 where
  prefix_required no_leading_slash reserved_character not_canonical : PathError
  reserved_endpoint : Str → PathError

abbrev pub reserved_prefixes : List Str
reserved_prefixes = codes "/healthz" ∷ codes "/readyz" ∷ codes "/metrics" ∷ []

abbrev pub default_model_prefix : Str
default_model_prefix = codes "/models/"

unfoldable pub default_model_route : Str → Str
default_model_route model_deployment_name = default_model_prefix ++ model_deployment_name

-- `?`, `#`, a backslash, `%`, or a control character.
abbrev pub is_reserved : ℕ → Bool
is_reserved c = c == 63 || c == 35 || c == 92 || c == 37 || ltb c 32 || c == 127

abbrev pub is_under : Str → Str → Bool
is_under path root = path == root || has_prefix path (root ++ slash ∷ [])

unfoldable pub reserved_by : List Str → Str → Result PathError Str
unfolding has_prefix
reserved_by [] normalized = ok normalized
reserved_by (reserved ∷ more) normalized =
    if is_under normalized reserved
    then err (reserved_endpoint reserved)
    else reserved_by more normalized

unfoldable pub normalize : Str → Result PathError Str
normalize prefix = do
  let normalized = trim_suffix_byte prefix slash
  fail_if (is_empty prefix) prefix_required
  fail_if (not (has_prefix prefix (slash ∷ []))) no_leading_slash
  fail_if (any is_reserved prefix) reserved_character
  fail_if (is_empty normalized || normalized == slash ∷ [] || not (clean prefix == normalized))
      not_canonical
  reserved_by reserved_prefixes normalized
