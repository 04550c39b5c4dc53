-- ===== src/Tests/Auth.antt =====
-- A request with a bearer token.
use inferops.Base.{
  ℕ, ◌+◌, ◌<◌, List, [], ◌∷◌, ◌≡◌, ◌≢◌, refl, ◌⊎◌, Option, none, some, Str, str_eq, codes,
  trim_space, has_prefix, In, Result, ok, pos,
}
use inferops.Auth.Defs.{
  AuthError, FileTokenSource, new_file_token_source, wrap, forward, tokens_at, load, lines,
  trimmed_lines, bearer_token, fields_from, credentials, is_bearer, matches_any, authorization,
  header_values, header_del,
}
use inferops.Auth.Laws.{Call, after_calls, wrap-forward, tokens_at-fresh}

abbrev tokens : List Str
tokens = codes "k" ∷ codes "l" ∷ []

abbrev headers : List (Str × Str)
headers = (authorization, codes "bearer l") ∷ (codes "Host", codes "h") ∷ []

wrap_test : wrap (ok tokens) headers ≡ forward ((codes "Host", codes "h") ∷ [])
unfolding wrap bearer_token fields_from has_prefix credentials is_bearer matches_any header_values
    header_del
wrap_test = refl

wrap-forward_example :
    (ts : List Str) × (token : Str) × (◌≡◌ {A = Result AuthError (List Str)} (ok tokens) (ok ts))
    × (bearer_token (header_values authorization headers) ≡ some token)
    × In token ts
    × ((codes "Host", codes "h") ∷ [] ≡ header_del authorization headers)
    × (header_values authorization ((codes "Host", codes "h") ∷ []) ≡ [])
wrap-forward_example = wrap-forward (ok tokens) headers ((codes "Host", codes "h") ∷ []) wrap_test

abbrev source : FileTokenSource
source = record {
  path = codes "f";
  reload_interval = 5;
  tokens = [];
  reload_err = none;
  next_reload = none;
}

new_file_token_source_test : new_file_token_source (codes " f") (pos 5) ≡ ok source
unfolding new_file_token_source trim_space
new_file_token_source_test = refl

abbrev calls : List Call
calls = (10, some (codes " k\n\nl")) ∷ []

-- The file is gone, but the tokens that were read before are kept for the interval.
tokens_at_test : (tokens_at 14 none (after_calls calls source)).0 ≡ ok tokens
unfolding tokens_at load lines trimmed_lines trim_space
tokens_at_test = refl

tokens_at-fresh_example :
    (t : ℕ) × (content : Str) × (((t ≡ 14) × (◌≡◌ {A = Option Str} none (some content)))
      ⊎ (In (t, some content) calls × (14 < t + 5)))
    × (tokens ≡ trimmed_lines (lines content))
    × (tokens ≢ [])
tokens_at-fresh_example = tokens_at-fresh source calls 14 none tokens refl tokens_at_test
